-- ===== src/Url/RoundTrip.antt =====
-- Decoding what the encoders write.
use mathlib.Core.Option
use atome_fin_go_sdk.Base.{
  ℕ, ◌+◌, ◌*◌, ◌/◌, ◌%◌, ◌<◌, ◌≡◌, ◌≢◌, refl, inl, inr, true, false, some, [], ◌∷◌, ◌++◌, ◌==◌,
  Bytes, AreBytes, Bool-cases, ==_iff, arith,
}
use atome_fin_go_sdk.Url.Hex.{is_unreserved, percent, unhex-hex_digit}
use atome_fin_go_sdk.Url.{
  plain, plus_as_space, unescape_from, query_escape_byte, query_escape, query_unescape,
}

-- An escape stands for its byte.
pub unescape-percent :
    (c : ℕ) (s : Bytes)
    → c < 256
    → unescape_from plain (percent c ++ s) ≡ Option.map (◌∷◌ c) (unescape_from plain s)
unfolding percent unescape_from
unescape-percent c s h =
    let hi = unhex-hex_digit (c / 16) (omega arith) in
    let lo = unhex-hex_digit (c % 16) (omega arith) in
    let whole : c / 16 * 16 + c % 16 ≡ c = omega arith in
    rw (hi, unescape_from) (rw (lo, unescape_from) (rw whole))

percent-reserved : is_unreserved b'%' ≡ false
unfolding is_unreserved
percent-reserved = refl

plus-reserved : is_unreserved b'+' ≡ false
unfolding is_unreserved
plus-reserved = refl

pub is_unreserved-ne : (c d : ℕ) → is_unreserved c ≡ true → is_unreserved d ≡ false → c ≢ d
is_unreserved-ne c d h k e = cc

-- An unreserved byte stands for itself.
pub unescape-unreserved :
    (c : ℕ) (s : Bytes)
    → is_unreserved c ≡ true
    → unescape_from plain (c ∷ s) ≡ Option.map (◌∷◌ c) (unescape_from plain s)
unfolding unescape_from
unescape-unreserved c s h =
    let apart = is_unreserved-ne c b'%' h percent-reserved in
    let other = is_unreserved-ne c b'+' h plus-reserved in
    let test : (c == b'%') ≡ false = ground arith in
    let kept : plus_as_space c ≡ c = unfold plus_as_space in ground arith in
    rw (test, unescape_from) (rw kept)

unescape-query_escape_byte :
    (c : ℕ) (s : Bytes)
    → c < 256
    → unescape_from plain (query_escape_byte c ++ s) ≡ Option.map (◌∷◌ c) (unescape_from plain s)
unfolding query_escape_byte unescape_from
unescape-query_escape_byte c s h = elim (Bool-cases (c == b' ')) [
  | inl blank ↦ rw (blank, unescape_from, (==_iff c b' ').0 blank)
  | inr other ↦ elim (Bool-cases (is_unreserved c)) [
    | inl kept ↦ rw (other, kept) (unescape-unreserved c s kept)
    | inr changed ↦ rw (other, changed) (unescape-percent c s h)
  ]
]

unescape_from-query_escape :
    (s : Bytes) → AreBytes s → unescape_from plain (query_escape s) ≡ some s
unfolding query_escape
unescape_from-query_escape [] h = unfold unescape_from in refl
unescape_from-query_escape (c ∷ s) (b, h) =
    rw (unescape-query_escape_byte c (query_escape s) b) (rw (unescape_from-query_escape s h))

-- Decoding a query component that was encoded gives the bytes back.
pub query_unescape-query_escape :
    (s : Bytes) → AreBytes s → query_unescape (query_escape s) ≡ some s
unfolding query_unescape
query_unescape-query_escape s h = unescape_from-query_escape s h
