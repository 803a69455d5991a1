-- ===== src/Sign/Escape/Laws.antt =====
-- The percent-encoder: its fast path changes nothing, its output is read back, and it writes only
-- unreserved bytes and `%`.
use mathlib.Core.Option
use atome_fin_go_sdk.Base.{
  ℕ, ◌/◌, ◌%◌, ◌<◌, ◌≡◌, refl, sym, ap, ◌⊎◌, inl, inr, true, false, some, [], ◌∷◌, ◌++◌, Bytes,
  AreBytes, All, All-append, Bool-cases, arith,
}
use atome_fin_go_sdk.Url.Hex.{is_unreserved, percent, hex_digit-unreserved}
use atome_fin_go_sdk.Url.{plain, unescape_from, query_unescape}
use atome_fin_go_sdk.Url.RoundTrip.{unescape-percent, unescape-unreserved}
use atome_fin_go_sdk.Sign.Escape.{needs_escape, escape_byte, escape_all, rfc3986_escape}

escape_all-plain : (s : Bytes) → needs_escape s ≡ false → escape_all s ≡ s
unfolding escape_all needs_escape
escape_all-plain [] h = refl
escape_all-plain (c ∷ s) h = elim (Bool-cases (is_unreserved c)) [
  | inl kept ↦ rw kept (ap (◌∷◌ c) (escape_all-plain s (ground arith)))
  | inr changed ↦ ground arith
]

-- The encoder, with its fast path, returns what the loop alone would write.
pub rfc3986_escape-escape_all : (s : Bytes) → rfc3986_escape s ≡ escape_all s
rfc3986_escape-escape_all s = elim (Bool-cases (needs_escape s)) [
  | inl slow ↦ unfold rfc3986_escape in (rw slow)
  | inr fast ↦ unfold rfc3986_escape in (rw fast (sym (escape_all-plain s fast)))
]

unescape-escape_byte :
    (c : ℕ) (s : Bytes)
    → c < 256
    → unescape_from plain (escape_byte c ++ s) ≡ Option.map (◌∷◌ c) (unescape_from plain s)
unfolding escape_byte
unescape-escape_byte c s h = elim (Bool-cases (is_unreserved c)) [
  | inl kept ↦ rw kept (unescape-unreserved c s kept)
  | inr changed ↦ rw changed (unescape-percent c s h)
]

unescape-escape_all : (s : Bytes) → AreBytes s → unescape_from plain (escape_all s) ≡ some s
unfolding escape_all
unescape-escape_all [] h = unfold unescape_from in refl
unescape-escape_all (c ∷ s) (b, h) =
    rw (unescape-escape_byte c (escape_all s) b) (rw (unescape-escape_all s h))

-- Decoding an escaped byte string as net/url does gives it back.
pub query_unescape-rfc3986_escape :
    (s : Bytes) → AreBytes s → query_unescape (rfc3986_escape s) ≡ some s
unfolding query_unescape
query_unescape-rfc3986_escape s h = rw (rfc3986_escape-escape_all s) (unescape-escape_all s h)

-- What the encoder writes: an unreserved byte or `%`.
abbrev pub IsSafe : ℕ → Type 0
IsSafe c = (is_unreserved c ≡ true) ⊎ (c ≡ b'%')

percent-IsSafe : (c : ℕ) → c < 256 → All IsSafe (percent c)
unfolding percent
percent-IsSafe c h = (
  inr refl,
  (
    inl (hex_digit-unreserved (c / 16) (omega arith)),
    (inl (hex_digit-unreserved (c % 16) (omega arith)), tt),
  ),
)

escape_byte-IsSafe : (c : ℕ) → c < 256 → All IsSafe (escape_byte c)
unfolding escape_byte
escape_byte-IsSafe c h = elim (Bool-cases (is_unreserved c)) [
  | inl kept ↦ rw kept (inl kept, tt)
  | inr changed ↦ rw changed (percent-IsSafe c h)
]

escape_all-IsSafe : (s : Bytes) → AreBytes s → All IsSafe (escape_all s)
unfolding escape_all
escape_all-IsSafe [] h = tt
escape_all-IsSafe (c ∷ s) (b, h) =
    All-append IsSafe (escape_byte c) (escape_all s) (escape_byte-IsSafe c b)
      (escape_all-IsSafe s h)

-- For a string of bytes, the encoder writes only unreserved bytes and `%`.
pub rfc3986_escape-IsSafe : (s : Bytes) → AreBytes s → All IsSafe (rfc3986_escape s)
rfc3986_escape-IsSafe s h = rw (rfc3986_escape-escape_all s) (escape_all-IsSafe s h)
