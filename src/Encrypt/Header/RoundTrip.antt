-- ===== src/Encrypt/Header/RoundTrip.antt =====
-- Reading the Encrypt header that the SDK writes.
use atome_fin_go_sdk.Url.Hex.{is_unreserved, percent, hex_digit}
use atome_fin_go_sdk.Base.{
  ◌>>=◌, ◌>>=◌, [], ◌∷◌, ◌++◌, ℕ, ◌≡◌, ◌≢◌, refl, Bool, true, false, not, ◌&&◌, some, ◌==◌, All,
  All-append, Bytes, AreBytes, is_empty, every_below, every_below_sound, all, get, put, bytes_eq,
  arith,
}
use atome_fin_go_sdk.Text.{cut, trim_space, is_space}
use atome_fin_go_sdk.Text.Laws.{Lacks, Solid, split-of_Lacks, cut-append, trim_space-of_Solid}
use atome_fin_go_sdk.Url.{query_escape, query_escape_byte, query_unescape}
use atome_fin_go_sdk.Url.RoundTrip.{query_unescape-query_escape}
use atome_fin_go_sdk.Encrypt.Header.{
  parse_pair, symmetric_key_field, build_encrypt_header, parse_parts, parse_encrypt_header,
  symmetric_key_from,
}

-- Neither white space nor the comma that separates parts.
abbrev Inner : ℕ → Type 0
Inner c = (is_space c ≡ false) × (c ≢ b',')

is_inner : ℕ → Bool
is_inner c = not (is_space c) && not (c == b',')

is_inner_sound : (c : ℕ) → is_inner c ≡ true → Inner c
unfolding is_inner
is_inner_sound c h = (ground arith, ground arith)

all-Inner_sound : (s : Bytes) → all is_inner s ≡ true → All Inner s
all-Inner_sound [] h = tt
all-Inner_sound (c ∷ s) h = (is_inner_sound c (ground arith), all-Inner_sound s (ground arith))

Lacks-sound : (sep : ℕ) (s : Bytes) → all (λ c. not (c == sep)) s ≡ true → Lacks sep s
Lacks-sound sep [] h = tt
Lacks-sound sep (c ∷ s) h = (ground arith, Lacks-sound sep s (ground arith))

escaped_inner : every_below 256 (λ c. all is_inner (query_escape_byte c)) ≡ true
unfolding every_below is_inner query_escape_byte is_space is_unreserved percent hex_digit
escaped_inner = refl

query_escape-Inner : (s : Bytes) → AreBytes s → All Inner (query_escape s)
unfolding query_escape
query_escape-Inner [] h = tt
query_escape-Inner (c ∷ s) (b, h) =
    All-append Inner (query_escape_byte c) (query_escape s)
      (all-Inner_sound (query_escape_byte c)
        (every_below_sound (λ c. all is_inner (query_escape_byte c)) 256 c escaped_inner b))
      (query_escape-Inner s h)

Inner-Solid : (s : Bytes) → All Inner s → Solid s
Inner-Solid [] h = tt
Inner-Solid (c ∷ s) (p, h) = (p.0, Inner-Solid s h)

Inner-Lacks : (s : Bytes) → All Inner s → Lacks b',' s
Inner-Lacks [] h = tt
Inner-Lacks (c ∷ s) (p, h) = (p.1, Inner-Lacks s h)

-- A header of one part.
parse_single :
    (part k v u : Bytes)
    → trim_space part ≡ part
    → is_empty part ≡ false
    → cut b'=' part ≡ (k, some v)
    → trim_space k ≡ k
    → is_empty k ≡ false
    → trim_space v ≡ v
    → query_unescape v ≡ some u
    → parse_parts (part ∷ []) [] ≡ some ((k, u) ∷ [])
unfolding parse_parts put
parse_single part k v u trimmed there halves trim_k there_k trim_v value =
    let pair : parse_pair (cut b'=' part) [] ≡ some ((k, u) ∷ []) =
      rw halves (unfold parse_pair in rw (trim_k, there_k, trim_v, value) refl) in
    rw (trimmed, there, pair) refl

-- The parsed header of a wrapped key holds that key, and only it.
pub parse_encrypt_header-build :
    (wrapped : Bytes)
    → AreBytes wrapped
    → parse_encrypt_header (build_encrypt_header wrapped)
      ≡ some ((symmetric_key_field, wrapped) ∷ [])
unfolding parse_encrypt_header build_encrypt_header
parse_encrypt_header-build wrapped h =
    let escaped = query_escape wrapped in
    let inner = query_escape-Inner wrapped h in
    let field : All Inner symmetric_key_field =
      all-Inner_sound symmetric_key_field (unfold is_inner is_space in refl) in
    let whole : All Inner (symmetric_key_field ++ b'=' ∷ escaped) =
      All-append Inner symmetric_key_field (b'=' ∷ escaped) field
        (is_inner_sound b'=' (unfold is_inner is_space in refl), inner) in
    let solid = Inner-Solid (symmetric_key_field ++ b'=' ∷ escaped) whole in
    let no_equals : Lacks b'=' symmetric_key_field = Lacks-sound b'=' symmetric_key_field refl in
    let lacks = Inner-Lacks (symmetric_key_field ++ b'=' ∷ escaped) whole in
    let part = symmetric_key_field ++ b'=' ∷ escaped in
    rw
      (
        trim_space-of_Solid part solid,
        split-of_Lacks b',' part lacks,
        parse_single part symmetric_key_field escaped wrapped (trim_space-of_Solid part solid) refl
            (cut-append b'=' symmetric_key_field escaped no_equals)
            (trim_space-of_Solid symmetric_key_field (Inner-Solid symmetric_key_field field)) refl
            (trim_space-of_Solid escaped (Inner-Solid escaped inner))
            (query_unescape-query_escape wrapped h),
      )
      refl

-- For a wrapped key of bytes that is not empty, the written header parses, and the key read from it
-- is the key written.
pub symmetric_key_from-build :
    (wrapped : Bytes)
    → AreBytes wrapped
    → wrapped ≢ []
    → (parse_encrypt_header (build_encrypt_header wrapped) >>= symmetric_key_from) ≡ some wrapped
unfolding symmetric_key_from
symmetric_key_from-build [] h k = absurd (k refl)
symmetric_key_from-build (c ∷ wrapped) h k =
    rw (parse_encrypt_header-build (c ∷ wrapped) h) (unfold get bytes_eq in refl)
