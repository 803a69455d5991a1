-- ===== src/Url/Hex.antt =====
-- Hexadecimal escapes `%XX`, and the unreserved bytes of RFC 3986.
use atome_fin_go_sdk.Base.{
  ℕ, zero, suc, true, false, every_below, every_below_sound, ◌+◌, ◌-◌, ◌/◌, ◌%◌, ◌<◌, ◌≡◌, refl,
  Bool, ◌&&◌, ◌||◌, Option, none, some, [], ◌∷◌, ◌==◌, leb, if◌then◌else◌, Bytes, codes, arith,
}

abbrev between : ℕ → ℕ → ℕ → Bool
between lo hi c = leb lo c && leb c hi

unfoldable pub is_unreserved : ℕ → Bool
is_unreserved c =
    between b'A' b'Z' c
    || between b'a' b'z' c
    || between b'0' b'9' c
    || c == b'-'
    || c == b'.'
    || c == b'_'
    || c == b'~'

-- Indexing a string constant; the callers stay in range.
byte_at : Bytes → ℕ → ℕ
byte_at [] i = 0
byte_at (c ∷ s) zero = c
byte_at (c ∷ s) (suc i) = byte_at s i

abbrev upperhex : Bytes
upperhex = codes "0123456789ABCDEF"

unfoldable pub hex_digit : ℕ → ℕ
unfolding byte_at
hex_digit d = byte_at upperhex d

-- `%`, `upperhex[c>>4]`, `upperhex[c&0xF]`.
unfoldable pub percent : ℕ → Bytes
percent c = b'%' ∷ hex_digit (c / 16) ∷ hex_digit (c % 16) ∷ []

unfoldable pub unhex : ℕ → Option ℕ
unhex c =
    if between b'0' b'9' c
    then some (c - b'0')
    else if between b'a' b'f' c
    then some (c - b'a' + 10)
    else if between b'A' b'F' c
    then some (c - b'A' + 10)
    else none

reads_back : ℕ → Bool
reads_back d = elim (unhex (hex_digit d)) [ none ↦ false | some e ↦ e == d ]

digits_read_back : every_below 16 reads_back ≡ true
unfolding every_below reads_back unhex hex_digit
digits_read_back = refl

-- A digit that is written is read back.
pub unhex-hex_digit : (d : ℕ) → d < 16 → unhex (hex_digit d) ≡ some d
unhex-hex_digit d h =
    let table = every_below_sound reads_back 16 d digits_read_back h in
    unfold reads_back in ground arith

digits_unreserved : every_below 16 (λ d. is_unreserved (hex_digit d)) ≡ true
unfolding every_below is_unreserved hex_digit
digits_unreserved = refl

pub hex_digit-unreserved : (d : ℕ) → d < 16 → is_unreserved (hex_digit d) ≡ true
hex_digit-unreserved d h =
    every_below_sound (λ e. is_unreserved (hex_digit e)) 16 d digits_unreserved h
