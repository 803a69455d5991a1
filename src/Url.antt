-- ===== src/Url.antt =====
-- The part of Go's net/url that the SDK relies on: percent-encoding of a query component, with a
-- blank as `+`, and its decoding. sign/canonical.go has an encoder of its own, which writes the
-- same escapes; `Hex` has what both encoders share.
pub mod Hex
pub mod RoundTrip
pub mod Query
use mathlib.Core.Option
use atome_fin_go_sdk.Base.{
  ℕ, ◌+◌, ◌*◌, true, false, Option, none, some, List, [], ◌∷◌, ◌++◌, ◌==◌, if◌then◌else◌, Bytes,
}
use atome_fin_go_sdk.Url.Hex.{is_unreserved, percent, unhex}

-- One byte of `url.QueryEscape`.
unfoldable pub query_escape_byte : ℕ → Bytes
query_escape_byte c = if c == b' ' then b'+' ∷ [] else if is_unreserved c then c ∷ [] else percent c

unfoldable pub query_escape : Bytes → Bytes
unfolding query_escape_byte
query_escape [] = []
query_escape (c ∷ s) = query_escape_byte c ++ query_escape s

-- Where the decoder stands: between characters, after `%`, or after `%` and one digit.
pub data Place : Type 0 where
  plain : Place
  first_digit : Place
  second_digit : ℕ → Place

plus_as_space : ℕ → ℕ
plus_as_space c = if c == b'+' then b' ' else c

-- `url.QueryUnescape`: `none` for a `%` that two hexadecimal digits do not follow.
unfoldable pub unescape_from : Place → Bytes → Option Bytes
unfolding plus_as_space
unescape_from plain [] = some []
unescape_from first_digit [] = none
unescape_from (second_digit d) [] = none
unescape_from plain (c ∷ s) = elim (c == b'%') [
  | true ↦ unescape_from first_digit s
  | false ↦ Option.map (◌∷◌ (plus_as_space c)) (unescape_from plain s)
]
unescape_from first_digit (c ∷ s) = elim (unhex c) [
  | none ↦ none
  | some d ↦ unescape_from (second_digit d) s
]
unescape_from (second_digit hi) (c ∷ s) = elim (unhex c) [
  | none ↦ none
  | some lo ↦ Option.map (◌∷◌ (hi * 16 + lo)) (unescape_from plain s)
]

unfoldable pub query_unescape : Bytes → Option Bytes
unfolding unescape_from
query_unescape s = unescape_from plain s
