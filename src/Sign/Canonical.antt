-- ===== src/Sign/Canonical.antt =====
-- atomefin/sign/canonical.go: the canonical string of a GET request, strict and by first value,
-- and the query that goes on the wire. `url.Values` is the list of its entries, in the order in
-- which `range` visits them.
pub mod Refinement
pub mod Gateway
pub mod Order
pub mod Strict
use atome_fin_go_sdk.Base.{
  ℕ, Bool, true, false, List, [], ◌∷◌, ◌++◌, map, if◌then◌else◌, Bytes, bytes_eq, length,
}
use atome_fin_go_sdk.Text.{sort_strings}
use atome_fin_go_sdk.Sign.Escape.{rfc3986_escape}

abbrev pub Values : Type 0
Values = List (Bytes × List Bytes)

-- `values[k]`, the nil slice on a missing key.
unfoldable pub values_of : Bytes → Values → List Bytes
values_of k [] = []
values_of k ((j, vs) ∷ m) = if bytes_eq j k then vs else values_of k m

abbrev pub keys : Values → List Bytes
keys = map (λ e. e.0)

-- The `strings.Builder` with the flag that drops the first `&`.
pub record Builder : Type 0 where
  pub first : Bool
  pub out : Bytes

abbrev pub start : Builder
start = record { first = true; out = [] }

unfoldable pub write_pair : Builder → Bytes → Bytes → Builder
write_pair b ek v = record {
  first = false;
  out = b.out ++ ((if b.first then [] else b'&' ∷ []) ++ (ek ++ (b'=' ∷ rfc3986_escape v)));
}

-- `MultiValueQueryError`, with its key and count.
pub data Result : Type 0 where
  canonical : Bytes → Result
  multi_value : (key : Bytes) (count : ℕ) → Result

-- One round of the loop of `CanonicalQuery`; `next` is the rest of the loop.
strict_round : Bytes → Builder → List Bytes → (Builder → Result) → Result
strict_round k b [] next = next b
strict_round k b (v ∷ []) next = next (write_pair b (rfc3986_escape k) v)
strict_round k b (v ∷ u ∷ vs) next = multi_value k (length (v ∷ u ∷ vs))

unfoldable pub strict_loop : Values → Builder → List Bytes → Result
unfolding strict_round
strict_loop values b [] = canonical b.out
strict_loop values b (k ∷ ks) = strict_round k b (values_of k values) (λ c. strict_loop values c ks)

unfoldable pub canonical_query : Values → Result
unfolding strict_loop
canonical_query [] = canonical []
canonical_query (e ∷ m) = strict_loop (e ∷ m) start (sort_strings (keys (e ∷ m)))

write_first : Builder → Bytes → List Bytes → Builder
write_first b k [] = b
write_first b k (v ∷ vs) = write_pair b (rfc3986_escape k) v

-- The loop of `CanonicalQueryFirstValue`.
unfoldable pub first_value_loop : Values → Builder → List Bytes → Bytes
unfolding write_first
first_value_loop values b [] = b.out
first_value_loop values b (k ∷ ks) =
    first_value_loop values (write_first b k (values_of k values)) ks

unfoldable pub canonical_query_first_value : Values → Bytes
unfolding first_value_loop
canonical_query_first_value [] = []
canonical_query_first_value (e ∷ m) = first_value_loop (e ∷ m) start (sort_strings (keys (e ∷ m)))

-- The inner loop of `EncodeWireQueryRFC3986`.
write_values : Builder → Bytes → List Bytes → Builder
write_values b ek [] = b
write_values b ek (v ∷ vs) = write_values (write_pair b ek v) ek vs

unfoldable pub wire_loop : Values → Builder → List Bytes → Bytes
unfolding write_values
wire_loop values b [] = b.out
wire_loop values b (k ∷ ks) =
    wire_loop values (write_values b (rfc3986_escape k) (values_of k values)) ks

unfoldable pub encode_wire_query : Values → Bytes
unfolding wire_loop
encode_wire_query [] = []
encode_wire_query (e ∷ m) = wire_loop (e ∷ m) start (sort_strings (keys (e ∷ m)))
