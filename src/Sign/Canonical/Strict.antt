-- ===== src/Sign/Canonical/Strict.antt =====
-- The strict canonical against the first-value canonical and the wire query.
use atome_fin_go_sdk.Base.{◌≤◌, ◌≡◌, refl, sym, ap, ◌∙◌, List, [], ◌∷◌, Bytes, length, All, arith}
use atome_fin_go_sdk.Text.{sort_strings}
use atome_fin_go_sdk.Sign.Escape.{rfc3986_escape}
use atome_fin_go_sdk.Sign.Canonical.{
  Values, values_of, keys, Builder, start, write_pair, Result, canonical, multi_value, strict_round,
  strict_loop, canonical_query, first_value_loop, write_first, canonical_query_first_value,
  write_values, wire_loop, encode_wire_query,
}
use atome_fin_go_sdk.Sign.Canonical.Order.{canonical_query-loop, first_value-loop, wire-loop}

-- What the strict loop returns, against the other two loops.
abbrev pub Agrees : Values → Result → Bytes → Bytes → Type 0
Agrees values (canonical s) first wire = (s ≡ first) × (s ≡ wire)
Agrees values (multi_value k n) first wire = (n ≡ length (values_of k values)) × (2 ≤ n)

strict_round-Agrees :
    (values : Values) (k : Bytes) (b : Builder) (vs ks : List (Bytes))
    → values_of k values ≡ vs
    → ((c : Builder)
        → Agrees values
            (strict_loop values c ks)
            (first_value_loop values c ks)
            (wire_loop values c ks))
    → Agrees values
        (strict_round k b vs (λ c. strict_loop values c ks))
        (first_value_loop values (write_first b k vs) ks)
        (wire_loop values (write_values b (rfc3986_escape k) vs) ks)
unfolding strict_round write_first write_values
strict_round-Agrees values k b [] ks e rest = rest b
strict_round-Agrees values k b (v ∷ []) ks e rest = rest (write_pair b (rfc3986_escape k) v)
strict_round-Agrees values k b (v ∷ u ∷ vs) ks e rest = (ap length (sym e), omega arith)

strict_loop-Agrees :
    (values : Values) (b : Builder) (ks : List Bytes)
    → Agrees values (strict_loop values b ks) (first_value_loop values b ks) (wire_loop values b ks)
unfolding strict_loop first_value_loop wire_loop
strict_loop-Agrees values b [] = (refl, refl)
strict_loop-Agrees values b (k ∷ ks) =
    strict_round-Agrees values k b (values_of k values) ks refl
      (λ c. strict_loop-Agrees values c ks)

-- When CanonicalQuery succeeds, its string is the first-value canonical and also the wire query.
-- When it fails, the error names a key and the number of its values, which is at least two.
pub canonical_query-Agrees :
    (values : Values)
    → Agrees values
        (canonical_query values)
        (canonical_query_first_value values)
        (encode_wire_query values)
canonical_query-Agrees values =
    rw (canonical_query-loop values, first_value-loop values, wire-loop values)
      (strict_loop-Agrees values start (sort_strings (keys values)))

-- No key has more than one value.
abbrev pub IsSingleValued : Values → Type 0
IsSingleValued = All (λ e. length e.1 ≤ 1)

values_of-single :
    (k : Bytes) (values : Values) → IsSingleValued values → length (values_of k values) ≤ 1
unfolding values_of
values_of-single k [] h = omega arith
values_of-single k ((j, vs) ∷ m) (p, h) = ground (arith, values_of-single k m h)

strict_round-single :
    (k : Bytes) (b : Builder) (vs : List Bytes) (next : Builder → Result)
    → length vs ≤ 1
    → ((c : Builder) → (s : Bytes) × (next c ≡ canonical s))
    → (s : Bytes) × (strict_round k b vs next ≡ canonical s)
unfolding strict_round
strict_round-single k b [] next h rest = rest b
strict_round-single k b (v ∷ []) next h rest = rest (write_pair b (rfc3986_escape k) v)
strict_round-single k b (v ∷ u ∷ vs) next h rest = absurd (omega arith)

strict_loop-single :
    (values : Values) (b : Builder) (ks : List Bytes)
    → IsSingleValued values
    → (s : Bytes) × (strict_loop values b ks ≡ canonical s)
unfolding strict_loop
strict_loop-single values b [] h = (b.out, refl)
strict_loop-single values b (k ∷ ks) h =
    strict_round-single k b (values_of k values) (λ c. strict_loop values c ks)
      (values_of-single k values h) (λ c. strict_loop-single values c ks h)

-- For a query in which no key has two values, CanonicalQuery succeeds, and the string that is
-- signed is byte for byte the query that is sent.
pub canonical_query_single :
    (values : Values)
    → IsSingleValued values
    → (canonical_query values ≡ canonical (encode_wire_query values))
      × (canonical_query_first_value values ≡ encode_wire_query values)
canonical_query_single values h =
    let (s, ok) = strict_loop-single values start (sort_strings (keys values)) h in
    let done = canonical_query-loop values ∙ ok in
    let agrees = rw done at (canonical_query-Agrees values) in
    (done ∙ ap canonical agrees.1, sym agrees.0 ∙ agrees.1)
