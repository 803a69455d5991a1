-- ===== src/Sign/Canonical/Order.antt =====
-- The strings that are signed and sent do not depend on the order in which `range` visits the map.
use mathlib.Core.List.{Perm, Permᴰ, Nodup, Memᴰ, Nodup-cons}
use mathlib.Core.List.Perm
use mathlib.Core.Logic.{∥∥₁_elim}
use mathlib.Core.Path.{fun_ext}
use atome_fin_go_sdk.Base.{◌≡◌, ◌≢◌, refl, sym, ap, ◌∙◌, List, [], ◌∷◌, Bytes, bytes_eq_iff, arith}
use atome_fin_go_sdk.Text.{sort_strings}
use atome_fin_go_sdk.Text.Sorting.{sort_strings_of_perm}
use atome_fin_go_sdk.Sign.Escape.{rfc3986_escape}
use atome_fin_go_sdk.Sign.Canonical.{
  Values, values_of, keys, Builder, start, strict_round, strict_loop, canonical_query,
  first_value_loop, write_first, canonical_query_first_value, write_values, wire_loop,
  encode_wire_query,
}

-- A Go map holds a key once.
abbrev pub IsMap : Values → Type 0
IsMap values = Nodup (keys values)

head_apart : (e f : Bytes × List Bytes) (m : Values) → IsMap (e ∷ f ∷ m) → e.0 ≢ f.0
head_apart e f m h same = (Nodup-cons.0 h).0 ∣ Memᴰ.head same ∣₁

values_of-swap :
    (k : Bytes) (e f : Bytes × List Bytes) (m : Values)
    → e.0 ≢ f.0
    → values_of k (e ∷ f ∷ m) ≡ values_of k (f ∷ e ∷ m)
unfolding values_of
values_of-swap k (i, us) (j, vs) m h = ground (arith, bytes_eq_iff i k, bytes_eq_iff j k)

IsMap-of_permᴰ : {m n : Values} → Permᴰ m n → IsMap m → IsMap n
IsMap-of_permᴰ p h = Perm.nodup (Perm.map (λ e. e.0) ∣ p ∣₁) h

values_of-cons :
    (k : Bytes) (e : Bytes × List Bytes) (m n : Values)
    → values_of k m ≡ values_of k n
    → values_of k (e ∷ m) ≡ values_of k (e ∷ n)
unfolding values_of
values_of-cons k (j, vs) m n h = rw h

values_of_permᴰ : (k : Bytes) {m n : Values} → Permᴰ m n → IsMap m → values_of k m ≡ values_of k n
values_of_permᴰ k Permᴰ.nil h = refl
values_of_permᴰ k (Permᴰ.cons {b = b} {l₁ = l₁} {l₂ = l₂} same p) h =
    rw same (values_of-cons k b l₁ l₂ (values_of_permᴰ k p (Nodup-cons.0 h).1))
values_of_permᴰ k (Permᴰ.swap {a = a} {b = b} {l = l} p q) h =
    rw (← p, ← q) (values_of-swap k a b l (head_apart a b l h))
values_of_permᴰ k (Permᴰ.trans p q) h =
    values_of_permᴰ k p h ∙ values_of_permᴰ k q (IsMap-of_permᴰ p h)

bytes_list_set : IsSet (List Bytes)
bytes_list_set = hlevel

bytes_set : IsSet Bytes
bytes_set = hlevel

pub values_of_perm : (k : Bytes) {m n : Values} → Perm m n → IsMap m → values_of k m ≡ values_of k n
values_of_perm k p h = ∥∥₁_elim p (bytes_list_set _ _) (λ q. values_of_permᴰ k q h)

-- The loops see the map only through its lookups.
module _ (m n : Values) (same : (k : Bytes) → values_of k m ≡ values_of k n) where
  strict_loop-cong : (b : Builder) (ks : List Bytes) → strict_loop m b ks ≡ strict_loop n b ks
  unfolding strict_loop
  strict_loop-cong b [] = refl
  strict_loop-cong b (k ∷ ks) =
      rw (same k) (ap (strict_round k b (values_of k n)) (fun_ext (λ c. strict_loop-cong c ks)))

  first_value_loop-cong :
      (b : Builder) (ks : List Bytes) → first_value_loop m b ks ≡ first_value_loop n b ks
  unfolding first_value_loop
  first_value_loop-cong b [] = refl
  first_value_loop-cong b (k ∷ ks) =
      rw (same k) (first_value_loop-cong (write_first b k (values_of k n)) ks)

  wire_loop-cong : (b : Builder) (ks : List Bytes) → wire_loop m b ks ≡ wire_loop n b ks
  unfolding wire_loop
  wire_loop-cong b [] = refl
  wire_loop-cong b (k ∷ ks) =
      rw (same k) (wire_loop-cong (write_values b (rfc3986_escape k) (values_of k n)) ks)

pub canonical_query-loop :
    (m : Values) → canonical_query m ≡ strict_loop m start (sort_strings (keys m))
unfolding canonical_query
canonical_query-loop [] = unfold strict_loop sort_strings in refl
canonical_query-loop (e ∷ m) = refl

pub first_value-loop :
    (m : Values) → canonical_query_first_value m ≡ first_value_loop m start (sort_strings (keys m))
unfolding canonical_query_first_value
first_value-loop [] = unfold first_value_loop sort_strings in refl
first_value-loop (e ∷ m) = refl

pub wire-loop : (m : Values) → encode_wire_query m ≡ wire_loop m start (sort_strings (keys m))
unfolding encode_wire_query
wire-loop [] = unfold wire_loop sort_strings in refl
wire-loop (e ∷ m) = refl

-- For a query that holds each key once, any two orders of its entries give the same signed string,
-- the same wire query and the same strict result, error included.
pub canonical_of_perm :
    (m n : Values)
    → Perm m n
    → IsMap m
    → (canonical_query_first_value m ≡ canonical_query_first_value n)
      × (encode_wire_query m ≡ encode_wire_query n)
      × (canonical_query m ≡ canonical_query n)
canonical_of_perm m n p h =
    let sorted = sort_strings_of_perm (Perm.map (λ e. e.0) p) in
    let same = λ (k : Bytes). values_of_perm k p h in
    (
      first_value-loop m
          ∙ (rw sorted (first_value_loop-cong m n same start (sort_strings (keys n))))
          ∙ sym (first_value-loop n),
      wire-loop m
          ∙ (rw sorted (wire_loop-cong m n same start (sort_strings (keys n))))
          ∙ sym (wire-loop n),
      canonical_query-loop m
          ∙ (rw sorted (strict_loop-cong m n same start (sort_strings (keys n))))
          ∙ sym (canonical_query-loop n),
    )
