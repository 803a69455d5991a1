-- ===== src/Spec/Body/Places.antt =====
-- Places in a document, and the loops of ValidateBody over them.
use mathlib.Core.Bool.{false≢true}
use atome_fin_go_sdk.Base.{
  [], ◌∷◌, ℕ, zero, suc, ◌+◌, ◌≡◌, refl, sym, ap, ◌∙◌, true, false, some, List, ◌⊎◌, inl, inr,
  Bytes, is_empty, Bool-cases, arith,
}
use atome_fin_go_sdk.Spec.Json.{
  Json, null, array, Items, nil, cons, is_null, child_of, item, element_of,
}
use atome_fin_go_sdk.Spec.Body.{
  is_array_segment, trim_brackets, join_rendered, index_segment, check_items, check_array,
  starts_with_bracket,
}

-- A place in a document.
pub data Step : Type 0 where
  field : Bytes → Step
  index : ℕ → Step

-- The place is one that the segments of a required path stand for.
abbrev pub Matches : List Bytes → List Step → Type 0
Matches [] p = p ≡ []
Matches (seg ∷ segs) p =
    ((is_array_segment seg ≡ false) × ((q : List Step) × (p ≡ field seg ∷ q) × Matches segs q))
    ⊎ ((is_array_segment seg ≡ true)
        × ((n : ℕ) × (q : List Step) × (p ≡ field (trim_brackets seg) ∷ index n ∷ q)
            × Matches segs q))

-- Nothing but null stands at the place, while the objects and the arrays on the way are there.
abbrev pub Absent : Json → List Step → Type 0
Absent v [] = is_null v ≡ true
Absent v (field k ∷ []) = is_null (child_of v k) ≡ true
Absent v (field k ∷ s ∷ p) = (is_null (child_of v k) ≡ false) × Absent (child_of v k) (s ∷ p)
Absent v (index n ∷ p) = (w : Json) × (element_of v n ≡ some w) × Absent w p

-- The place as the report spells it.
unfoldable pub render : Bytes → List Step → Bytes
render r [] = r
render r (field k ∷ p) = render (join_rendered r k) p
render r (index n ∷ p) = render (join_rendered r (index_segment n)) p

-- A report is told from the empty one: something is rendered, or the first segment has a name.
abbrev pub Named : Bytes → List Bytes → Type 0
Named r [] = is_empty r ≡ false
Named r (seg ∷ segs) = (is_empty r ≡ false) ⊎ (is_empty seg ≡ false)

pub Named-of : (r : Bytes) (segs : List Bytes) → is_empty r ≡ false → Named r segs
Named-of r [] h = h
Named-of r (seg ∷ segs) h = inl h

pub join_rendered_present :
    (r seg : Bytes)
    → (is_empty r ≡ false) ⊎ (is_empty seg ≡ false)
    → is_empty (join_rendered r seg) ≡ false
unfolding join_rendered
join_rendered_present [] seg (inl h) = cc
join_rendered_present [] seg (inr h) = h
join_rendered_present (c ∷ r) seg h = elim (Bool-cases (starts_with_bracket seg)) [
  | inl bracket ↦ rw bracket refl
  | inr plain ↦ rw plain refl
]

pub index_present : (r : Bytes) (n : ℕ) → is_empty (join_rendered r (index_segment n)) ≡ false
unfolding index_segment
index_present r n = join_rendered_present r (index_segment n) (inr refl)

module _ (check : Json → Bytes → Bytes) (r : Bytes) where
  pub check_items_found :
      (n : ℕ) (vs : Items)
      → is_empty (check_items check n r vs) ≡ false
      → (j : ℕ) × (v : Json) × (item j vs ≡ some v)
        × (check v (join_rendered r (index_segment (n + j))) ≡ check_items check n r vs)
  unfolding check_items item
  check_items_found n nil h = cc
  check_items_found n (cons v vs) h =
      let first : n + 0 ≡ n = omega arith in
      elim (Bool-cases (is_empty (check v (join_rendered r (index_segment n))))) [
        | inr here ↦ (0, v, refl, rw (here, first) refl)
        | inl none_here ↦
            let (j, w, at, same) = check_items_found (suc n) vs (rw none_here at h) in
            let shift : n + suc j ≡ suc n + j = omega arith in
            (suc j, w, at, rw (none_here, shift) same)
      ]

  pub check_items_clear :
      (n : ℕ) (vs : Items)
      → is_empty (check_items check n r vs) ≡ true
      → (j : ℕ) (v : Json) → item j vs ≡ some v
      → is_empty (check v (join_rendered r (index_segment (n + j)))) ≡ true
  unfolding check_items item
  check_items_clear n nil h j v at = cc
  check_items_clear n (cons w vs) h j v at =
      elim (Bool-cases (is_empty (check w (join_rendered r (index_segment n))))) [
        | inr here ↦ absurd (false≢true (sym here ∙ rw here at h))
        | inl none_here ↦ later j at none_here (check_items_clear (suc n) vs (rw none_here at h))
      ]
    where
      json_of : {a b : Json} → some a ≡ some b → b ≡ a
      json_of e = cc

      later :
          (i : ℕ)
          → item i (cons w vs) ≡ some v
          → is_empty (check w (join_rendered r (index_segment n))) ≡ true
          → ((k : ℕ) (u : Json)
              → item k vs ≡ some u
              → is_empty (check u (join_rendered r (index_segment (suc n + k)))) ≡ true)
          → is_empty (check v (join_rendered r (index_segment (n + i)))) ≡ true
      later zero e first others =
          let same : n + 0 ≡ n = omega arith in
          rw same
            (ap (λ u. is_empty (check u (join_rendered r (index_segment n)))) (json_of e) ∙ first)
      later (suc k) e first others =
          let shift : n + suc k ≡ suc n + k = omega arith in rw shift (others k v e)

  pub check_array_found :
      (v : Json)
      → is_empty (check_array check r v) ≡ false
      → (n : ℕ) × (w : Json) × (element_of v n ≡ some w)
        × (is_null v ≡ false)
        × (check w (join_rendered r (index_segment n)) ≡ check_array check r v)
  unfolding check_array
  check_array_found (array vs) h =
      let (j, w, at, same) = check_items_found 0 vs h in
      let zero_first : 0 + j ≡ j = omega arith in
      (
        j,
        w,
        at,
        refl,
        ap (λ i. check w (join_rendered r (index_segment i))) (sym zero_first) ∙ same,
      )
  check_array_found null h = cc
  check_array_found (Json.boolean b) h = cc
  check_array_found (Json.number s) h = cc
  check_array_found (Json.text s) h = cc
  check_array_found (Json.object ms) h = cc

  pub check_array_clear :
      (v : Json)
      → is_empty (check_array check r v) ≡ true
      → (n : ℕ) (w : Json) → element_of v n ≡ some w
      → is_empty (check w (join_rendered r (index_segment n))) ≡ true
  unfolding check_array
  check_array_clear (array vs) h n w at =
      let zero_first : 0 + n ≡ n = omega arith in
      ap (λ i. is_empty (check w (join_rendered r (index_segment i)))) (sym zero_first)
      ∙ check_items_clear 0 vs h n w at
  check_array_clear null h n w at = cc
  check_array_clear (Json.boolean b) h n w at = cc
  check_array_clear (Json.number s) h n w at = cc
  check_array_clear (Json.text s) h n w at = cc
  check_array_clear (Json.object ms) h n w at = cc

pub step-of_Matches :
    (seg : Bytes) (segs : List Bytes) (p : List Step)
    → Matches (seg ∷ segs) p
    → (s : Step) × (q : List Step) × (p ≡ s ∷ q)
step-of_Matches seg segs p (inl (plain, (q, e, m))) = (field seg, q, e)
step-of_Matches seg segs p (inr (many, (n, q, e, m))) = (field (trim_brackets seg), index n ∷ q, e)
