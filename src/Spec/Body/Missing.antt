-- ===== src/Spec/Body/Missing.antt =====
-- What ValidateBody reports.
use mathlib.Core.Bool.{false≢true}
use atome_fin_go_sdk.Base.{
  All, [], ◌∷◌, ◌≡◌, ◌≢◌, refl, sym, ap, ◌∙◌, subst, true, false, List, ◌⊎◌, inl, inr, Bytes,
  is_empty, Bool-cases,
}
use atome_fin_go_sdk.Spec.Json.{Json, is_null, child_of}
use atome_fin_go_sdk.Spec.Body.{
  is_array_segment, trim_brackets, join_rendered, index_segment, check_field, no_segment, descend,
  split_path, find_missing, first_missing, validate_body, check_decoded,
}
use atome_fin_go_sdk.Spec.Body.Places.{
  field, index, Step, Matches, Absent, render, Named, Named-of, join_rendered_present,
  index_present, check_array_found, check_array_clear, step-of_Matches,
}

-- What the descent into the value of a plain segment reports, given what lies deeper.
abbrev Found : List Bytes → Json → Bytes → Type 0
Found segs v r = (p : List Step) × Matches segs p × Absent v p × (render r p ≡ descend segs v r)

abbrev into_field : Bytes → List Bytes → Json → Bytes → Bytes
into_field seg segs v r =
    check_field (λ u s. descend segs u s) (no_segment segs) (join_rendered r seg) (child_of v seg)

field-Found :
    (seg : Bytes) (segs : List Bytes) (v : Json) (r : Bytes)
    → (is_empty (descend segs (child_of v seg) (join_rendered r seg)) ≡ false
        → Found segs (child_of v seg) (join_rendered r seg))
    → is_empty (into_field seg segs v r) ≡ false
    → (q : List Step) × Matches segs q
      × Absent v (field seg ∷ q)
      × (render (join_rendered r seg) q ≡ into_field seg segs v r)
unfolding check_field no_segment render
field-Found seg [] v r deeper h = elim (Bool-cases (is_null (child_of v seg))) [
  | inl nothing ↦ ([], refl, nothing, rw nothing refl)
  | inr something ↦ absurd (false≢true (sym (rw something at h)))
]
field-Found seg (s ∷ ss) v r deeper h = elim (Bool-cases (is_null (child_of v seg))) [
  | inl nothing ↦ absurd (false≢true (sym (rw nothing at h)))
  | inr something ↦
      let (p, m, absent, rendered) = deeper (rw something at h) in
      let (x, q, e) = step-of_Matches s ss p m in
      (
        x ∷ q,
        subst (Matches (s ∷ ss)) e m,
        (something, subst (Absent (child_of v seg)) e absent),
        rw something (
            subst
              (λ t.
                render (join_rendered r seg) t
                ≡ descend (s ∷ ss) (child_of v seg) (join_rendered r seg))
              e rendered),
      )
]

-- A report is the place of something that is absent.
descend-Found :
    (segs : List Bytes) (v : Json) (r : Bytes)
    → is_empty (descend segs v r) ≡ false
    → Found segs v r
unfolding descend render
descend-Found [] v r h = elim (Bool-cases (is_null v)) [
  | inl nothing ↦ ([], refl, nothing, rw nothing refl)
  | inr something ↦ absurd (false≢true (sym (rw something at h)))
]
descend-Found (seg ∷ segs) v r h = elim (Bool-cases (is_array_segment seg)) [
  | inl many ↦
      let (n, w, at, there, same) =
        check_array_found (λ u s. descend segs u s) (join_rendered r (trim_brackets seg))
          (child_of v (trim_brackets seg)) (rw many at h) in
      let (q, m, absent, rendered) =
        descend-Found segs w (join_rendered (join_rendered r (trim_brackets seg)) (index_segment n))
          (ap is_empty same ∙ rw many at h) in
      (
        field (trim_brackets seg) ∷ index n ∷ q,
        inr (many, (n, q, refl, m)),
        (there, (w, at, absent)),
        rw many (rendered ∙ same),
      )
  | inr plain ↦
      let (q, m, absent, rendered) =
        field-Found seg segs v r (λ k. descend-Found segs (child_of v seg) (join_rendered r seg) k)
          (rw plain at h) in
      (field seg ∷ q, inl (plain, (q, refl, m)), absent, rw plain rendered)
]

field_clear :
    (seg : Bytes) (segs : List Bytes) (v : Json) (r : Bytes)
    → is_empty (join_rendered r seg) ≡ false
    → (is_empty (descend segs (child_of v seg) (join_rendered r seg)) ≡ true
        → (p : List Step) → Matches segs p
        → Absent (child_of v seg) p
        → ⊥)
    → is_empty (into_field seg segs v r) ≡ true
    → (q : List Step) → Matches segs q
    → Absent v (field seg ∷ q)
    → ⊥
unfolding check_field no_segment
field_clear seg [] v r named deeper h q m absent =
    let nothing : is_null (child_of v seg) ≡ true =
      subst (λ t. Absent v (field seg ∷ t)) m absent in
    false≢true (sym named ∙ rw nothing at h)
field_clear seg (s ∷ ss) v r named deeper h q m absent =
    let (x, t, e) = step-of_Matches s ss q m in
    let (something, inside) = subst (λ u. Absent v (field seg ∷ u)) e absent in
    deeper (rw something at h) q m (subst (Absent (child_of v seg)) (sym e) inside)

-- Where nothing is reported, nothing is absent.
descend_clear :
    (segs : List Bytes) (v : Json) (r : Bytes)
    → Named r segs
    → is_empty (descend segs v r) ≡ true
    → (p : List Step) → Matches segs p
    → Absent v p
    → ⊥
unfolding descend
descend_clear [] v r named h p m absent =
    let nothing : is_null v ≡ true = subst (Absent v) m absent in
    false≢true (sym named ∙ rw nothing at h)
descend_clear (seg ∷ segs) v r named h p (inl (plain, (q, e, m))) absent =
    let present = join_rendered_present r seg named in
    field_clear seg segs v r present
      (λ k. descend_clear segs (child_of v seg) (join_rendered r seg) (Named-of _ segs present) k)
      (rw plain at h) q m (subst (Absent v) e absent)
descend_clear (seg ∷ segs) v r named h p (inr (many, (n, q, e, m))) absent =
    let (there, (w, at, inside)) = subst (Absent v) e absent in
    descend_clear segs w (join_rendered (join_rendered r (trim_brackets seg)) (index_segment n))
      (Named-of _ segs (index_present (join_rendered r (trim_brackets seg)) n))
      (check_array_clear (λ u s. descend segs u s) (join_rendered r (trim_brackets seg))
        (child_of v (trim_brackets seg)) (rw many at h) n w at)
      q m inside

-- The place belongs to one of the required paths, and nothing but null stands there.
abbrev pub IsMissing : Json → List Bytes → List Step → Type 0
IsMissing doc [] p = ⊥
IsMissing doc (path ∷ paths) p =
    (Matches (split_path path) p × Absent doc p) ⊎ IsMissing doc paths p

-- The path does not start with a dot and is not empty.
abbrev pub IsNamed : Bytes → Type 0
IsNamed path = Named [] (split_path path)

first_missing-IsMissing :
    (doc : Json) (required : List Bytes)
    → is_empty (first_missing doc required) ≡ false
    → (p : List Step) × IsMissing doc required p × (render [] p ≡ first_missing doc required)
unfolding first_missing find_missing
first_missing-IsMissing doc [] h = cc
first_missing-IsMissing doc (path ∷ paths) h =
    elim (Bool-cases (is_empty (descend (split_path path) doc []))) [
      | inr here ↦
          let (p, m, absent, rendered) = descend-Found (split_path path) doc [] here in
          (p, inl (m, absent), rw here rendered)
      | inl clear ↦
          let (p, missing, rendered) = first_missing-IsMissing doc paths (rw clear at h) in
          (p, inr missing, rw clear rendered)
    ]

first_missing-clear :
    (doc : Json) (required : List Bytes)
    → All IsNamed required
    → is_empty (first_missing doc required) ≡ true
    → (p : List Step) → IsMissing doc required p
    → ⊥
unfolding first_missing find_missing
first_missing-clear doc [] named h p missing = missing
first_missing-clear doc (path ∷ paths) (n, named) h p missing =
    elim (Bool-cases (is_empty (descend (split_path path) doc []))) [
      | inr here ↦ absurd (false≢true (sym here ∙ rw here at h))
      | inl clear ↦ elim missing [
        | inl (m, absent) ↦ descend_clear (split_path path) doc [] n clear p m absent
        | inr later ↦ first_missing-clear doc paths named (rw clear at h) p later
      ]
    ]

-- What ValidateBody answers for a body that decodes: nothing, and then no required place is missing,
-- or the spelling of a required place that is.
abbrev pub Reports : Json → List Bytes → Bytes → Type 0
Reports doc required m =
    ((m ≡ []) × ((p : List Step) → IsMissing doc required p → ⊥))
    ⊎ ((m ≢ []) × ((p : List Step) × IsMissing doc required p × (render [] p ≡ m)))

reports :
    (doc : Json) (required : List Bytes)
    → All IsNamed required
    → Reports doc required (first_missing doc required)
reports doc required named = elim (Bool-cases (is_empty (first_missing doc required))) [
  | inl clear ↦
      inl (nil_of (first_missing doc required) clear, first_missing-clear doc required named clear)
  | inr some_left ↦ inr (
    (λ e. false≢true (sym some_left ∙ ap is_empty e)),
    first_missing-IsMissing doc required some_left,
  )
]
  where
    nil_of : (m : Bytes) → is_empty m ≡ true → m ≡ []
    nil_of [] h = refl
    nil_of (c ∷ m) h = cc

-- For a body that decodes, and required paths that start with a name, ValidateBody answers without
-- an error: nothing exactly where every place that the required paths stand for (each element of an
-- array included) has a value other than null or lies in an object or array that is not there, and
-- else the spelling of a place that is missing.
pub validate_body-Reports :
    {E : Type 0} (decode : Bytes → E ⊎ Json) (body : Bytes) (required : List Bytes) (doc : Json)
    → decode body ≡ inr doc
    → All IsNamed required
    → (m : Bytes) × (validate_body decode body required ≡ inr m) × Reports doc required m
unfolding validate_body check_decoded
validate_body-Reports decode body [] doc e named = ([], refl, inl (refl, λ p h. h))
validate_body-Reports decode body (path ∷ paths) doc e named =
    (first_missing doc (path ∷ paths), rw e refl, reports doc (path ∷ paths) named)
