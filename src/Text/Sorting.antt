-- ===== src/Text/Sorting.antt =====
-- `sort.Strings`: the order on byte strings is total, and the result of sorting does not depend on
-- the order of the input.
use mathlib.Core.List.{Perm, Permᴰ}
use mathlib.Core.Logic.{∥∥₁_elim}
use atome_fin_go_sdk.Base.{
  ◌≡◌, refl, ap, ◌∙◌, ◌⊎◌, inl, inr, true, List, [], ◌∷◌, Bytes, All, Bool-cases, arith,
}
use atome_fin_go_sdk.Text.{bytes_leb, insert_string, sort_strings}

bytes_leb_total : (s t : Bytes) → (bytes_leb s t ≡ true) ⊎ (bytes_leb t s ≡ true)
unfolding bytes_leb
bytes_leb_total [] t = inl refl
bytes_leb_total (a ∷ s) [] = inr refl
bytes_leb_total (a ∷ s) (b ∷ t) = ground (arith, bytes_leb_total s t)

bytes_leb_antisymm : (s t : Bytes) → bytes_leb s t ≡ true → bytes_leb t s ≡ true → s ≡ t
unfolding bytes_leb
bytes_leb_antisymm [] [] h k = refl
bytes_leb_antisymm [] (b ∷ t) h k = ground arith
bytes_leb_antisymm (a ∷ s) [] h k = ground arith
bytes_leb_antisymm (a ∷ s) (b ∷ t) h k = ground (arith, bytes_leb_antisymm s t)

bytes_leb_trans :
    (s t u : Bytes) → bytes_leb s t ≡ true → bytes_leb t u ≡ true → bytes_leb s u ≡ true
unfolding bytes_leb
bytes_leb_trans [] t u h k = refl
bytes_leb_trans (a ∷ s) [] u h k = ground arith
bytes_leb_trans (a ∷ s) (b ∷ t) [] h k = ground arith
bytes_leb_trans (a ∷ s) (b ∷ t) (c ∷ u) h k = ground (arith, bytes_leb_trans s t u)

insert_string_comm :
    (s t : Bytes) (us : List Bytes)
    → insert_string s (insert_string t us) ≡ insert_string t (insert_string s us)
unfolding insert_string
insert_string_comm s t [] = ground (arith, bytes_leb_total s t, bytes_leb_antisymm s t)
insert_string_comm s t (u ∷ us) = ground (
  arith,
  insert_string_comm s t us,
  bytes_leb_total s t,
  bytes_leb_antisymm s t,
  bytes_leb_trans s t u,
  bytes_leb_trans t s u,
)

sort_strings_of_permᴰ : {ss ts : List Bytes} → Permᴰ ss ts → sort_strings ss ≡ sort_strings ts
unfolding sort_strings
sort_strings_of_permᴰ Permᴰ.nil = refl
sort_strings_of_permᴰ (Permᴰ.cons {b = b} same p) =
    rw same (ap (insert_string b) (sort_strings_of_permᴰ p))
sort_strings_of_permᴰ (Permᴰ.swap {a = a} {b = b} {l = l} p q) =
    rw (p, q) (rw (← p, ← q) (insert_string_comm a b (sort_strings l)))
sort_strings_of_permᴰ (Permᴰ.trans p q) = sort_strings_of_permᴰ p ∙ sort_strings_of_permᴰ q

strings_set : IsSet (List Bytes)
strings_set = hlevel

-- Two arrangements of the same strings are sorted to the same list.
pub sort_strings_of_perm : {ss ts : List Bytes} → Perm ss ts → sort_strings ss ≡ sort_strings ts
sort_strings_of_perm p = ∥∥₁_elim p (strings_set _ _) sort_strings_of_permᴰ

module _ (P : Bytes → Type 0) where
  insert_string-All : (s : Bytes) (ts : List Bytes) → P s → All P ts → All P (insert_string s ts)
  unfolding insert_string
  insert_string-All s [] p h = (p, tt)
  insert_string-All s (t ∷ ts) p (q, h) = elim (Bool-cases (bytes_leb s t)) [
    | inl before ↦ rw before (p, (q, h))
    | inr after ↦ rw after (q, insert_string-All s ts p h)
  ]

  pub sort_strings-All : (ts : List Bytes) → All P ts → All P (sort_strings ts)
  unfolding sort_strings
  sort_strings-All [] h = tt
  sort_strings-All (t ∷ ts) (p, h) = insert_string-All t (sort_strings ts) p (sort_strings-All ts h)
