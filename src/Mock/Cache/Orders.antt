-- ===== src/Mock/Cache/Orders.antt =====
-- Lists of elements whose addresses and keys are all different.
use atome_fin_go_sdk.Base.{
  ap, ==_iff, bytes_eq_refl, ◌≤◌, true, subst, [], ◌∷◌, ℕ, suc, ◌≡◌, refl, inl, inr, false, Option,
  none, some, List, map, ◌==◌, length, if◌then◌else◌, Bytes, bytes_eq, bytes_eq_iff, Bool-cases,
  All, arith,
}
use atome_fin_go_sdk.Mock.Cache.{back, CacheEntry, Element, element_at, unlink}

-- The abstract view: the entries, the last used first.
abbrev pub view : List Element → List CacheEntry
view = map (λ x. x.value)

unfoldable pub lookup : Bytes → List CacheEntry → Option CacheEntry
lookup k [] = none
lookup k (e ∷ es) = if bytes_eq e.key k then some e else lookup k es

unfoldable pub without : Bytes → List CacheEntry → List CacheEntry
without k [] = []
without k (e ∷ es) = let rest = without k es in if bytes_eq e.key k then es else e ∷ rest

unfoldable pub drop_last : List CacheEntry → List CacheEntry
drop_last [] = []
drop_last (e ∷ []) = []
drop_last (e ∷ f ∷ es) = e ∷ drop_last (f ∷ es)

-- The address of the element with a key.
unfoldable pub address_of : Bytes → List Element → Option ℕ
address_of k [] = none
address_of k (x ∷ xs) = if bytes_eq x.value.key k then some x.address else address_of k xs

abbrev pub Apart : Element → Element → Type 0
Apart x y = ((x.address == y.address) ≡ false) × (bytes_eq x.value.key y.value.key ≡ false)

abbrev pub Distinct : List Element → Type 0
Distinct [] = Unit
Distinct (x ∷ xs) = All (Apart x) xs × Distinct xs

-- What stands at the address of a key: `x` is in the list, and the key and the address are its own.
pub record Holds (k : Bytes) (a : ℕ) (xs : List Element) (x : Element) : Type 0 where
  pub at : element_at a xs ≡ some x
  pub address : x.address ≡ a
  pub key : x.value.key ≡ k
  pub entry : lookup k (view xs) ≡ some x.value
  pub apart : All (Apart x) (unlink a xs)

pub length-unlink :
    (a : ℕ) (x : Element) (xs : List Element)
    → element_at a xs ≡ some x
    → suc (length (unlink a xs)) ≡ length xs
unfolding element_at unlink
length-unlink a x [] h = cc
length-unlink a x (y ∷ xs) h = ground (arith, h, length-unlink a x xs)

All-unlink :
    (x : Element) (a : ℕ) (xs : List Element) → All (Apart x) xs → All (Apart x) (unlink a xs)
unfolding unlink
All-unlink x a [] h = tt
All-unlink x a (y ∷ xs) (p, h) = elim (Bool-cases (y.address == a)) [
  | inl here ↦ rw here h
  | inr there ↦ rw there (p, All-unlink x a xs h)
]

pub unlink-Distinct : (a : ℕ) (xs : List Element) → Distinct xs → Distinct (unlink a xs)
unfolding unlink
unlink-Distinct a [] h = tt
unlink-Distinct a (y ∷ xs) (p, h) = elim (Bool-cases (y.address == a)) [
  | inl here ↦ rw here h
  | inr there ↦ rw there (All-unlink y a xs p, unlink-Distinct a xs h)
]

Apart-sym : (x y : Element) → Apart x y → Apart y x
Apart-sym x y (p, q) = (
  ground (arith, p),
  ground (arith, q, bytes_eq_iff x.value.key y.value.key, bytes_eq_iff y.value.key x.value.key),
)

address_of-Apart :
    (x : Element) (k : Bytes) (a : ℕ) (xs : List Element)
    → All (Apart x) xs
    → address_of k xs ≡ some a
    → (x.address == a) ≡ false
unfolding address_of
address_of-Apart x k a [] h e = cc
address_of-Apart x k a (y ∷ xs) (p, h) e = ground (arith, p, e, address_of-Apart x k a xs)

address_of-absent :
    (x : Element) (xs : List Element) → All (Apart x) xs → address_of x.value.key xs ≡ none
unfolding address_of
address_of-absent x [] h = refl
address_of-absent x (y ∷ xs) (p, h) =
    let other : bytes_eq y.value.key x.value.key ≡ false = (Apart-sym x y p).1 in
    rw other (address_of-absent x xs h)

some-element : {x y : Element} → some x ≡ some y → x ≡ y
some-element h = cc

some-address : {a b : ℕ} → some a ≡ some b → a ≡ b
some-address h = cc

absent_or :
    (k j : Bytes) (o : Option ℕ) (xs : List Element)
    → address_of k xs ≡ none
    → address_of j xs ≡ (if bytes_eq k j then none else if bytes_eq k j then o else address_of j xs)
absent_or k j o xs gone = elim (Bool-cases (bytes_eq k j)) [
  | inl same ↦ rw same (subst (λ i. address_of i xs ≡ none) ((bytes_eq_iff k j).0 same) gone)
  | inr other ↦ rw other refl
]

All-element_at :
    (x y : Element) (a : ℕ) (xs : List Element)
    → All (Apart x) xs
    → element_at a xs ≡ some y
    → Apart x y
unfolding element_at
All-element_at x y a [] h e = cc
All-element_at x y a (z ∷ xs) (p, h) e = elim (Bool-cases (z.address == a)) [
  | inl here ↦ subst (Apart x) (some-element (rw here at e)) p
  | inr there ↦ All-element_at x y a xs h (rw there at e)
]

-- The address of a key leads to its element.
pub address_of-Holds :
    (k : Bytes) (a : ℕ) (xs : List Element)
    → Distinct xs
    → address_of k xs ≡ some a
    → (x : Element) × Holds k a xs x
unfolding address_of element_at unlink lookup
address_of-Holds k a [] d e = cc
address_of-Holds k a (y ∷ xs) (p, d) e = elim (Bool-cases (bytes_eq y.value.key k)) [
  | inl same ↦
      let own : y.address ≡ a = some-address (rw same at e) in
      let here : (y.address == a) ≡ true = (==_iff y.address a).1 own in
      (
        y,
        record {
          at = rw here refl;
          address = own;
          key = (bytes_eq_iff y.value.key k).0 same;
          entry = rw same refl;
          apart = rw here p;
        },
      )
  | inr other ↦
      let later : address_of k xs ≡ some a = rw other at e in
      let there : (y.address == a) ≡ false = address_of-Apart y k a xs p later in
      let (x, h) = address_of-Holds k a xs d later in
      (
        x,
        record {
          at = rw there h.at;
          address = h.address;
          key = h.key;
          entry = rw other h.entry;
          apart = rw there (Apart-sym y x (All-element_at y x a xs p h.at), h.apart);
        },
      )
]

-- Unlinking the element of a key takes its entry out of the view.
pub view-unlink :
    (k : Bytes) (a : ℕ) (xs : List Element)
    → Distinct xs
    → address_of k xs ≡ some a
    → view (unlink a xs) ≡ without k (view xs)
unfolding address_of unlink without
view-unlink k a [] d e = cc
view-unlink k a (y ∷ xs) (p, d) e = elim (Bool-cases (bytes_eq y.value.key k)) [
  | inl same ↦
      let here : (y.address == a) ≡ true = (==_iff y.address a).1 (some-address (rw same at e)) in
      rw (same, here) refl
  | inr other ↦
      let later : address_of k xs ≡ some a = rw other at e in
      rw (other, address_of-Apart y k a xs p later)
        (ap (λ es. y.value ∷ es) (view-unlink k a xs d later))
]

pub lookup-absent :
    (k : Bytes) (xs : List Element) → address_of k xs ≡ none → lookup k (view xs) ≡ none
unfolding address_of lookup
lookup-absent k [] e = refl
lookup-absent k (y ∷ xs) e = ground (arith, e, lookup-absent k xs)

-- After unlinking, the key has no address and the others keep theirs.
pub address_of-unlink :
    (k j : Bytes) (a : ℕ) (xs : List Element)
    → Distinct xs
    → address_of k xs ≡ some a
    → address_of j (unlink a xs) ≡ (if bytes_eq k j then none else address_of j xs)
unfolding address_of unlink
address_of-unlink k j a [] d e = cc
address_of-unlink k j a (y ∷ xs) (p, d) e = elim (Bool-cases (bytes_eq y.value.key k)) [
  | inl same ↦
      let here : (y.address == a) ≡ true = (==_iff y.address a).1 (some-address (rw same at e)) in
      let own = (bytes_eq_iff y.value.key k).0 same in
      let gone = subst (λ i. address_of i xs ≡ none) own (address_of-absent y xs p) in
      rw (here, own) (absent_or k j (some y.address) xs gone)
  | inr other ↦
      let later : address_of k xs ≡ some a = rw other at e in
      let there = address_of-Apart y k a xs p later in
      rw (there, address_of-unlink k j a xs d later)
        (ground
          (arith, other, bytes_eq_iff y.value.key k, bytes_eq_iff y.value.key j, bytes_eq_iff k j))
]

All-back : (x z : Element) (xs : List Element) → All (Apart x) xs → back xs ≡ some z → Apart x z
unfolding back
All-back x z [] h e = cc
All-back x z (y ∷ []) (p, h) e = subst (Apart x) (some-element e) p
All-back x z (y ∷ w ∷ xs) (p, h) e = All-back x z (w ∷ xs) h e

pub address_of-back :
    (z : Element) (xs : List Element)
    → Distinct xs
    → back xs ≡ some z
    → address_of z.value.key xs ≡ some z.address
unfolding back address_of
address_of-back z [] d e = cc
address_of-back z (y ∷ []) d e =
    subst (λ w. address_of w.value.key (y ∷ []) ≡ some w.address) (some-element e)
      (rw (bytes_eq_refl y.value.key) refl)
address_of-back z (y ∷ w ∷ xs) (p, d) e =
    rw ((All-back y z (w ∷ xs) p e).1) (address_of-back z (w ∷ xs) d e)

pub view-unlink-back :
    (z : Element) (xs : List Element)
    → Distinct xs
    → back xs ≡ some z
    → view (unlink z.address xs) ≡ drop_last (view xs)
unfolding back unlink drop_last
view-unlink-back z [] d e = cc
view-unlink-back z (y ∷ []) d e =
    let own : (y.address == z.address) ≡ true =
      (==_iff y.address z.address).1 (ap (λ x. x.address) (some-element e)) in
    rw own refl
view-unlink-back z (y ∷ w ∷ xs) (p, d) e =
    rw ((All-back y z (w ∷ xs) p e).0) (ap (λ es. y.value ∷ es) (view-unlink-back z (w ∷ xs) d e))

pub back_present : (xs : List Element) → 1 ≤ length xs → (z : Element) × (back xs ≡ some z)
unfolding back
back_present [] h = absurd (omega (arith, h))
back_present (y ∷ []) h = (y, refl)
back_present (y ∷ w ∷ xs) h = back_present (w ∷ xs) (omega arith)
