-- ===== src/Mock/Cache/Invariant.antt =====
-- The invariant of the cache, and the changes that keep it.
use atome_fin_go_sdk.Base.{
  get-remove, get-put, false, subst, [], ◌∷◌, ℕ, suc, ◌≤◌, ◌<◌, ◌≡◌, refl, sym, ap, ◌∙◌, inl, inr,
  none, some, List, ◌==◌, length, if◌then◌else◌, Bytes, bytes_eq, bytes_eq_iff, Bool-cases, All,
  get, arith,
}
use atome_fin_go_sdk.Mock.Cache.{
  back, push, evict, CacheEntry, Element, IdempotencyCache, element_at, unlink,
}
use atome_fin_go_sdk.Mock.Cache.Orders.{
  view-unlink-back, address_of-back, view, drop_last, address_of, Apart, Distinct, Holds,
  length-unlink, unlink-Distinct, address_of-Holds, address_of-unlink,
}

-- The map knows the address of every element and nothing else, no address and no key stands twice,
-- addresses are not used again, and the size is within the capacity.
pub record IsCache (c : IdempotencyCache) : Type 0 where
  pub known : (k : Bytes) → get k c.items ≡ address_of k c.order
  pub distinct : Distinct c.order
  pub fresh : All (λ x. x.address < c.next) c.order
  pub bounded : length c.order ≤ c.cap
  pub positive : 1 ≤ c.cap

module _ (P : Element → Type 0) where
  All-unlink_of : (a : ℕ) (xs : List Element) → All P xs → All P (unlink a xs)
  unfolding unlink
  All-unlink_of a [] h = tt
  All-unlink_of a (x ∷ xs) (p, h) = elim (Bool-cases (x.address == a)) [
    | inl here ↦ rw here h
    | inr there ↦ rw there (p, All-unlink_of a xs h)
  ]

  All-element_at_of :
      (a : ℕ) (x : Element) (xs : List Element) → All P xs → element_at a xs ≡ some x → P x
  unfolding element_at
  All-element_at_of a x [] h e = cc
  All-element_at_of a x (y ∷ xs) (p, h) e = elim (Bool-cases (y.address == a)) [
    | inl here ↦ subst P (some-inj (rw here at e)) p
    | inr there ↦ All-element_at_of a x xs h (rw there at e)
  ]
    where
      some-inj : {y z : Element} → some y ≡ some z → y ≡ z
      some-inj h = cc

-- A list of the same keys and addresses in another order, `x` first.
moved-known :
    (c : IdempotencyCache) (k : Bytes) (a : ℕ) (x y : Element)
    → IsCache c
    → Holds k a c.order x
    → address_of k c.order ≡ some a
    → y.address ≡ a
    → y.value.key ≡ k
    → (j : Bytes) → get j c.items ≡ address_of j (y ∷ unlink a c.order)
unfolding address_of
moved-known c k a x y i h e address key j =
    i.known j
    ∙ rw (key, address, address_of-unlink k j a c.order i.distinct e)
        (elim (Bool-cases (bytes_eq k j)) [
          | inl same ↦
              rw same (subst (λ l. address_of l c.order ≡ some a) ((bytes_eq_iff k j).0 same) e)
          | inr other ↦ rw other refl
        ])

Apart-same :
    (x y : Element)
    → x.address ≡ y.address
    → x.value.key ≡ y.value.key
    → (xs : List Element) → All (Apart x) xs
    → All (Apart y) xs
Apart-same x y p q [] h = tt
Apart-same x y p q (z ∷ xs) ((r, s), h) = (
  (ap (λ b. b == z.address) (sym p) ∙ r, ap (λ k. bytes_eq k z.value.key) (sym q) ∙ s),
  Apart-same x y p q xs h,
)

-- The cache after the element of a key has moved to the front, with a value of that key.
pub moved-IsCache :
    (c : IdempotencyCache) (k : Bytes) (a : ℕ) (x : Element) (e : CacheEntry)
    → IsCache c
    → Holds k a c.order x
    → address_of k c.order ≡ some a
    → e.key ≡ k
    → IsCache
        (record c { order = record { address = x.address; value = e } ∷ unlink x.address c.order })
moved-IsCache c k a x e i h own key = record {
  known = rw (sym h.address) at known;
  distinct = (
    Apart-same x y refl (h.key ∙ sym key) (unlink x.address c.order)
        (subst (λ b. All (Apart x) (unlink b c.order)) (sym h.address) h.apart),
    unlink-Distinct x.address c.order i.distinct,
  );
  fresh = (
    All-element_at_of (λ z. z.address < c.next) a x c.order i.fresh h.at,
    All-unlink_of (λ z. z.address < c.next) x.address c.order i.fresh,
  );
  bounded =
      subst (λ b. suc (length (unlink b c.order)) ≤ c.cap) (sym h.address)
        (omega (arith, length-unlink a x c.order h.at, i.bounded));
  positive = i.positive;
}
  where
    y : Element
    y = record { address = x.address; value = e }

    known : (j : Bytes) → get j c.items ≡ address_of j (y ∷ unlink a c.order)
    known = moved-known c k a x y i h own h.address key

pub length-view : (xs : List Element) → length (view xs) ≡ length xs
length-view [] = refl
length-view (x ∷ xs) = ap suc (length-view xs)

-- There is room for one more entry, of a key that has none.
pub record HasRoom (k : Bytes) (es : List CacheEntry) (c : IdempotencyCache) : Type 0 where
  pub cache : IsCache c
  pub absent : address_of k c.order ≡ none
  pub room : length c.order < c.cap
  pub seen : view c.order ≡ es

absent-unlink :
    (k j : Bytes) (a : ℕ) (xs : List Element)
    → Distinct xs
    → address_of k xs ≡ some a
    → address_of j xs ≡ none
    → address_of j (unlink a xs) ≡ none
absent-unlink k j a xs d e gone =
    address_of-unlink k j a xs d e
    ∙ elim (Bool-cases (bytes_eq k j)) [ inl same ↦ rw same refl | inr other ↦ rw other gone ]

pub evict-HasRoom :
    (k : Bytes) (z : Element) (c : IdempotencyCache)
    → IsCache c
    → address_of k c.order ≡ none
    → back c.order ≡ some z
    → HasRoom k (drop_last (view c.order)) (evict c (some z))
unfolding evict
evict-HasRoom k z c i gone last =
    let own = address_of-back z c.order i.distinct last in
    let (x, h) = address_of-Holds z.value.key z.address c.order i.distinct own in
    let shorter = length-unlink z.address x c.order h.at in
    record {
      cache = record {
        known = λ j.
            get-remove z.value.key j c.items
            ∙ ap (λ o. if bytes_eq z.value.key j then none else o) (i.known j)
            ∙ sym (address_of-unlink z.value.key j z.address c.order i.distinct own);
        distinct = unlink-Distinct z.address c.order i.distinct;
        fresh = All-unlink_of (λ y. y.address < c.next) z.address c.order i.fresh;
        bounded = omega (arith, shorter, i.bounded);
        positive = i.positive;
      };
      absent = absent-unlink z.value.key k z.address c.order i.distinct own gone;
      room = omega (arith, shorter, i.bounded);
      seen = view-unlink-back z c.order i.distinct last;
    }

absent-Apart :
    (k : Bytes) (n : ℕ) (e : CacheEntry) (xs : List Element)
    → e.key ≡ k
    → address_of k xs ≡ none
    → All (λ x. x.address < n) xs
    → All (Apart (record { address = n; value = e })) xs
unfolding address_of
absent-Apart k n e [] key gone fresh = tt
absent-Apart k n e (x ∷ xs) key gone (below, fresh) =
    let other : bytes_eq x.value.key k ≡ false = ground (arith, gone) in
    let later : address_of k xs ≡ none = ground (arith, gone) in
    (
      (
        ground (arith, below),
        rw key (ground (arith, other, bytes_eq_iff x.value.key k, bytes_eq_iff k x.value.key)),
      ),
      absent-Apart k n e xs key later fresh,
    )

fresh-suc :
    (n : ℕ) (xs : List Element) → All (λ x. x.address < n) xs → All (λ x. x.address < suc n) xs
fresh-suc n [] h = tt
fresh-suc n (x ∷ xs) (p, h) = (omega (arith, p), fresh-suc n xs h)

pub push-IsCache :
    (e : CacheEntry) (es : List CacheEntry) (c : IdempotencyCache)
    → HasRoom e.key es c
    → IsCache (push e.key e c)
unfolding push address_of
push-IsCache e es c h =
    let i = h.cache in
    record {
      known = λ j.
          get-put e.key j c.next c.items
          ∙ ap (λ o. if bytes_eq e.key j then some c.next else o) (i.known j);
      distinct = (absent-Apart e.key c.next e c.order refl h.absent i.fresh, i.distinct);
      fresh = (omega arith, fresh-suc c.next c.order i.fresh);
      bounded = omega (arith, h.room);
      positive = i.positive;
    }
