-- ===== src/Mock/Cache/Retention.antt =====
-- How long an entry is answered.
use atome_fin_go_sdk.Base.{
  ◌+◌, bytes_eq_refl, sym, All, leb, leb, Option-cases, ◌<◌, subst, [], ◌∷◌, ℕ, zero, suc, ◌≤◌, ◌≡◌,
  refl, ap, ◌∙◌, inl, inr, false, some, List, length, take, Bytes, bytes_eq, bytes_eq_iff,
  Bool-cases, arith,
}
use atome_fin_go_sdk.Mock.Cache.{CacheEntry, IdempotencyCache, cache_get, cache_put}
use atome_fin_go_sdk.Mock.Cache.Orders.{drop_last, view, lookup, without}
use atome_fin_go_sdk.Mock.Cache.Invariant.{IsCache}
use atome_fin_go_sdk.Mock.Cache.Refinement.{
  stored, in_front, store, cache_get-refines, cache_put-refines,
}
use atome_fin_go_sdk.Mock.Cache.Runs.{
  Operation, ask, keep, clear, apply_abstract, run, run_abstract, run-Implements,
}

-- An operation that neither clears the cache nor stores under the key.
abbrev pub Quiet : Bytes → Operation → Type 0
Quiet k (ask j) = Unit
Quiet k (keep e) = bytes_eq e.key k ≡ false
Quiet k clear = ⊥

-- The entry of the key is among the first `n`.
abbrev pub Among : Bytes → CacheEntry → ℕ → List CacheEntry → Type 0
Among k e n es = lookup k (take n es) ≡ some e

pub Among-suc :
    (k : Bytes) (e : CacheEntry) (n : ℕ) (es : List CacheEntry)
    → Among k e n es
    → Among k e (suc n) es
unfolding lookup
Among-suc k e zero es h = cc
Among-suc k e (suc n) [] h = cc
Among-suc k e (suc n) (f ∷ es) h = ground (arith, h, Among-suc k e n es)

pub lookup-Among :
    (k : Bytes) (e : CacheEntry) (n : ℕ) (es : List CacheEntry)
    → Among k e n es
    → lookup k es ≡ some e
unfolding lookup
lookup-Among k e zero es h = cc
lookup-Among k e (suc n) [] h = cc
lookup-Among k e (suc n) (f ∷ es) h = ground (arith, h, lookup-Among k e n es)

without-Among :
    (k j : Bytes) (e : CacheEntry) (n : ℕ) (es : List CacheEntry)
    → bytes_eq j k ≡ false
    → Among k e n es
    → Among k e n (without j es)
unfolding lookup without
without-Among k j e zero es apart h = cc
without-Among k j e (suc n) [] apart h = cc
without-Among k j e (suc n) (f ∷ es) apart h = elim (Bool-cases (bytes_eq f.key j)) [
  | inl same ↦
      let other : bytes_eq f.key k ≡ false = ground (arith, same, apart, bytes_eq_iff f.key j) in
      rw same (Among-suc k e n es (rw other at h))
  | inr other ↦ rw other (elim (Bool-cases (bytes_eq f.key k)) [
    | inl here ↦ rw here (rw here at h)
    | inr there ↦ rw there (without-Among k j e n es apart (rw there at h))
  ])
]

lookup-key : (j : Bytes) (f : CacheEntry) (es : List CacheEntry) → lookup j es ≡ some f → f.key ≡ j
unfolding lookup
lookup-key j f [] h = cc
lookup-key j f (g ∷ es) h = elim (Bool-cases (bytes_eq g.key j)) [
  | inl same ↦
      let here : some g ≡ some f = rw same at h in
      subst (λ x. x.key ≡ j) (entry-of_some here) ((bytes_eq_iff g.key j).0 same)
  | inr other ↦ lookup-key j f es (rw other at h)
]
  where
    entry-of_some : {a b : CacheEntry} → some a ≡ some b → a ≡ b
    entry-of_some p = cc

take-drop_last : (n : ℕ) (es : List CacheEntry) → n < length es → take n (drop_last es) ≡ take n es
unfolding drop_last
take-drop_last zero es h = refl
take-drop_last (suc n) [] h = refl
take-drop_last (suc n) (f ∷ []) h = absurd (omega (arith, h))
take-drop_last (suc n) (f ∷ g ∷ es) h = ap (λ fs. f ∷ fs) (take-drop_last n (g ∷ es) (omega arith))

-- One quiet operation moves the entry back by at most one place, while the capacity allows it.
pub apply-Among :
    (k : Bytes) (e : CacheEntry) (cap n : ℕ) (o : Operation) (es : List CacheEntry)
    → Quiet k o
    → n < cap
    → Among k e n es
    → Among k e (suc n) (apply_abstract cap o es).1
unfolding apply_abstract in_front stored lookup
apply-Among k e cap n (ask j) es quiet below h = elim (Option-cases (lookup j es)) [
  | inl missing ↦ rw missing (Among-suc k e n es h)
  | inr (f, present) ↦ rw present (elim (Bool-cases (bytes_eq f.key k)) [
    | inl same ↦
        let asked : j ≡ k = sym (lookup-key j f es present) ∙ (bytes_eq_iff f.key k).0 same in
        rw same (sym present ∙ ap (λ i. lookup i es) asked ∙ lookup-Among k e n es h)
    | inr other ↦
        let apart = ap (λ i. bytes_eq i k) (sym (lookup-key j f es present)) ∙ other in
        rw other (without-Among k j e n es apart h)
  ])
]
apply-Among k e cap n (keep f) es quiet below h = elim (Option-cases (lookup f.key es)) [
  | inr (g, present) ↦ rw (present, quiet) (without-Among k f.key e n es quiet h)
  | inl missing ↦
      rw (missing, quiet)
        (elim (Bool-cases (leb cap (length es))) [
          | inl full ↦ rw (full, take-drop_last n es (ground (arith, full, below))) h
          | inr free ↦ rw free h
        ])
]
apply-Among k e cap n clear es quiet below h = absurd quiet

run-Among :
    (k : Bytes) (e : CacheEntry) (cap n : ℕ) (os : List Operation) (es : List CacheEntry)
    → All (Quiet k) os
    → n + length os ≤ cap
    → Among k e n es
    → Among k e (n + length os) (run_abstract cap os es).1
unfolding run_abstract
run-Among k e cap n [] es quiet below h = let same : n + 0 ≡ n = omega arith in rw same h
run-Among k e cap n (o ∷ os) es (q, quiet) below h =
    let shift : n + suc (length os) ≡ suc n + length os = omega arith in
    let later = apply-Among k e cap n o es q (omega (arith, below)) h in
    rw shift
      (run-Among k e cap (suc n) os (apply_abstract cap o es).1 quiet (omega (arith, below)) later)

-- What is stored is the first entry.
pub store-Among :
    (e : CacheEntry) (cap : ℕ) (es : List CacheEntry) → Among e.key e 1 (store cap e es)
unfolding stored lookup
store-Among e cap es = elim (Option-cases (lookup e.key es)) [
  | inl missing ↦ rw (missing, bytes_eq_refl e.key) refl
  | inr (f, present) ↦ rw (present, bytes_eq_refl e.key) refl
]

-- On a cache that keeps its invariant, an entry that is stored is answered to a Get of its key after
-- any further operations, fewer than the capacity, none of which clears the cache or stores under
-- that key.
pub cache_get-cache_put :
    (c : IdempotencyCache) (e : CacheEntry) (os : List Operation)
    → IsCache c
    → All (Quiet e.key) os
    → length os < c.cap
    → (cache_get e.key (run os (cache_put e.key e c)).1).0 ≡ some e
cache_get-cache_put c e os i quiet few =
    let (seen, cache, same_cap) = cache_put-refines c i e in
    let (answers, later, ok, capped) =
      run-Implements os (cache_put e.key e c) c.cap (store c.cap e (view c.order)) cache same_cap
        seen in
    let among =
      run-Among e.key e c.cap 1 os (store c.cap e (view c.order)) quiet (omega (arith, few))
        (store-Among e c.cap (view c.order)) in
    (cache_get-refines (run os (cache_put e.key e c)).1 ok e.key).0
    ∙ ap (lookup e.key) later
    ∙ lookup-Among e.key e (1 + length os) _ among
