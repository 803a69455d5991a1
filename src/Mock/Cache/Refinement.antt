-- ===== src/Mock/Cache/Refinement.antt =====
-- The cache implements a list of entries that is ordered by their last use.
use atome_fin_go_sdk.Base.{
  ◌∷◌, ℕ, ◌≡◌, refl, ap, ◌∙◌, inl, inr, Option, none, some, List, leb, length, if◌then◌else◌, Bytes,
  Bool-cases, Option-cases, get, arith,
}
use atome_fin_go_sdk.Mock.Cache.{
  overwrite, put_at, push, insert, cache_reset, new_idempotency_cache, cache_put, evict, CacheEntry,
  IdempotencyCache, unlink, found, with_address, cache_get, move_to_front,
}
use atome_fin_go_sdk.Mock.Cache.Orders.{
  back_present, view, lookup, without, drop_last, address_of, address_of-Holds, view-unlink,
  lookup-absent,
}
use atome_fin_go_sdk.Mock.Cache.Invariant.{
  IsCache, moved-IsCache, HasRoom, evict-HasRoom, push-IsCache, length-view,
}

-- The abstract cache: the entries alone, the last used first.
unfoldable pub in_front : Bytes → List CacheEntry → Option CacheEntry → List CacheEntry
in_front k es none = es
in_front k es (some e) = e ∷ without k es

abbrev pub touch : Bytes → List CacheEntry → List CacheEntry
touch k es = in_front k es (lookup k es)

abbrev pub make_room : ℕ → List CacheEntry → List CacheEntry
make_room cap es = if leb cap (length es) then drop_last es else es

unfoldable pub stored : ℕ → CacheEntry → List CacheEntry → Option CacheEntry → List CacheEntry
stored cap e es none = e ∷ make_room cap es
stored cap e es (some old) = e ∷ without e.key es

abbrev pub store : ℕ → CacheEntry → List CacheEntry → List CacheEntry
store cap e es = stored cap e es (lookup e.key es)

module _ (c : IdempotencyCache) (i : IsCache c) where
  -- A Get answers with the entry of the key and moves it to the front.
  pub cache_get-refines :
      (k : Bytes)
      → ((cache_get k c).0 ≡ lookup k (view c.order))
        × (view (cache_get k c).1.order ≡ touch k (view c.order))
        × IsCache (cache_get k c).1
        × ((cache_get k c).1.cap ≡ c.cap)
  unfolding cache_get with_address found move_to_front in_front
  cache_get-refines k = elim (Option-cases (address_of k c.order)) [
    | inl e ↦
        let missing = lookup-absent k c.order e in rw (i.known k, e, missing) (refl, refl, i, refl)
    | inr (a, e) ↦
        let (x, h) = address_of-Holds k a c.order i.distinct e in
        let out : view (unlink x.address c.order) ≡ without k (view c.order) =
          ap (λ b. view (unlink b c.order)) h.address ∙ view-unlink k a c.order i.distinct e in
        rw (i.known k, e, h.at, h.entry)
          (refl, ap (λ es. x.value ∷ es) out, moved-IsCache c k a x x.value i h e h.key, refl)
  ]

module _ (c : IdempotencyCache) (i : IsCache c) (e : CacheEntry) where
  insert-refines :
      address_of e.key c.order ≡ none
      → (view (insert e.key e c).order ≡ e ∷ make_room c.cap (view c.order))
        × IsCache (insert e.key e c)
        × ((insert e.key e c).cap ≡ c.cap)
  unfolding insert push evict
  insert-refines gone = elim (Bool-cases (leb c.cap (length c.order))) [
    | inl full ↦
        let (z, last) = back_present c.order (ground (arith, full, i.positive)) in
        let h = evict-HasRoom e.key z c i gone last in
        rw (length-view c.order, full, last)
          (ap (λ es. e ∷ es) h.seen, push-IsCache e _ (evict c (some z)) h, refl)
    | inr free ↦
        let h : HasRoom e.key (view c.order) c = record {
          cache = i;
          absent = gone;
          room = ground (arith, free);
          seen = refl;
        } in
        rw (length-view c.order, free) (refl, push-IsCache e (view c.order) c h, refl)
  ]

  -- A Put under the entry's key brings the entry to the front, in place of the one of its key, or of
  -- the last where there is none and the cache is full.
  pub cache_put-refines :
      (view (cache_put e.key e c).order ≡ store c.cap e (view c.order))
      × IsCache (cache_put e.key e c)
      × ((cache_put e.key e c).cap ≡ c.cap)
  unfolding cache_put put_at overwrite move_to_front stored
  cache_put-refines = elim (Option-cases (address_of e.key c.order)) [
    | inl gone ↦ rw (i.known e.key, gone, lookup-absent e.key c.order gone) (insert-refines gone)
    | inr (a, own) ↦
        let (x, h) = address_of-Holds e.key a c.order i.distinct own in
        let out : view (unlink x.address c.order) ≡ without e.key (view c.order) =
          ap (λ b. view (unlink b c.order)) h.address
          ∙ view-unlink e.key a c.order i.distinct own in
        rw (i.known e.key, own, h.at, h.entry)
          (ap (λ es. e ∷ es) out, moved-IsCache c e.key a x e i h own refl, refl)
  ]

pub new-IsCache : (capacity : ℕ) → IsCache (new_idempotency_cache capacity)
unfolding new_idempotency_cache get address_of
new-IsCache capacity = record {
  known = λ k. refl;
  distinct = tt;
  fresh = tt;
  bounded = omega arith;
  positive = ground arith;
}

pub reset-IsCache : (c : IdempotencyCache) → IsCache c → IsCache (cache_reset c)
unfolding cache_reset get address_of
reset-IsCache c i = record {
  known = λ k. refl;
  distinct = tt;
  fresh = tt;
  bounded = omega arith;
  positive = i.positive;
}
