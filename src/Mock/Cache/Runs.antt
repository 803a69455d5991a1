-- ===== src/Mock/Cache/Runs.antt =====
-- Sequences of operations on the cache.
use atome_fin_go_sdk.Base.{
  subst, [], ◌∷◌, ℕ, ◌≤◌, ◌≡◌, refl, ap, ◌∙◌, Option, none, List, length, Bytes,
}
use atome_fin_go_sdk.Mock.Cache.{
  CacheEntry, IdempotencyCache, new_idempotency_cache, cache_get, cache_put, cache_reset,
}
use atome_fin_go_sdk.Mock.Cache.Orders.{view, lookup}
use atome_fin_go_sdk.Mock.Cache.Invariant.{IsCache}
use atome_fin_go_sdk.Mock.Cache.Refinement.{
  touch, store, cache_get-refines, cache_put-refines, new-IsCache, reset-IsCache,
}

-- A Put is made under the key of its entry, as serveHTTP does.
pub data Operation : Type 0 where
  ask : Bytes → Operation
  keep : CacheEntry → Operation
  clear : Operation

unfoldable pub apply : Operation → IdempotencyCache → Option CacheEntry × IdempotencyCache
apply (ask k) c = cache_get k c
apply (keep e) c = (none, cache_put e.key e c)
apply clear c = (none, cache_reset c)

-- The answers of a sequence of operations, and the cache after it.
unfoldable pub run : List Operation → IdempotencyCache → List (Option CacheEntry) × IdempotencyCache
run [] c = ([], c)
run (o ∷ os) c = let step = apply o c in let rest = run os step.1 in (step.0 ∷ rest.0, rest.1)

-- The same on the abstract cache.
unfoldable pub apply_abstract :
    ℕ → Operation → List CacheEntry → Option CacheEntry × List CacheEntry
apply_abstract cap (ask k) es = (lookup k es, touch k es)
apply_abstract cap (keep e) es = (none, store cap e es)
apply_abstract cap clear es = (none, [])

unfoldable pub run_abstract :
    ℕ → List Operation → List CacheEntry → List (Option CacheEntry) × List CacheEntry
run_abstract cap [] es = ([], es)
run_abstract cap (o ∷ os) es =
    let step = apply_abstract cap o es in
    let rest = run_abstract cap os step.1 in (step.0 ∷ rest.0, rest.1)

-- What one operation does is what it does to the abstract cache.
pub record Implements (cap : ℕ) (r : Option CacheEntry × IdempotencyCache)
    (s : Option CacheEntry × List CacheEntry) : Type 0 where
  pub output : r.0 ≡ s.0
  pub seen : view r.1.order ≡ s.1
  pub cache : IsCache r.1
  pub same_cap : r.1.cap ≡ cap

apply-Implements :
    (o : Operation) (c : IdempotencyCache)
    → IsCache c
    → Implements c.cap (apply o c) (apply_abstract c.cap o (view c.order))
unfolding apply apply_abstract cache_reset
apply-Implements (ask k) c i =
    let (output, seen, cache, same_cap) = cache_get-refines c i k in
    record { output = output; seen = seen; cache = cache; same_cap = same_cap }
apply-Implements (keep e) c i =
    let (seen, cache, same_cap) = cache_put-refines c i e in
    record { output = refl; seen = seen; cache = cache; same_cap = same_cap }
apply-Implements clear c i = record {
  output = refl;
  seen = refl;
  cache = reset-IsCache c i;
  same_cap = refl;
}

pub run-Implements :
    (os : List Operation) (c : IdempotencyCache) (cap : ℕ) (es : List CacheEntry)
    → IsCache c
    → c.cap ≡ cap
    → view c.order ≡ es
    → ((run os c).0 ≡ (run_abstract cap os es).0)
      × (view (run os c).1.order ≡ (run_abstract cap os es).1)
      × IsCache (run os c).1
      × ((run os c).1.cap ≡ cap)
unfolding run run_abstract
run-Implements [] c cap es i p q = (refl, q, i, p)
run-Implements (o ∷ os) c cap es i p q =
    let h = apply-Implements o c i in
    let abstract_step : apply_abstract c.cap o (view c.order) ≡ apply_abstract cap o es =
      rw (p, q) refl in
    let (answers, seen, cache, same_cap) =
      run-Implements os (apply o c).1 cap (apply_abstract cap o es).1 h.cache (h.same_cap ∙ p)
        (h.seen ∙ ap (λ r. r.1) abstract_step) in
    (rw (h.output ∙ ap (λ r. r.0) abstract_step, answers) refl, seen, cache, same_cap)

-- For every sequence of Gets, Puts (each under the key of its entry) and Resets on a new cache, the
-- answers are those of a list that keeps the entries in the order of their last use, at most as many
-- as the capacity (1024 where the given one is not positive), and drops the last one for a new key
-- when it is full.
pub run-refines :
    (capacity : ℕ) (os : List Operation)
    → let c = new_idempotency_cache capacity in
      ((run os c).0 ≡ (run_abstract c.cap os []).0)
      × (view (run os c).1.order ≡ (run_abstract c.cap os []).1)
      × (length (run os c).1.order ≤ c.cap)
unfolding new_idempotency_cache
run-refines capacity os =
    let (answers, seen, cache, same_cap) =
      run-Implements os (new_idempotency_cache capacity) (new_idempotency_cache capacity).cap []
        (new-IsCache capacity) refl refl in
    (
      answers,
      seen,
      subst (λ n. length (run os (new_idempotency_cache capacity)).1.order ≤ n) same_cap
          cache.bounded,
    )
