-- ===== src/Tests/Replays.antt =====
-- atomefin/mock/server_options.go: a replay cache of two entries.
use atome_fin_go_sdk.Base.{
  [], ◌∷◌, ◌≤◌, ◌≡◌, refl, some, List, Bytes, codes, length, bytes_eq, arith,
}
use atome_fin_go_sdk.Mock.Cache.{
  CacheEntry, IdempotencyCache, new_idempotency_cache, cache_get, cache_put,
}
use atome_fin_go_sdk.Mock.Cache.Orders.{view}
use atome_fin_go_sdk.Mock.Cache.Refinement.{new-IsCache}
use atome_fin_go_sdk.Mock.Cache.Runs.{Operation, ask, keep, run, run_abstract, run-refines}
use atome_fin_go_sdk.Mock.Cache.Retention.{cache_get-cache_put}

abbrev entry : Bytes → CacheEntry
entry k = record { key = k; status = 200; body = k; headers = [] }

abbrev cache : IdempotencyCache
cache = new_idempotency_cache 2

-- `b` is used last when `c` takes the place of `a`.
abbrev operations : List Operation
operations =
    keep (entry (codes "a"))
    ∷ keep (entry (codes "b"))
    ∷ keep (entry (codes "c"))
    ∷ ask (codes "a")
    ∷ ask (codes "b")
    ∷ []

run-refines_example :
    ((run operations cache).0 ≡ (run_abstract 2 operations []).0)
    × (view (run operations cache).1.order ≡ (run_abstract 2 operations []).1)
    × (length (run operations cache).1.order ≤ 2)
unfolding new_idempotency_cache
run-refines_example = run-refines 2 operations

cache_get-cache_put_example :
    (cache_get
      (codes "a")
      (run (keep (entry (codes "b")) ∷ []) (cache_put (codes "a") (entry (codes "a")) cache)).1).0
    ≡ some (entry (codes "a"))
unfolding bytes_eq new_idempotency_cache
cache_get-cache_put_example =
    cache_get-cache_put cache (entry (codes "a")) (keep (entry (codes "b")) ∷ []) (new-IsCache 2)
      (refl, tt) (omega arith)
