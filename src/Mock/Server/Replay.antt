-- ===== src/Mock/Server/Replay.antt =====
-- A repeated request is answered from the cache.
use atome_fin_go_sdk.Base.{
  ℕ, ◌+◌, ◌<◌, ◌≡◌, refl, sym, ap, ◌∙◌, subst, inr, false, none, some, List, length, Bytes,
  is_empty, arith, codes,
}
use atome_fin_go_sdk.Client.Headers.{header_set}
use atome_fin_go_sdk.Mock.Cache.{CacheEntry, IdempotencyCache, cache_get, cache_put}
use atome_fin_go_sdk.Mock.Cache.Orders.{view}
use atome_fin_go_sdk.Mock.Cache.Invariant.{IsCache}
use atome_fin_go_sdk.Mock.Cache.Refinement.{store, cache_get-refines, cache_put-refines}
use atome_fin_go_sdk.Mock.Cache.Retention.{Among, lookup-Among, store-Among}
use atome_fin_go_sdk.Mock.Server.{
  RecordedRequest, Response, written, Config, Server, spec_validate, idem_key, dispatch,
  scenario_answer, stamp, entry_of, signed_response, record_request, replay, after_lookup,
  with_idempotency, validated, serve, serve_all,
}
use atome_fin_go_sdk.Mock.Server.Keeps.{Keeps, serve_all-Keeps}

module _ (cfg : Config) where
  -- A request whose key is stored is answered with the stored response.
  serve-stored :
      (k : Bytes) (e : CacheEntry) (cap n : ℕ) (r : RecordedRequest) (s : Server)
      → Keeps k e cap n s
      → spec_validate cfg r ≡ none
      → idem_key cfg r ≡ k
      → is_empty k ≡ false
      → (c : IdempotencyCache) × (serve cfg r s ≡ (replay cfg e, record s { idem = some c }))
  unfolding serve validated with_idempotency after_lookup
  serve-stored k e cap n r s h ok key named =
      let found : (cache_get k h.cache).0 ≡ some e =
        (cache_get-refines h.cache h.sound k).0 ∙ lookup-Among k e n (view h.cache.order) h.among in
      (
        (cache_get k h.cache).1,
        rw ok (
            subst
              (λ o.
                with_idempotency cfg r s o
                ≡ (replay cfg e, record s { idem = some (cache_get k h.cache).1 }))
              (sym h.present) (rw (key, named, found) refl)),
      )

  -- A request whose key is not stored goes to the scenario, and its response is stored.
  serve-missed :
      (k : Bytes) (resp : Response) (r : RecordedRequest) (s : Server) (c : IdempotencyCache)
      → s.idem ≡ some c
      → spec_validate cfg r ≡ none
      → idem_key cfg r ≡ k
      → is_empty k ≡ false
      → (cache_get k c).0 ≡ none
      → cfg.respond s.requests r ≡ inr resp
      → serve cfg r s ≡ (
        written (signed_response cfg resp) cfg.fires_callbacks,
        record (record_request cfg r s) {
          idem = some (cache_put k (entry_of cfg k (signed_response cfg resp)) (cache_get k c).1);
        },
      )
  unfolding serve validated with_idempotency after_lookup dispatch scenario_answer record_request
      stamp entry_of
  serve-missed k resp r s c present ok key named missed answered =
      rw ok (
        ap (with_idempotency cfg r s) present ∙ rw (key, named, missed) (rw (answered, named) refl))

  -- Then its entry is in front.
  stored-Keeps :
      (k : Bytes) (f : CacheEntry) (s : Server) (c : IdempotencyCache)
      → IsCache c
      → f.key ≡ k
      → s.idem ≡ some (cache_put f.key f (cache_get k c).1)
      → Keeps k f c.cap 1 s
  stored-Keeps k f s c i key present =
      let (answer, seen, sound, same_cap) = cache_get-refines c i k in
      let (stored, kept, cap_kept) = cache_put-refines (cache_get k c).1 sound f in
      record {
        cache = cache_put f.key f (cache_get k c).1;
        present = present;
        sound = kept;
        size = cap_kept ∙ same_cap;
        among =
            subst (λ es. Among k f 1 es) (sym stored)
              (subst
                (λ j. Among j f 1 (store (cache_get k c).1.cap f (view (cache_get k c).1.order)))
                key (store-Among f (cache_get k c).1.cap (view (cache_get k c).1.order)));
      }

  -- Take a server whose replay cache keeps its invariant and does not hold the key of a request that
  -- passes the specification check, has a key, and is answered by the scenario. Then the request
  -- gets the scenario's response, and after any further requests, fewer than the capacity of the
  -- cache, every request with the same key that passes the check gets the same status, body and
  -- headers with the header X-Mock-Replay, and is neither recorded nor counted.
  pub serve-replayed :
      (resp : Response) (r : RecordedRequest) (s : Server) (c : IdempotencyCache)
      (rs : List RecordedRequest) (again : RecordedRequest)
      → s.idem ≡ some c
      → IsCache c
      → spec_validate cfg r ≡ none
      → is_empty (idem_key cfg r) ≡ false
      → (cache_get (idem_key cfg r) c).0 ≡ none
      → cfg.respond s.requests r ≡ inr resp
      → length rs < c.cap
      → spec_validate cfg again ≡ none
      → idem_key cfg again ≡ idem_key cfg r
      → ((serve cfg r s).0 ≡ written (signed_response cfg resp) cfg.fires_callbacks)
        × ((serve cfg again (serve_all cfg rs (serve cfg r s).1)).0
            ≡ written
                (record {
                  status = (signed_response cfg resp).status;
                  headers =
                      header_set
                        (codes "X-Mock-Replay")
                        (codes "1")
                        (signed_response cfg resp).headers;
                  body = (signed_response cfg resp).body;
                })
                false)
        × ((serve cfg again (serve_all cfg rs (serve cfg r s).1)).1.requests
            ≡ (serve_all cfg rs (serve cfg r s).1).requests)
        × ((serve cfg again (serve_all cfg rs (serve cfg r s).1)).1.hits
            ≡ (serve_all cfg rs (serve cfg r s).1).hits)
  unfolding entry_of replay
  serve-replayed resp r s c rs again present i ok named missed answered few ok_again same_key =
      let k = idem_key cfg r in
      let f = entry_of cfg k (signed_response cfg resp) in
      let first = serve-missed k resp r s c present ok refl named missed answered in
      let kept = stored-Keeps k f (serve cfg r s).1 c i refl (ap (λ p. p.1.idem) first) in
      let held = serve_all-Keeps cfg k f c.cap 1 rs (serve cfg r s).1 (omega (arith, few)) kept in
      let (d, replayed) =
        serve-stored k f c.cap (1 + length rs) again (serve_all cfg rs (serve cfg r s).1) held
          ok_again same_key named in
      (
        ap (λ p. p.0) first,
        ap (λ p. p.0) replayed,
        ap (λ p. p.1.requests) replayed,
        ap (λ p. p.1.hits) replayed,
      )
