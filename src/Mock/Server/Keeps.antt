-- ===== src/Mock/Server/Keeps.antt =====
-- What a sequence of requests leaves of an entry in the replay cache.
use atome_fin_go_sdk.Base.{
  [], ◌∷◌, ℕ, suc, ◌+◌, ◌≤◌, ◌<◌, ◌≡◌, refl, sym, ap, ◌∙◌, subst, inl, inr, ◌⊎◌, false, Option,
  none, some, List, length, Bytes, bytes_eq, bytes_eq_iff, is_empty, Bool-cases, Option-cases,
  arith,
}
use atome_fin_go_sdk.Errors.{Cause}
use atome_fin_go_sdk.Mock.Cache.{CacheEntry, IdempotencyCache, cache_get, cache_put}
use atome_fin_go_sdk.Mock.Cache.Orders.{view, lookup}
use atome_fin_go_sdk.Mock.Cache.Invariant.{IsCache}
use atome_fin_go_sdk.Mock.Cache.Refinement.{in_front, store, cache_get-refines, cache_put-refines}
use atome_fin_go_sdk.Mock.Cache.Runs.{ask, keep, apply_abstract}
use atome_fin_go_sdk.Mock.Cache.Retention.{Among, Among-suc, lookup-Among, apply-Among}
use atome_fin_go_sdk.Mock.Server.{
  RecordedRequest, Response, Config, Server, spec_validate, idem_key, dispatch, scenario_answer,
  stamp, entry_of, signed_response, record_request, after_lookup, with_idempotency, validated,
  serve, serve_all,
}

-- The entry of the key is among the first `n` of the server's cache.
pub record Keeps (k : Bytes) (e : CacheEntry) (cap n : ℕ) (s : Server) : Type 0 where
  pub cache : IdempotencyCache
  pub present : s.idem ≡ some cache
  pub sound : IsCache cache
  pub size : cache.cap ≡ cap
  pub among : Among k e n (view cache.order)

Keeps-suc :
    (k : Bytes) (e : CacheEntry) (cap n : ℕ) (s t : Server)
    → Keeps k e cap n s
    → t.idem ≡ s.idem
    → Keeps k e cap (suc n) t
Keeps-suc k e cap n s t h same = record {
  cache = h.cache;
  present = same ∙ h.present;
  sound = h.sound;
  size = h.size;
  among = Among-suc k e n (view h.cache.order) h.among;
}

none-ne-some : {f : CacheEntry} → none ≡ some f → ⊥
none-ne-some h = cc

module _ (cfg : Config) where
  -- A dispatch leaves the cache alone, or stores a response under the key.
  dispatch_idem :
      (key : Bytes) (r : RecordedRequest) (s : Server)
      → ((dispatch cfg key r s).1.idem ≡ s.idem)
        ⊎ ((resp : Response) × ((dispatch cfg key r s).1.idem ≡ stamp cfg key resp s.idem))
  unfolding dispatch record_request
  dispatch_idem key r s = answered (cfg.respond s.requests r)
    where
      answered :
          (x : Cause ⊎ Response)
          → ((scenario_answer cfg key (record_request cfg r s) x).1.idem ≡ s.idem)
            ⊎ ((resp : Response) × ((scenario_answer cfg key (record_request cfg r s) x).1.idem
                  ≡ stamp cfg key resp s.idem))
      answered (inl e) = inl refl
      answered (inr resp) = inr (signed_response cfg resp, refl)

  module _ (k : Bytes) (e : CacheEntry) (cap n : ℕ) (below : n < cap) where
    -- A dispatch without a key leaves the cache alone.
    plain-Keeps :
        (r : RecordedRequest) (s : Server)
        → Keeps k e cap n s
        → Keeps k e cap (suc n) (dispatch cfg [] r s).1
    unfolding stamp
    plain-Keeps r s h =
        Keeps-suc k e cap n s (dispatch cfg [] r s).1 h (elim (dispatch_idem [] r s) [
          | inl same ↦ same
          | inr (resp, stored) ↦ stored ∙ rw h.present refl
        ])

    -- The cache after a lookup.
    looked-Keeps :
        (j : Bytes) (c : IdempotencyCache) (s : Server)
        → IsCache c
        → c.cap ≡ cap
        → Among k e n (view c.order)
        → s.idem ≡ some (cache_get j c).1
        → Keeps k e cap (suc n) s
    unfolding apply_abstract
    looked-Keeps j c s i size among present =
        let (answer, seen, sound, same_cap) = cache_get-refines c i j in
        record {
          cache = (cache_get j c).1;
          present = present;
          sound = sound;
          size = same_cap ∙ size;
          among =
              subst (Among k e (suc n)) (sym seen)
                (apply-Among k e cap n (ask j) (view c.order) tt below among);
        }

    -- A key that is not found is not `k`, and what is stored under it leaves the entry of `k`.
    missed-Keeps :
        (j : Bytes) (c : IdempotencyCache) (f : CacheEntry) (s : Server)
        → IsCache c
        → c.cap ≡ cap
        → Among k e n (view c.order)
        → (cache_get j c).0 ≡ none
        → f.key ≡ j
        → s.idem ≡ some (cache_put f.key f (cache_get j c).1)
        → Keeps k e cap (suc n) s
    unfolding apply_abstract in_front
    missed-Keeps j c f s i size among missed key present =
        let (answer, seen, sound, same_cap) = cache_get-refines c i j in
        let missing : lookup j (view c.order) ≡ none = sym answer ∙ missed in
        let same : view (cache_get j c).1.order ≡ view c.order = seen ∙ rw missing refl in
        let (stored, kept, cap_kept) = cache_put-refines (cache_get j c).1 sound f in
        let other : bytes_eq f.key k ≡ false = elim (Bool-cases (bytes_eq f.key k)) [
          | inr apart ↦ apart
          | inl equal ↦
              let asked : k ≡ j = sym ((bytes_eq_iff f.key k).0 equal) ∙ key in
              absurd (
                none-ne-some (
                  sym missing
                  ∙ ap (λ i. lookup i (view c.order)) (sym asked)
                  ∙ lookup-Among k e n (view c.order) among))
        ] in
        let moved =
          ap (λ size. store size f (view (cache_get j c).1.order)) (same_cap ∙ size)
          ∙ ap (store cap f) same in
        record {
          cache = cache_put f.key f (cache_get j c).1;
          present = present;
          sound = kept;
          size = cap_kept ∙ same_cap ∙ size;
          among =
              subst (Among k e (suc n)) (sym (stored ∙ moved))
                (apply-Among k e cap n (keep f) (view c.order) other below among);
        }

    searched-Keeps :
        (r : RecordedRequest) (j : Bytes) (c : IdempotencyCache) (s : Server)
        → is_empty j ≡ false
        → IsCache c
        → c.cap ≡ cap
        → Among k e n (view c.order)
        → (o : Option CacheEntry) → (cache_get j c).0 ≡ o
        → Keeps k e cap (suc n) (after_lookup cfg j r s o (cache_get j c).1).1
    unfolding after_lookup stamp entry_of
    searched-Keeps r j c s named i size among (some f) found =
        looked-Keeps j c (record s { idem = some (cache_get j c).1 }) i size among refl
    searched-Keeps r j c s named i size among none found =
        let t = record s { idem = some (cache_get j c).1 } in
        elim (dispatch_idem j r t) [
          | inl same ↦ looked-Keeps j c (dispatch cfg j r t).1 i size among same
          | inr (resp, stored) ↦
              missed-Keeps j c (entry_of cfg j resp) (dispatch cfg j r t).1 i size among found refl
                (stored ∙ rw named refl)
        ]

    keyed-Keeps :
        (r : RecordedRequest) (s : Server)
        → (h : Keeps k e cap n s)
        → Keeps k e cap (suc n) (with_idempotency cfg r s (some h.cache)).1
    unfolding with_idempotency
    keyed-Keeps r s h = elim (Bool-cases (is_empty (idem_key cfg r))) [
      | inl no_key ↦ rw no_key (plain-Keeps r s h)
      | inr named ↦
          rw named (searched-Keeps r (idem_key cfg r) h.cache s named h.sound h.size h.among _ refl)
    ]

    -- One request moves the entry back by at most one place.
    serve-Keeps :
        (r : RecordedRequest) (s : Server)
        → Keeps k e cap n s
        → Keeps k e cap (suc n) (serve cfg r s).1
    unfolding serve validated
    serve-Keeps r s h = elim (Option-cases (spec_validate cfg r)) [
      | inr (bad, refusal) ↦ rw refusal (Keeps-suc k e cap n s s h refl)
      | inl ok ↦ rw ok (
          subst (λ o. Keeps k e cap (suc n) (with_idempotency cfg r s o).1) (sym h.present)
            (keyed-Keeps r s h))
    ]

  pub serve_all-Keeps :
      (k : Bytes) (e : CacheEntry) (cap n : ℕ) (rs : List RecordedRequest) (s : Server)
      → n + length rs ≤ cap
      → Keeps k e cap n s
      → Keeps k e cap (n + length rs) (serve_all cfg rs s)
  unfolding serve_all
  serve_all-Keeps k e cap n [] s few h = let same : n + 0 ≡ n = omega arith in rw same h
  serve_all-Keeps k e cap n (r ∷ rs) s few h =
      let shift : n + suc (length rs) ≡ suc n + length rs = omega arith in
      rw shift (
        serve_all-Keeps k e cap (suc n) rs (serve cfg r s).1 (omega (arith, few))
          (serve-Keeps k e cap n (omega (arith, few)) r s h))
