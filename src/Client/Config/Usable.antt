-- ===== src/Client/Config/Usable.antt =====
-- Which clients New returns.
use atome_fin_go_sdk.Base.{
  ℕ, true, false, ◌≡◌, ◌≢◌, refl, sym, subst, Bool-cases, Option, none, some, List, [], ◌∷◌, ◌⊎◌,
  inl, inr, Bytes, String, codes, bytes_eq, is_empty, lt64,
}
use atome_fin_go_sdk.Payment.SubOrders.Rules.{is_empty_iff}
use atome_fin_go_sdk.Transport.Retry.{validate}
use atome_fin_go_sdk.Transport.UserAgent.{Runtime}
use atome_fin_go_sdk.Client.Config.{
  Platform, SetupError, Signer, Config, policy_of, default_policy, default_config, environment_url,
}
use atome_fin_go_sdk.Client.Config.Build.{
  ClientOption, run_options, ConfiguredClient, final_policy, final_client, located, keyed_signer,
  with_signer_set, finalize_config, finalized, new_client,
}
use atome_fin_go_sdk.Client.Config.Sound
use atome_fin_go_sdk.Client.Config.Applied.{run_options-Ok}

module _ (P : Platform) where
  open P use {jitter, keys}

  default_policy-valid :
      (ratio : jitter.Ratio)
      → jitter.in_range ratio ≡ true
      → validate jitter (policy_of P (default_policy P ratio)) ≡ none
  unfolding validate policy_of default_policy
  default_policy-valid ratio h = rw h refl

  default_config-IsSound :
      (ratio : jitter.Ratio)
      → jitter.in_range ratio ≡ true
      → Sound.IsSound P (default_config P ratio)
  unfolding default_config
  default_config-IsSound ratio h = (
    default_policy-valid ratio h,
    refl,
    refl,
    inl refl,
    (λ k e. absurd (none-ne e)),
    (λ k e. absurd (none-ne e)),
    (λ k e. absurd (none-ne e)),
  )
    where
      none-ne : {K : Type 0} {k : K} → none ≡ some k → ⊥
      none-ne e = cc

  -- The base URL of an environment, or one that the caller gave.
  abbrev pub IsBase : Bytes → Type 0
  IsBase u = (u ≢ []) × (((env : Bytes) × (environment_url env ≡ some u)) ⊎ Sound.IsGiven P u)

  pub record IsUsable (k : ConfiguredClient P) : Type 0 where
    pub retry_valid : validate jitter k.retry ≡ none
    pub timeout_positive : lt64 0 k.config.timeout ≡ true
    pub limit_positive : lt64 0 k.config.max_resp_bytes ≡ true
    pub base : IsBase k.base_url
    pub verifier_long : Sound.Long P keys.public_bits k.config.verifier
    pub encrypt_pub_long : Sound.Long P keys.public_bits k.config.encrypt_atome_pub
    pub encrypt_priv_long : Sound.Long P keys.private_bits k.config.encrypt_priv

  not_empty : (env u : Bytes) → environment_url env ≡ some u → u ≢ []
  unfolding environment_url
  not_empty env u h = elim (Bool-cases (bytes_eq env (codes "pre"))) [
    | inl p ↦ (λ e. absurd (filled (sym (rw (p, e) at h))))
    | inr p ↦ elim (Bool-cases (bytes_eq env (codes "prod"))) [
      | inl q ↦ (λ e. absurd (filled (sym (rw (p, q, e) at h))))
      | inr q ↦ absurd (none-ne (rw (p, q) at h))
    ]
  ]
    where
      filled : {x : ℕ} {xs : Bytes} → ◌≡◌ {A = Option Bytes} (some []) (some (x ∷ xs)) → ⊥
      filled e = cc

      none-ne : ◌≡◌ {A = Option Bytes} none (some u) → ⊥
      none-ne e = cc

  module _ (r : Runtime) (version : Bytes) (ratio : jitter.Ratio) (c : Config P)
      (s : Sound.IsSound P c) where
    final_client-IsUsable :
        (g : Signer P) (u : Bytes) (m : Option String)
        → IsBase u
        → validate jitter (final_policy P ratio c.retry) ≡ m
        → (k : ConfiguredClient P) → final_client P r version ratio c g u m ≡ inr k
        → IsUsable k
    unfolding final_client
    final_client-IsUsable g u none base e k h =
        let (policy, time, limit, b, v, ep, ek) = s in
        subst IsUsable (same h) (record {
          retry_valid = e;
          timeout_positive = time;
          limit_positive = limit;
          base = base;
          verifier_long = v;
          encrypt_pub_long = ep;
          encrypt_priv_long = ek;
        })
      where
        same :
            {a b : ConfiguredClient P}
            → ◌≡◌ {A = SetupError ⊎ ConfiguredClient P} (inr a) (inr b)
            → a ≡ b
        same e = cc
    final_client-IsUsable g u (some m) base e k h = cc

    located-IsUsable :
        (g : Signer P) (u : Option Bytes)
        → ((b : Bytes) → u ≡ some b → IsBase b)
        → (k : ConfiguredClient P) → located P r version ratio c g u ≡ inr k
        → IsUsable k
    unfolding located
    located-IsUsable g none base k h = cc
    located-IsUsable g (some u) base k h =
        final_client-IsUsable g u (validate jitter (final_policy P ratio c.retry)) (base u refl)
          refl k h

    environment-IsBase : (b : Bytes) → environment_url c.environment ≡ some b → IsBase b
    environment-IsBase b e = (not_empty c.environment b e, inl (c.environment, e))

    given-IsBase : is_empty c.base_url ≡ false → (b : Bytes) → some c.base_url ≡ some b → IsBase b
    given-IsBase h b e =
        let (policy, time, limit, base, v, ep, ek) = s in
        subst IsBase (same e) (
          (is_empty_iff c.base_url).0 h,
          inr (elim base [
            | inl none_given ↦ absurd ((is_empty_iff c.base_url).0 h none_given)
            | inr given ↦ given
          ]),
        )
      where
        same : {a b : Bytes} → some a ≡ some b → a ≡ b
        same e = cc

    finalize_config-IsUsable :
        (k : ConfiguredClient P) → finalize_config P r version ratio c ≡ inr k → IsUsable k
    unfolding finalize_config with_signer_set
    finalize_config-IsUsable k h = at c.signer h
      where
        at : (g : Option (Signer P)) → with_signer_set P r version ratio c g ≡ inr k → IsUsable k
        at none h = cc
        at (some g) h = elim (Bool-cases (is_empty c.base_url)) [
          | inl e ↦
              located-IsUsable (keyed_signer P g c.key_id) (environment_url c.environment)
                environment-IsBase k (rw e at h)
          | inr e ↦
              located-IsUsable (keyed_signer P g c.key_id) (some c.base_url) (given-IsBase e) k
                (rw e at h)
        ]

  -- Where the default jitter ratio is in range: whatever its options, a client that New returns has
  -- a valid retry policy, positive limits on time and response size, the URL of an environment or an
  -- http URL given by the caller as its base, and no verification or encryption key below 2048 bits.
  pub new_client-IsUsable :
      (r : Runtime) (version : Bytes) (ratio : jitter.Ratio)
      → jitter.in_range ratio ≡ true
      → (opts : List (Option (ClientOption P))) (k : ConfiguredClient P)
      → new_client P r version ratio opts ≡ inr k
      → IsUsable k
  unfolding new_client finalized
  new_client-IsUsable r version ratio in_range opts k h =
      at (run_options P 0 opts (default_config P ratio)) refl h
    where
      at :
          (d : SetupError ⊎ Config P)
          → run_options P 0 opts (default_config P ratio) ≡ d
          → finalized P r version ratio d ≡ inr k
          → IsUsable k
      at (inl e) p h = cc
      at (inr c) p h =
          finalize_config-IsUsable r version ratio c
            (run_options-Ok P 0 opts _ (default_config-IsSound ratio in_range) c p) k h
