-- ===== src/Client/Config/Settings.antt =====
-- Each option keeps a configuration sound.
use atome_fin_go_sdk.Base.{
  ℕ, ◌≡◌, refl, Option, none, some, List, ◌⊎◌, inl, inr, Bytes, String, is_empty, lt64,
}
use atome_fin_go_sdk.Errors.{Cause}
use atome_fin_go_sdk.Text.{trim_space}
use atome_fin_go_sdk.Transport.Retry.{validate}
use atome_fin_go_sdk.Sign.Keys.{
  long_enough, new_rsa2_verifier, new_rsa2_signer, load_private_key_pem, load_public_cert_pem,
}
use atome_fin_go_sdk.Client.Config.{
  Url, Platform, SetupError, GivenPolicy, Config, policy_of, environment_url,
}
use atome_fin_go_sdk.Client.Config.Options
use atome_fin_go_sdk.Client.Config.Sound

module _ (P : Platform) where
  open P use {jitter, PublicKey, keys}

  module _ (c : Config P) (s : Sound.IsSound P c) where
    parsed_base_url-Ok :
        (given : Bytes)
        → Sound.Ok P
            (Options.parsed_base_url P (trim_space given) c (P.parse_url (trim_space given)))
    unfolding Options.parsed_base_url
    parsed_base_url-Ok given = at (P.parse_url (trim_space given)) refl
      where
        at :
            (r : Cause ⊎ Url)
            → P.parse_url (trim_space given) ≡ r
            → Sound.Ok P (Options.parsed_base_url P (trim_space given) c r)
        at (inl e) p = Sound.inl-Ok P _
        at (inr url) p =
            Sound.if-Ok P _ _ _ (λ e. Sound.inl-Ok P _)
              (λ e.
                Sound.if-Ok P (is_empty url.host) _ _ (λ h. Sound.inl-Ok P _)
                  (λ h.
                    let (retry, time, limit, base, v, ep, ek) = s in
                    Sound.inr-Ok P _ (
                      retry,
                      time,
                      limit,
                      inr (given, url, p, (Sound.not-false P e, h), refl),
                      v,
                      ep,
                      ek,
                    )))

    pub with_base_url-Ok : (u : Bytes) → Sound.Ok P (Options.with_base_url P u c)
    unfolding Options.with_base_url
    with_base_url-Ok u =
        Sound.if-Ok P (is_empty (trim_space u)) _ _ (λ e. Sound.inl-Ok P _)
          (λ e. parsed_base_url-Ok u)

    pub with_environment-Ok : (env : Bytes) → Sound.Ok P (Options.with_environment P env c)
    unfolding Options.with_environment Options.known_environment
    with_environment-Ok env = known (environment_url env)
      where
        known : (u : Option Bytes) → Sound.Ok P (Options.known_environment P env c u)
        known none = Sound.inl-Ok P _
        known (some u) = Sound.inr-Ok P _ s

    pub with_timeout-Ok : (d : ℕ) → Sound.Ok P (Options.with_timeout P d c)
    unfolding Options.with_timeout
    with_timeout-Ok d =
        let (retry, time, limit, base, v, ep, ek) = s in
        Sound.if-Ok P (lt64 0 d) _ _ (λ e. Sound.inr-Ok P _ (retry, e, limit, base, v, ep, ek))
          (λ e. Sound.inl-Ok P _)

    pub with_max_response_bytes-Ok : (n : ℕ) → Sound.Ok P (Options.with_max_response_bytes P n c)
    unfolding Options.with_max_response_bytes
    with_max_response_bytes-Ok n =
        let (retry, time, limit, base, v, ep, ek) = s in
        Sound.if-Ok P (lt64 0 n) _ _ (λ e. Sound.inr-Ok P _ (retry, time, e, base, v, ep, ek))
          (λ e. Sound.inl-Ok P _)

    pub with_retry-Ok : (p : GivenPolicy P) → Sound.Ok P (Options.with_retry P p c)
    unfolding Options.with_retry Options.valid_policy
    with_retry-Ok p = valid (validate jitter (policy_of P p)) refl
      where
        valid :
            (m : Option String)
            → validate jitter (policy_of P p) ≡ m
            → Sound.Ok P (Options.valid_policy P p c m)
        valid none e =
            let (retry, time, limit, base, v, ep, ek) = s in
            Sound.inr-Ok P _ (e, time, limit, base, v, ep, ek)
        valid (some m) e = Sound.inl-Ok P _

    verified-Ok :
        (option : String) (key : PublicKey)
        → Sound.Ok P (
            Options.loaded P option
              (long_enough keys.public_bits key)
              (λ v. inr (record c { verifier = some v })))
    verified-Ok option key =
        let (retry, time, limit, base, v, ep, ek) = s in
        Sound.long_enough-Ok P option keys.public_bits key _ (λ long.
          Sound.inr-Ok P _
            (retry, time, limit, base, Sound.Long-some P keys.public_bits key long, ep, ek))

    pub with_atome_public_key-Ok :
        (k : Option PublicKey) → Sound.Ok P (Options.with_atome_public_key P k c)
    unfolding Options.with_atome_public_key new_rsa2_verifier
    with_atome_public_key-Ok k =
        Sound.given_or-Ok P _ k _ (λ key. verified-Ok "WithAtomePublicKey" key)

    pub with_atome_public_cert_pem-Ok :
        (pem : Bytes) → Sound.Ok P (Options.with_atome_public_cert_pem P pem c)
    unfolding Options.with_atome_public_cert_pem new_rsa2_verifier
    with_atome_public_cert_pem-Ok pem =
        Sound.loaded-Ok P _ (load_public_cert_pem keys pem) _ (λ key. verified-Ok _ key)

    pub with_private_key_pem-Ok :
        (pem : Bytes) (password : List Bytes)
        → Sound.Ok P (Options.with_private_key_pem P pem password c)
    unfolding Options.with_private_key_pem
    with_private_key_pem-Ok pem password = Sound.unless_set-Ok P _ c.signer _ (
        Sound.loaded-Ok P _ (load_private_key_pem keys pem password) _ (λ key.
          Sound.loaded-Ok P _ (new_rsa2_signer keys.private_bits (some key)) _
            (λ r. Sound.inr-Ok P _ s)))

    pub with_encrypt_atome_public_cert_pem-Ok :
        (pem : Bytes) → Sound.Ok P (Options.with_encrypt_atome_public_cert_pem P pem c)
    unfolding Options.with_encrypt_atome_public_cert_pem
    with_encrypt_atome_public_cert_pem-Ok pem =
        let (retry, time, limit, base, v, ep, ek) = s in
        Sound.unless_set-Ok P _ c.encrypt_atome_pub _ (
          Sound.loaded-Ok P _ (load_public_cert_pem keys pem) _ (λ key.
            Sound.long_key-Ok P _ (keys.public_bits key) _ (λ long.
              Sound.inr-Ok P _
                (retry, time, limit, base, v, Sound.Long-some P keys.public_bits key long, ek))))

    pub with_encrypt_private_key_pem-Ok :
        (pem : Bytes) (password : List Bytes)
        → Sound.Ok P (Options.with_encrypt_private_key_pem P pem password c)
    unfolding Options.with_encrypt_private_key_pem
    with_encrypt_private_key_pem-Ok pem password =
        let (retry, time, limit, base, v, ep, ek) = s in
        Sound.unless_set-Ok P _ c.encrypt_priv _ (
          Sound.loaded-Ok P _ (load_private_key_pem keys pem password) _ (λ key.
            Sound.long_key-Ok P _ (keys.private_bits key) _ (λ long.
              Sound.inr-Ok P _
                (retry, time, limit, base, v, ep, Sound.Long-some P keys.private_bits key long))))

    pub if_given-Ok :
        (pem : Option Bytes) (option : Bytes → Config P → SetupError ⊎ Config P)
        → ((b : Bytes) → Sound.Ok P (option b c))
        → Sound.Ok P (Options.if_given P pem option c)
    unfolding Options.if_given
    if_given-Ok none option h = Sound.inr-Ok P _ s
    if_given-Ok (some b) option h = h b
