-- ===== src/Client/Config/Applied.antt =====
-- The loop of New over its options keeps a configuration sound.
use atome_fin_go_sdk.Base.{ℕ, suc, Option, none, some, List, [], ◌∷◌, is_empty}
use atome_fin_go_sdk.Text.{trim_space}
use atome_fin_go_sdk.Client.Config.{Platform, Config, AtomeCertSource}
use atome_fin_go_sdk.Client.Config.Options
use atome_fin_go_sdk.Client.Config.Build.{
  ClientOption, http_client, base_url, environment, timeout, retry, user_agent, signer,
  private_key_pem, atome_public_key, atome_public_cert_pem, encrypt_atome_public_cert_pem,
  encrypt_private_key_pem, atome_certs, key_id, authorization_scheme, partner_id, merchant_id,
  logger, observer, debug_body_logging, clock, request_id_generator, max_response_bytes,
  apply_option, run_options,
}
use atome_fin_go_sdk.Client.Config.Sound
use atome_fin_go_sdk.Client.Config.Settings

module _ (P : Platform) where
  open P use {jitter, keys}

  with_atome_certs-Ok :
      (a b : AtomeCertSource P) (c : Config P)
      → Sound.IsSound P c
      → Sound.Ok P (Options.with_atome_certs P a b c)
  unfolding Options.with_atome_certs
  with_atome_certs-Ok a b c s =
      Sound.and_then-Ok P _ _
        (Settings.if_given-Ok P c s a.partner_priv _
          (λ pem. Settings.with_private_key_pem-Ok P c s pem []))
        (λ c1 s1.
          Sound.and_then-Ok P _ _
            (Settings.if_given-Ok P c1 s1 a.atome_pub _
              (Settings.with_atome_public_cert_pem-Ok P c1 s1))
            (λ c2 s2.
              Sound.and_then-Ok P _ _
                (Settings.if_given-Ok P c2 s2 b.partner_priv _
                  (λ pem. Settings.with_encrypt_private_key_pem-Ok P c2 s2 pem []))
                (λ c3 s3.
                  Settings.if_given-Ok P c3 s3 b.atome_pub _
                    (Settings.with_encrypt_atome_public_cert_pem-Ok P c3 s3))))

  apply_option-Ok :
      (o : ClientOption P) (c : Config P) → Sound.IsSound P c → Sound.Ok P (apply_option P o c)
  unfolding apply_option Options.with_http_client Options.with_user_agent Options.with_signer
      Options.with_key_id Options.with_authorization_scheme Options.with_partner_id
      Options.with_merchant_id Options.with_logger Options.with_observer
      Options.with_debug_body_logging Options.with_clock Options.with_request_id_generator
  apply_option-Ok (http_client h) c s = Sound.given_or-Ok P _ h _ (λ x. Sound.inr-Ok P _ s)
  apply_option-Ok (base_url u) c s = Settings.with_base_url-Ok P c s u
  apply_option-Ok (environment env) c s = Settings.with_environment-Ok P c s env
  apply_option-Ok (timeout d) c s = Settings.with_timeout-Ok P c s d
  apply_option-Ok (retry p) c s = Settings.with_retry-Ok P c s p
  apply_option-Ok (user_agent ua) c s = Sound.inr-Ok P _ s
  apply_option-Ok (signer x) c s =
      Sound.given_or-Ok P _ x _ (λ x. Sound.unless_set-Ok P _ c.signer _ (Sound.inr-Ok P _ s))
  apply_option-Ok (private_key_pem pem password) c s =
      Settings.with_private_key_pem-Ok P c s pem password
  apply_option-Ok (atome_public_key k) c s = Settings.with_atome_public_key-Ok P c s k
  apply_option-Ok (atome_public_cert_pem pem) c s = Settings.with_atome_public_cert_pem-Ok P c s pem
  apply_option-Ok (encrypt_atome_public_cert_pem pem) c s =
      Settings.with_encrypt_atome_public_cert_pem-Ok P c s pem
  apply_option-Ok (encrypt_private_key_pem pem password) c s =
      Settings.with_encrypt_private_key_pem-Ok P c s pem password
  apply_option-Ok (atome_certs a b) c s = with_atome_certs-Ok a b c s
  apply_option-Ok (key_id id) c s = Sound.inr-Ok P _ s
  apply_option-Ok (authorization_scheme f) c s = Sound.given_or-Ok P _ f _ (λ x. Sound.inr-Ok P _ s)
  apply_option-Ok (partner_id id) c s =
      Sound.if-Ok P (is_empty (trim_space id)) _ _ (λ e. Sound.inl-Ok P _) (λ e. Sound.inr-Ok P _ s)
  apply_option-Ok (merchant_id id) c s = Sound.inr-Ok P _ s
  apply_option-Ok (logger l) c s = Sound.given_or-Ok P _ l _ (λ x. Sound.inr-Ok P _ s)
  apply_option-Ok (observer l) c s = Sound.given_or-Ok P _ l _ (λ x. Sound.inr-Ok P _ s)
  apply_option-Ok (debug_body_logging b) c s = Sound.inr-Ok P _ s
  apply_option-Ok (clock l) c s = Sound.given_or-Ok P _ l _ (λ x. Sound.inr-Ok P _ s)
  apply_option-Ok (request_id_generator l) c s = Sound.given_or-Ok P _ l _ (λ x. Sound.inr-Ok P _ s)
  apply_option-Ok (max_response_bytes n) c s = Settings.with_max_response_bytes-Ok P c s n

  pub run_options-Ok :
      (n : ℕ) (os : List (Option (ClientOption P))) (c : Config P)
      → Sound.IsSound P c
      → Sound.Ok P (run_options P n os c)
  unfolding run_options
  run_options-Ok n [] c s = Sound.inr-Ok P _ s
  run_options-Ok n (none ∷ os) c s = Sound.inl-Ok P _
  run_options-Ok n (some o ∷ os) c s =
      Sound.and_then-Ok P _ _ (apply_option-Ok o c s) (λ d t. run_options-Ok (suc n) os d t)
