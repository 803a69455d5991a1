-- ===== src/Client/Config/Build.antt =====
-- atomefin/client.go: New, which applies the options in order and completes the configuration. An
-- option is the name of its constructor with the arguments.
use atome_fin_go_sdk.Base.{
  suc, ℕ, Bool, Option, none, some, List, [], ◌∷◌, ◌⊎◌, inl, inr, ◌==◌, if◌then◌else◌, Bytes,
  String, is_empty,
}
use atome_fin_go_sdk.Transport.Retry.{RetryPolicy, validate}
use atome_fin_go_sdk.Transport.UserAgent.{Runtime, build_user_agent}
use atome_fin_go_sdk.Client.Config.{
  Platform, SetupError, refused, unknown_environment, bad_policy, nil_option, Signer, rsa2, custom,
  keyed, GivenPolicy, Config, AtomeCertSource, policy_of, default_policy, default_config,
  environment_url,
}
use atome_fin_go_sdk.Client.Config.Options

module _ (P : Platform) where
  open P use {jitter, PublicKey, PrivateKey, HttpClient, Logger, Observer, Clock, Generator}

  pub data ClientOption : Type 0 where
    http_client : Option HttpClient → ClientOption
    base_url : Bytes → ClientOption
    environment : Bytes → ClientOption
    timeout : ℕ → ClientOption
    retry : GivenPolicy P → ClientOption
    user_agent : Bytes → ClientOption
    signer : Option (Signer P) → ClientOption
    private_key_pem : (pem : Bytes) → (password : List Bytes) → ClientOption
    atome_public_key : Option PublicKey → ClientOption
    atome_public_cert_pem : Bytes → ClientOption
    encrypt_atome_public_cert_pem : Bytes → ClientOption
    encrypt_private_key_pem : (pem : Bytes) → (password : List Bytes) → ClientOption
    atome_certs : (signing encrypting : AtomeCertSource P) → ClientOption
    key_id : Bytes → ClientOption
    authorization_scheme : Option (Bytes → Bytes → Bytes) → ClientOption
    partner_id : Bytes → ClientOption
    merchant_id : Bytes → ClientOption
    logger : Option Logger → ClientOption
    observer : Option Observer → ClientOption
    debug_body_logging : Bool → ClientOption
    clock : Option Clock → ClientOption
    request_id_generator : Option Generator → ClientOption
    max_response_bytes : ℕ → ClientOption

  unfoldable pub apply_option : ClientOption → Config P → SetupError ⊎ Config P
  apply_option (http_client h) c = Options.with_http_client P h c
  apply_option (base_url u) c = Options.with_base_url P u c
  apply_option (environment env) c = Options.with_environment P env c
  apply_option (timeout d) c = Options.with_timeout P d c
  apply_option (retry p) c = Options.with_retry P p c
  apply_option (user_agent ua) c = inr (Options.with_user_agent P ua c)
  apply_option (signer s) c = Options.with_signer P s c
  apply_option (private_key_pem pem password) c = Options.with_private_key_pem P pem password c
  apply_option (atome_public_key k) c = Options.with_atome_public_key P k c
  apply_option (atome_public_cert_pem pem) c = Options.with_atome_public_cert_pem P pem c
  apply_option (encrypt_atome_public_cert_pem pem) c =
      Options.with_encrypt_atome_public_cert_pem P pem c
  apply_option (encrypt_private_key_pem pem password) c =
      Options.with_encrypt_private_key_pem P pem password c
  apply_option (atome_certs signing encrypting) c = Options.with_atome_certs P signing encrypting c
  apply_option (key_id id) c = inr (Options.with_key_id P id c)
  apply_option (authorization_scheme f) c = Options.with_authorization_scheme P f c
  apply_option (partner_id id) c = Options.with_partner_id P id c
  apply_option (merchant_id id) c = inr (Options.with_merchant_id P id c)
  apply_option (logger l) c = Options.with_logger P l c
  apply_option (observer o) c = Options.with_observer P o c
  apply_option (debug_body_logging enable) c = inr (Options.with_debug_body_logging P enable c)
  apply_option (clock now) c = Options.with_clock P now c
  apply_option (request_id_generator f) c = Options.with_request_id_generator P f c
  apply_option (max_response_bytes n) c = Options.with_max_response_bytes P n c

  -- The message of a nil option, with `optionIndexLabel`.
  option_index_label : ℕ → String
  option_index_label n =
      if n == 0 then "option 0 is nil" else if n == 1 then "option 1 is nil" else "option N is nil"

  -- The loop of `New` over its options, from position `n` on; an option may be nil.
  unfoldable pub run_options : ℕ → List (Option ClientOption) → Config P → SetupError ⊎ Config P
  unfolding option_index_label
  run_options n [] c = inr c
  run_options n (none ∷ os) c = inl (nil_option (option_index_label n))
  run_options n (some o ∷ os) c = Options.and_then P (apply_option o c) (run_options (suc n) os)

  -- The client of `New`, with the fields of the configuration that are completed written out.
  pub record ConfiguredClient : Type 0 where
    pub config : Config P
    pub base_url : Bytes
    pub signer : Signer P
    pub retry : RetryPolicy jitter.Ratio
    pub user_agent : Bytes

  -- The `KeyID` of a signer.
  unfoldable pub signer_key_id : Signer P → Bytes
  signer_key_id (rsa2 s) = s.key_id
  signer_key_id (custom s) = P.custom_key_id s
  signer_key_id (keyed s id) = id

  unfoldable pub keyed_signer : Signer P → Option Bytes → Signer P
  keyed_signer s none = s
  keyed_signer s (some id) = keyed s id

  unfoldable pub final_policy : jitter.Ratio → GivenPolicy P → RetryPolicy jitter.Ratio
  final_policy ratio p = policy_of P (if p.max_attempts == 0 then default_policy P ratio else p)

  module _ (r : Runtime) (sdk_version : Bytes) (ratio : jitter.Ratio) where
    unfoldable pub final_client :
        Config P → Signer P → Bytes → Option String → SetupError ⊎ ConfiguredClient
    final_client c s u (some message) = inl (bad_policy message)
    final_client c s u none = inr (record {
      config = c;
      base_url = u;
      signer = s;
      retry = final_policy ratio c.retry;
      user_agent = build_user_agent r sdk_version c.user_agent;
    })

    unfoldable pub located : Config P → Signer P → Option Bytes → SetupError ⊎ ConfiguredClient
    unfolding final_client
    located c s none = inl (unknown_environment c.environment)
    located c s (some u) = final_client c s u (validate jitter (final_policy ratio c.retry))

    unfoldable pub with_signer_set : Config P → Option (Signer P) → SetupError ⊎ ConfiguredClient
    unfolding located
    with_signer_set c none =
        inl (refused "atomefin: New: a Signer is required (use WithSigner or WithPrivateKeyPEM)")
    with_signer_set c (some s) =
        located c (keyed_signer s c.key_id)
          (if is_empty c.base_url then environment_url c.environment else some c.base_url)

    -- `finalizeConfig`, and the client that `New` makes of its result.
    unfoldable pub finalize_config : Config P → SetupError ⊎ ConfiguredClient
    unfolding with_signer_set
    finalize_config c = with_signer_set c c.signer

    unfoldable pub finalized : SetupError ⊎ Config P → SetupError ⊎ ConfiguredClient
    unfolding finalize_config
    finalized (inl e) = inl e
    finalized (inr c) = finalize_config c

    -- `New`.
    unfoldable pub new_client : List (Option ClientOption) → SetupError ⊎ ConfiguredClient
    unfolding finalized
    new_client opts = finalized (run_options 0 opts (default_config P ratio))
