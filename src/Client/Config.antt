-- ===== src/Client/Config.antt =====
-- atomefin/options.go: the configuration that the options of a client fill, and its defaults. What
-- comes from other packages is a field of `Platform`; a value that Go may leave nil is an Option.
pub mod Options
pub mod Build
pub mod Sound
pub mod Settings
pub mod Applied
pub mod Usable
use atome_fin_go_sdk.Base.{
  ◌++◌, ℕ, Bool, false, not, ◌||◌, Option, none, some, List, [], ◌∷◌, ◌⊎◌, inl, inr, ◌==◌, ltb,
  if◌then◌else◌, Bytes, String, codes, bytes_eq, is_empty, lt64,
}
use atome_fin_go_sdk.Errors.{Cause}
use atome_fin_go_sdk.Text.{trim_space}
use atome_fin_go_sdk.Transport.Retry.{
  Jitter, RetryPolicy, validate, default_retry_on_status, default_retry_on_transport_error,
}
use atome_fin_go_sdk.Sign.Keys.{
  KeyLibrary, KeyError, Rsa2Signer, bits_of, new_rsa2_signer, new_rsa2_verifier,
  load_private_key_pem, load_public_cert_pem,
}

-- `url.URL`, as far as it is read.
pub record Url : Type 0 where
  pub scheme : Bytes
  pub host : Bytes

pub record Platform : Type 1 where
  pub jitter : Jitter
  pub PublicKey : Type 0
  pub PrivateKey : Type 0
  pub keys : KeyLibrary PublicKey PrivateKey
  pub parse_url : Bytes → Cause ⊎ Url
  pub HttpClient : Type 0
  pub Logger : Type 0
  pub Observer : Type 0
  pub Clock : Type 0
  pub Generator : Type 0
  -- A signer of the caller.
  pub Custom : Type 0
  pub custom_key_id : Custom → Bytes

pub data SetupError : Type 0 where
  refused : String → SetupError
  bad_key : (option : String) → KeyError → SetupError
  short_key : (option : String) → (bits : ℕ) → SetupError
  bad_url : Cause → SetupError
  bad_scheme : Bytes → SetupError
  missing_host : Bytes → SetupError
  unknown_environment : Bytes → SetupError
  bad_policy : String → SetupError
  nil_option : (label : String) → SetupError

-- `baseURLs` and `BaseURL`.
unfoldable pub environment_url : Bytes → Option Bytes
environment_url env =
    if bytes_eq env (codes "pre")
    then some (codes "https://id-api-pre.apaylater.net/grabpaylater")
    else if bytes_eq env (codes "prod")
    then some (codes "https://api.atome.id/grabpaylater")
    else none

-- `strings.TrimRight(u, "/")`.
unfoldable pub trim_slashes : Bytes → Bytes
trim_slashes [] = []
trim_slashes (c ∷ s) =
    let rest = trim_slashes s in
    if is_empty rest then (if c == b'/' then [] else c ∷ []) else c ∷ rest

unfoldable pub scheme_raw_base64 : (signature key_id : Bytes) → Bytes
scheme_raw_base64 signature key_id = signature

unfoldable pub scheme_atome_keyed : (signature key_id : Bytes) → Bytes
scheme_atome_keyed signature key_id =
    if is_empty key_id
    then codes "Algorithm=RSA2,Sign=" ++ signature
    else codes "Algorithm=RSA2,KeyVersion=" ++ key_id ++ codes ",Sign=" ++ signature

module _ (P : Platform) where
  open P use {
    jitter, PublicKey, PrivateKey, keys, HttpClient, Logger, Observer, Clock, Generator, Custom,
  }

  -- `keyed` is signerWithKeyID.
  pub data Signer : Type 0 where
    rsa2 : Rsa2Signer PrivateKey → Signer
    custom : Custom → Signer
    keyed : Signer → (key_id : Bytes) → Signer

  -- A policy as the caller gives it: its functions may be nil.
  pub record GivenPolicy : Type 0 where
    pub max_attempts : ℕ
    pub base : ℕ
    pub cap : ℕ
    pub ratio : jitter.Ratio
    pub on_status : Option (ℕ → Bool)
    pub on_transport_error : Option (Cause → Bool)

  -- Where a default of a package stands for what was not given (the cloned http.Client, the no-op
  -- logger and observer, time.Now, DefaultRequestID), the field is `none`.
  pub record Config : Type 0 where
    pub http_client : Option HttpClient
    pub base_url : Bytes
    pub environment : Bytes
    pub timeout : ℕ
    pub logger : Option Logger
    pub observer : Option Observer
    pub signer : Option Signer
    pub verifier : Option PublicKey
    pub key_id : Option Bytes
    pub auth_scheme : Bytes → Bytes → Bytes
    pub partner_id : Bytes
    pub merchant_id : Bytes
    pub retry : GivenPolicy
    pub user_agent : Bytes
    pub clock : Option Clock
    pub request_id_gen : Option Generator
    pub max_resp_bytes : ℕ
    pub debug_body_log : Bool
    pub encrypt_atome_pub : Option PublicKey
    pub encrypt_priv : Option PrivateKey

  -- `AtomeCertSource`.
  pub record AtomeCertSource : Type 0 where
    pub partner_priv : Option Bytes
    pub atome_pub : Option Bytes

  -- The policy with the default in place of a function that is nil.
  unfoldable pub policy_of : GivenPolicy → RetryPolicy jitter.Ratio
  policy_of p = record {
    max_attempts = p.max_attempts;
    base = p.base;
    cap = p.cap;
    jitter = p.ratio;
    retry_on_status = elim p.on_status [ none ↦ default_retry_on_status | some f ↦ f ];
    retry_on_transport_error = elim p.on_transport_error [
      | none ↦ default_retry_on_transport_error
      | some f ↦ f
    ];
  }

  -- `DefaultRetryPolicy`; the ratio is 0.20.
  unfoldable pub default_policy : jitter.Ratio → GivenPolicy
  default_policy ratio = record {
    max_attempts = 3;
    base = 250000000;
    cap = 4000000000;
    ratio = ratio;
    on_status = some default_retry_on_status;
    on_transport_error = some default_retry_on_transport_error;
  }

  -- `defaultConfig`.
  unfoldable pub default_config : jitter.Ratio → Config
  unfolding default_policy
  default_config ratio = record {
    http_client = none;
    base_url = [];
    environment = codes "prod";
    timeout = 30000000000;
    logger = none;
    observer = none;
    signer = none;
    verifier = none;
    key_id = none;
    auth_scheme = scheme_raw_base64;
    partner_id = [];
    merchant_id = [];
    retry = default_policy ratio;
    user_agent = [];
    clock = none;
    request_id_gen = none;
    max_resp_bytes = 1048576;
    debug_body_log = false;
    encrypt_atome_pub = none;
    encrypt_priv = none;
  }
