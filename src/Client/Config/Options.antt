-- ===== src/Client/Config/Options.antt =====
-- atomefin/options.go: the options, each as what it does to the configuration.
use atome_fin_go_sdk.Base.{
  Bool, ℕ, not, ◌||◌, Option, none, some, List, [], ◌⊎◌, inl, inr, ltb, if◌then◌else◌, Bytes,
  String, codes, bytes_eq, is_empty, lt64,
}
use atome_fin_go_sdk.Errors.{Cause}
use atome_fin_go_sdk.Text.{trim_space}
use atome_fin_go_sdk.Transport.Retry.{validate}
use atome_fin_go_sdk.Sign.Keys.{
  KeyError, bits_of, new_rsa2_signer, new_rsa2_verifier, load_private_key_pem, load_public_cert_pem,
}
use atome_fin_go_sdk.Client.Config.{
  Url, Platform, SetupError, refused, bad_key, short_key, bad_url, bad_scheme, missing_host,
  unknown_environment, bad_policy, Signer, rsa2, GivenPolicy, Config, AtomeCertSource, policy_of,
  environment_url, trim_slashes,
}

module _ (P : Platform) where
  open P use {jitter, PublicKey, keys, HttpClient, Logger, Observer, Clock, Generator}

  abbrev Applied : Type 0
  Applied = SetupError ⊎ Config P

  unfoldable pub given_or : {A : Type 0} → String → Option A → (A → Applied) → Applied
  given_or message none set = inl (refused message)
  given_or message (some a) set = set a

  unfoldable pub loaded : {A : Type 0} → String → KeyError ⊎ A → (A → Applied) → Applied
  loaded option (inl e) set = inl (bad_key option e)
  loaded option (inr a) set = set a

  unfoldable pub long_key : String → Option ℕ → Applied → Applied
  long_key option bits set =
      if ltb (bits_of bits) 2048 then inl (short_key option (bits_of bits)) else set

  unfoldable pub with_http_client : Option HttpClient → Config P → Applied
  with_http_client h c =
      given_or "atomefin: WithHTTPClient: nil *http.Client" h
        (λ h. inr (record c { http_client = some h }))

  unfoldable pub parsed_base_url : Bytes → Config P → Cause ⊎ Url → Applied
  parsed_base_url u c (inl e) = inl (bad_url e)
  parsed_base_url u c (inr parsed) =
      if not (bytes_eq parsed.scheme (codes "http") || bytes_eq parsed.scheme (codes "https"))
      then inl (bad_scheme parsed.scheme)
      else if is_empty parsed.host
      then inl (missing_host u)
      else inr (record c { base_url = trim_slashes u })

  unfoldable pub with_base_url : Bytes → Config P → Applied
  unfolding parsed_base_url
  with_base_url given c =
      let u = trim_space given in
      if is_empty u
      then inl (refused "atomefin: WithBaseURL: empty URL")
      else parsed_base_url u c (P.parse_url u)

  unfoldable pub known_environment : Bytes → Config P → Option Bytes → Applied
  known_environment env c none = inl (unknown_environment env)
  known_environment env c (some u) = inr (record c { environment = env })

  unfoldable pub with_environment : Bytes → Config P → Applied
  unfolding known_environment
  with_environment env c = known_environment env c (environment_url env)

  unfoldable pub with_timeout : ℕ → Config P → Applied
  with_timeout d c =
      if lt64 0 d
      then inr (record c { timeout = d })
      else inl (refused "atomefin: WithTimeout: duration must be > 0")

  unfoldable pub valid_policy : GivenPolicy P → Config P → Option String → Applied
  valid_policy p c none = inr (record c { retry = p })
  valid_policy p c (some message) = inl (bad_policy message)

  unfoldable pub with_retry : GivenPolicy P → Config P → Applied
  unfolding valid_policy
  with_retry p c = valid_policy p c (validate jitter (policy_of P p))

  -- An option that may be given only once.
  unfoldable pub unless_set : {A : Type 0} → String → Option A → Applied → Applied
  unless_set message none set = set
  unless_set message (some a) set = inl (refused message)

  unfoldable pub with_signer : Option (Signer P) → Config P → Applied
  unfolding unless_set
  with_signer s c = given_or "atomefin: WithSigner: nil Signer" s (λ s.
      unless_set
        "atomefin: WithSigner: signer already configured (use WithSigner OR WithPrivateKeyPEM)"
        c.signer (inr (record c { signer = some s })))

  unfoldable pub with_private_key_pem : Bytes → (password : List Bytes) → Config P → Applied
  unfolding unless_set
  with_private_key_pem pem password c =
      unless_set "atomefin: WithPrivateKeyPEM: signer already configured" c.signer (
        loaded "WithPrivateKeyPEM" (load_private_key_pem keys pem password) (λ key.
          loaded "WithPrivateKeyPEM" (new_rsa2_signer keys.private_bits (some key))
            (λ s. inr (record c { signer = some (rsa2 s) }))))

  unfoldable pub with_atome_public_key : Option PublicKey → Config P → Applied
  with_atome_public_key pub_key c =
      given_or "atomefin: WithAtomePublicKey: nil *rsa.PublicKey" pub_key (λ key.
        loaded "WithAtomePublicKey" (new_rsa2_verifier keys.public_bits (some key))
          (λ v. inr (record c { verifier = some v })))

  unfoldable pub with_atome_public_cert_pem : Bytes → Config P → Applied
  with_atome_public_cert_pem pem c =
      loaded "WithAtomePublicCertPEM" (load_public_cert_pem keys pem) (λ key.
        loaded "WithAtomePublicCertPEM" (new_rsa2_verifier keys.public_bits (some key))
          (λ v. inr (record c { verifier = some v })))

  unfoldable pub with_encrypt_atome_public_cert_pem : Bytes → Config P → Applied
  unfolding unless_set
  with_encrypt_atome_public_cert_pem pem c =
      unless_set "atomefin: WithEncryptAtomePublicCertPEM: encrypt public key already configured"
        c.encrypt_atome_pub
        (loaded "WithEncryptAtomePublicCertPEM" (load_public_cert_pem keys pem) (λ key.
          long_key "WithEncryptAtomePublicCertPEM" (keys.public_bits key)
            (inr (record c { encrypt_atome_pub = some key }))))

  unfoldable pub with_encrypt_private_key_pem : Bytes → (password : List Bytes) → Config P → Applied
  unfolding unless_set
  with_encrypt_private_key_pem pem password c =
      unless_set "atomefin: WithEncryptPrivateKeyPEM: encrypt private key already configured"
        c.encrypt_priv
        (loaded "WithEncryptPrivateKeyPEM" (load_private_key_pem keys pem password) (λ key.
          long_key "WithEncryptPrivateKeyPEM" (keys.private_bits key)
            (inr (record c { encrypt_priv = some key }))))

  -- `if source != nil`, then the option and the rest of WithAtomeCerts.
  unfoldable pub and_then : Applied → (Config P → Applied) → Applied
  and_then (inl e) next = inl e
  and_then (inr c) next = next c

  unfoldable pub if_given : Option Bytes → (Bytes → Config P → Applied) → Config P → Applied
  if_given none option c = inr c
  if_given (some pem) option c = option pem c

  unfoldable pub with_atome_certs : (signing encrypting : AtomeCertSource P) → Config P → Applied
  with_atome_certs signing encrypting c =
      and_then (if_given signing.partner_priv (λ pem. with_private_key_pem pem []) c) (λ c1.
        and_then (if_given signing.atome_pub with_atome_public_cert_pem c1) (λ c2.
          and_then
            (if_given encrypting.partner_priv (λ pem. with_encrypt_private_key_pem pem []) c2)
            (if_given encrypting.atome_pub with_encrypt_atome_public_cert_pem)))

  unfoldable pub with_authorization_scheme : Option (Bytes → Bytes → Bytes) → Config P → Applied
  with_authorization_scheme scheme c =
      given_or "atomefin: WithAuthorizationScheme: nil scheme" scheme
        (λ f. inr (record c { auth_scheme = f }))

  unfoldable pub with_partner_id : Bytes → Config P → Applied
  with_partner_id given c =
      let id = trim_space given in
      if is_empty id
      then inl (refused "atomefin: WithPartnerID: empty id")
      else inr (record c { partner_id = id })

  unfoldable pub with_logger : Option Logger → Config P → Applied
  with_logger l c =
      given_or "atomefin: WithLogger: nil Logger" l (λ l. inr (record c { logger = some l }))

  unfoldable pub with_observer : Option Observer → Config P → Applied
  with_observer o c =
      given_or "atomefin: WithObserver: nil Observer" o (λ o. inr (record c { observer = some o }))

  unfoldable pub with_clock : Option Clock → Config P → Applied
  with_clock now c =
      given_or "atomefin: WithClock: nil clock" now (λ now. inr (record c { clock = some now }))

  unfoldable pub with_request_id_generator : Option Generator → Config P → Applied
  with_request_id_generator f c =
      given_or "atomefin: WithRequestIDGenerator: nil generator" f
        (λ f. inr (record c { request_id_gen = some f }))

  unfoldable pub with_max_response_bytes : ℕ → Config P → Applied
  with_max_response_bytes n c =
      if lt64 0 n
      then inr (record c { max_resp_bytes = n })
      else inl (refused "atomefin: WithMaxResponseBytes: must be > 0")

  -- The options that always succeed.
  unfoldable pub with_user_agent : Bytes → Config P → Config P
  with_user_agent ua c = record c { user_agent = ua }

  unfoldable pub with_key_id : Bytes → Config P → Config P
  with_key_id id c = record c { key_id = some id }

  unfoldable pub with_merchant_id : Bytes → Config P → Config P
  with_merchant_id id c = record c { merchant_id = trim_space id }

  unfoldable pub with_debug_body_logging : Bool → Config P → Config P
  with_debug_body_logging enable c = record c { debug_body_log = enable }
