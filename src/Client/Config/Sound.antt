-- ===== src/Client/Config/Sound.antt =====
-- What every option keeps of a configuration.
use atome_fin_go_sdk.Base.{
  ℕ, Bool, true, false, not, ◌||◌, ◌≡◌, ◌≤◌, refl, subst, Bool-cases, Option, none, some, [], ◌⊎◌,
  inl, inr, ltb, leb, if◌then◌else◌, Bytes, String, codes, bytes_eq, is_empty, lt64, arith,
}
use atome_fin_go_sdk.Text.{trim_space}
use atome_fin_go_sdk.Transport.Retry.{validate}
use atome_fin_go_sdk.Sign.Keys.{KeyError, bits_of, long_enough}
use atome_fin_go_sdk.Client.Config.{Url, Platform, SetupError, Config, policy_of, trim_slashes}
use atome_fin_go_sdk.Client.Config.Options

module _ (P : Platform) where
  open P use {jitter, keys}

  -- The scheme is http or https, and there is a host.
  abbrev pub IsHttp : Url → Type 0
  IsHttp url =
      ((bytes_eq url.scheme (codes "http") || bytes_eq url.scheme (codes "https")) ≡ true)
      × (is_empty url.host ≡ false)

  -- A base URL that a caller may give, without its trailing slashes.
  abbrev pub IsGiven : Bytes → Type 0
  IsGiven u =
      (given : Bytes) × (url : Url) × (P.parse_url (trim_space given) ≡ inr url)
      × IsHttp url
      × (u ≡ trim_slashes (trim_space given))

  abbrev pub Long : {K : Type 0} → (K → Option ℕ) → Option K → Type 0
  Long {K} bits k = (key : K) → k ≡ some key → 2048 ≤ bits_of (bits key)

  -- What every option keeps.
  abbrev pub IsSound : Config P → Type 0
  IsSound c =
      (validate jitter (policy_of P c.retry) ≡ none)
      × (lt64 0 c.timeout ≡ true)
      × (lt64 0 c.max_resp_bytes ≡ true)
      × ((c.base_url ≡ []) ⊎ IsGiven c.base_url)
      × Long keys.public_bits c.verifier
      × Long keys.public_bits c.encrypt_atome_pub
      × Long keys.private_bits c.encrypt_priv

  abbrev pub Ok : SetupError ⊎ Config P → Type 0
  Ok r = (d : Config P) → r ≡ inr d → IsSound d

  pub inl-Ok : (e : SetupError) → Ok (inl e)
  inl-Ok e d h = cc

  pub inr-Ok : (c : Config P) → IsSound c → Ok (inr c)
  inr-Ok c s d h = subst IsSound (same h) s
    where
      same : {a b : Config P} → ◌≡◌ {A = SetupError ⊎ Config P} (inr a) (inr b) → a ≡ b
      same e = cc

  pub given_or-Ok :
      {A : Type 0} (message : String) (x : Option A) (set : A → SetupError ⊎ Config P)
      → ((a : A) → Ok (set a))
      → Ok (Options.given_or P message x set)
  unfolding Options.given_or
  given_or-Ok message none set h = inl-Ok _
  given_or-Ok message (some a) set h = h a

  pub loaded-Ok :
      {A : Type 0} (option : String) (x : KeyError ⊎ A) (set : A → SetupError ⊎ Config P)
      → ((a : A) → Ok (set a))
      → Ok (Options.loaded P option x set)
  unfolding Options.loaded
  loaded-Ok option (inl e) set h = inl-Ok _
  loaded-Ok option (inr a) set h = h a

  pub if-Ok :
      (b : Bool) (x y : SetupError ⊎ Config P)
      → (b ≡ true → Ok x)
      → (b ≡ false → Ok y)
      → Ok (if b then x else y)
  if-Ok true x y f g = f refl
  if-Ok false x y f g = g refl

  pub long_enough-Ok :
      {K : Type 0} (option : String) (bits : K → Option ℕ) (k : K) (set : K → SetupError ⊎ Config P)
      → (2048 ≤ bits_of (bits k) → Ok (set k))
      → Ok (Options.loaded P option (long_enough bits k) set)
  unfolding long_enough Options.loaded
  long_enough-Ok option bits k set h = elim (Bool-cases (leb 2048 (bits_of (bits k)))) [
    | inl e ↦ rw e (h (ground (arith, e)))
    | inr e ↦ rw e (inl-Ok _)
  ]

  pub long_key-Ok :
      (option : String) (bits : Option ℕ) (set : SetupError ⊎ Config P)
      → (2048 ≤ bits_of bits → Ok set)
      → Ok (Options.long_key P option bits set)
  unfolding Options.long_key
  long_key-Ok option bits set h =
      if-Ok (ltb (bits_of bits) 2048) _ _ (λ e. inl-Ok _) (λ e. h (ground (arith, e)))

  pub Long-some :
      {K : Type 0} (bits : K → Option ℕ) (k : K) → 2048 ≤ bits_of (bits k) → Long bits (some k)
  Long-some bits k h key e = subst (λ x. 2048 ≤ bits_of (bits x)) (same e) h
    where
      same : {K : Type 0} {a b : K} → some a ≡ some b → a ≡ b
      same e = cc

  pub not-false : {b : Bool} → not b ≡ false → b ≡ true
  not-false h = ground arith

  pub unless_set-Ok :
      {A : Type 0} (message : String) (x : Option A) (set : SetupError ⊎ Config P)
      → Ok set
      → Ok (Options.unless_set P message x set)
  unfolding Options.unless_set
  unless_set-Ok message none set h = h
  unless_set-Ok message (some a) set h = inl-Ok _

  pub and_then-Ok :
      (r : SetupError ⊎ Config P) (next : Config P → SetupError ⊎ Config P)
      → Ok r
      → ((c : Config P) → IsSound c → Ok (next c))
      → Ok (Options.and_then P r next)
  unfolding Options.and_then
  and_then-Ok (inl e) next h k = inl-Ok _
  and_then-Ok (inr c) next h k = k c (h c refl)
