-- ===== src/Sign/Keys.antt =====
-- atomefin/sign/pem.go, and the constructors of atomefin/sign/signer.go and verifier.go. The PEM
-- decoder, the x509 parsers, RSA with SHA-256 and base64 are parameters.
use atome_fin_go_sdk.Base.{
  ℕ, Option, none, some, List, [], ◌∷◌, ◌⊎◌, inl, inr, Bool, leb, if◌then◌else◌, Bytes, codes,
  bytes_eq, is_empty, Dict, get,
}
use atome_fin_go_sdk.Errors.{Cause}

-- `pem.Block`.
pub record Block : Type 0 where
  pub kind : Bytes
  pub headers : Dict Bytes
  pub bytes : Bytes

-- The library; a parser answers `none` in `inr` where the key is not an RSA key, and the bits of a
-- key are `none` where its modulus is nil.
pub record KeyLibrary (Public Private : Type 0) : Type 0 where
  pub decode : Bytes → Option Block
  pub pkcs1_private : Bytes → Cause ⊎ Option Private
  pub pkcs8_private : Bytes → Cause ⊎ Option Private
  pub certificate : Bytes → Cause ⊎ Option Public
  pub pkix_public : Bytes → Cause ⊎ Option Public
  pub pkcs1_public : Bytes → Cause ⊎ Option Public
  pub private_bits : Private → Option ℕ
  pub public_bits : Public → Option ℕ

pub data KeyError : Type 0 where
  password_given : KeyError
  no_block : KeyError
  encrypted_pkcs1 : KeyError
  encrypted_pkcs8 : KeyError
  unsupported : (kind : Bytes) → KeyError
  unparsed : Cause → KeyError
  not_rsa : KeyError
  too_short : (bits : ℕ) → KeyError
  nil_key : KeyError

-- `MinKeyBits`.
abbrev pub min_key_bits : ℕ
min_key_bits = 2048

unfoldable pub bits_of : Option ℕ → ℕ
bits_of none = 0
bits_of (some bits) = bits

-- The test of the modulus that ends every loader and opens every constructor.
unfoldable pub long_enough : {K : Type 0} → (K → Option ℕ) → K → KeyError ⊎ K
unfolding bits_of
long_enough bits k =
    if leb min_key_bits (bits_of (bits k)) then inr k else inl (too_short (bits_of (bits k)))

pub parsed : {K : Type 0} → (K → Option ℕ) → Cause ⊎ Option K → KeyError ⊎ K
unfolding long_enough
parsed bits (inl e) = inl (unparsed e)
parsed bits (inr none) = inl not_rsa
parsed bits (inr (some k)) = long_enough bits k

-- Whether a password that is not empty is among the arguments.
unfoldable pub has_password : List Bytes → Bool
has_password [] = Bool.false
has_password (p ∷ ps) = let rest = has_password ps in if is_empty p then rest else Bool.true

has_dek_info : Option Bytes → Bool
has_dek_info none = Bool.false
has_dek_info (some v) = Bool.true

module _ {Public Private : Type 0} (lib : KeyLibrary Public Private) where
  pub private_of_block : Option Block → KeyError ⊎ Private
  unfolding parsed has_dek_info
  private_of_block none = inl no_block
  private_of_block (some b) =
      if has_dek_info (get (codes "DEK-Info") b.headers)
      then inl encrypted_pkcs1
      else if bytes_eq b.kind (codes "RSA PRIVATE KEY")
      then parsed lib.private_bits (lib.pkcs1_private b.bytes)
      else if bytes_eq b.kind (codes "PRIVATE KEY")
      then parsed lib.private_bits (lib.pkcs8_private b.bytes)
      else if bytes_eq b.kind (codes "ENCRYPTED PRIVATE KEY")
      then inl encrypted_pkcs8
      else inl (unsupported b.kind)

  -- `LoadPrivateKeyPEM`.
  unfoldable pub load_private_key_pem : Bytes → (password : List Bytes) → KeyError ⊎ Private
  unfolding private_of_block
  load_private_key_pem pem password =
      if has_password password then inl password_given else private_of_block (lib.decode pem)

  pub public_of_block : Option Block → KeyError ⊎ Public
  unfolding parsed
  public_of_block none = inl no_block
  public_of_block (some b) =
      if bytes_eq b.kind (codes "CERTIFICATE")
      then parsed lib.public_bits (lib.certificate b.bytes)
      else if bytes_eq b.kind (codes "PUBLIC KEY")
      then parsed lib.public_bits (lib.pkix_public b.bytes)
      else if bytes_eq b.kind (codes "RSA PUBLIC KEY")
      then parsed lib.public_bits (lib.pkcs1_public b.bytes)
      else inl (unsupported b.kind)

  -- `LoadPublicCertPEM`.
  unfoldable pub load_public_cert_pem : Bytes → KeyError ⊎ Public
  unfolding public_of_block
  load_public_cert_pem pem = public_of_block (lib.decode pem)

-- An RSA2 signer keeps its key; the key id is empty without an option.
pub record Rsa2Signer (Private : Type 0) : Type 0 where
  pub priv : Private
  pub key_id : Bytes

signer_of : {Private : Type 0} → KeyError ⊎ Private → KeyError ⊎ Rsa2Signer Private
signer_of (inl e) = inl e
signer_of (inr k) = inr (record { priv = k; key_id = [] })

-- `NewRSA2Signer` without options.
unfoldable pub new_rsa2_signer :
    {Private : Type 0} → (Private → Option ℕ) → Option Private → KeyError ⊎ Rsa2Signer Private
unfolding signer_of
new_rsa2_signer bits none = inl nil_key
new_rsa2_signer bits (some k) = signer_of (long_enough bits k)

-- `NewRSA2Verifier` without options; a verifier keeps its key.
unfoldable pub new_rsa2_verifier :
    {Public : Type 0} → (Public → Option ℕ) → Option Public → KeyError ⊎ Public
new_rsa2_verifier bits none = inl nil_key
new_rsa2_verifier bits (some k) = long_enough bits k
