-- ===== src/Encrypt/Envelope.antt =====
-- atomefin/encrypt/rsa.go and envelope.go: the wrapped key and the whole envelope.
pub mod RoundTrip
use atome_fin_go_sdk.Base.{◌>>=◌, ℕ, not, Option, none, some, List, ltb, if◌then◌else◌, Bytes}
use atome_fin_go_sdk.Encrypt.Body.{Ciphers, encrypt_body, decrypt_body}
use atome_fin_go_sdk.Encrypt.Key.{Drawn, drawn, failed, pending, random_aes_key, validate_aes_key}
use atome_fin_go_sdk.Encrypt.Header.{build_encrypt_header, parse_encrypt_header, symmetric_key_from}

-- Package crypto/rsa: keys, the length of their modulus, and PKCS #1 v1.5 under given randomness.
pub record Rsa {ℓ} (Public Private Random : Type ℓ) : Type ℓ where
  pub public_bits : Public → ℕ
  pub private_bits : Private → ℕ
  pub encrypt : Random → Public → Bytes → Option Bytes
  pub decrypt : Private → Bytes → Option Bytes

-- `MinKeyBits`.
abbrev pub min_key_bits : ℕ
min_key_bits = 2048

-- What `Marshal` returns: the header and the body, its error, or no answer yet as the reads of
-- crypto/rand given here do not make up a key.
pub data Marshalled : Type 0 where
  sealed : (header body : Bytes) → Marshalled
  refused waiting : Marshalled

module _ {ℓ} {Public Private Random : Type ℓ} (rsa : Rsa Public Private Random)
    (lib : Ciphers) where
  -- `WrapAESKey`; a nil key is `none`.
  unfoldable pub wrap_aes_key : Random → (aes_key : Bytes) → Option Public → Option Bytes
  wrap_aes_key random aes_key none = none
  wrap_aes_key random aes_key (some public) =
      if ltb (rsa.public_bits public) min_key_bits
      then none
      else elim (rsa.encrypt random public aes_key) [
        | none ↦ none
        | some cipher ↦ some (lib.encode64 cipher)
      ]

  -- `UnwrapAESKey`.
  unfoldable pub unwrap_aes_key : (wrapped : Bytes) → Option Private → Option Bytes
  unwrap_aes_key wrapped none = none
  unwrap_aes_key wrapped (some private) =
      if ltb (rsa.private_bits private) min_key_bits
      then none
      else elim (lib.decode64 wrapped) [ none ↦ none | some cipher ↦ rsa.decrypt private cipher ]

  seal : Option Bytes → Option Bytes → Marshalled
  seal (some body) (some wrapped) = sealed (build_encrypt_header wrapped) body
  seal (some body) none = refused
  seal none wrapped = refused

  seal_with : Random → (plain : Bytes) → Option Public → Drawn → Marshalled
  unfolding seal
  seal_with random plain public (drawn aes_key) =
      seal (encrypt_body lib plain aes_key) (wrap_aes_key random aes_key public)
  seal_with random plain public failed = refused
  seal_with random plain public pending = waiting

  -- `Marshal`.
  unfoldable pub marshal :
      (reads : List (Option ℕ)) → Random → (plain : Bytes) → Option Public → Marshalled
  unfolding seal_with
  marshal reads random plain none = refused
  marshal reads random plain (some public) =
      seal_with random plain (some public) (random_aes_key reads)

  open_with : (body aes_key : Bytes) → Option Bytes
  open_with body aes_key =
      if not (validate_aes_key aes_key) then none else decrypt_body lib body aes_key

  -- `Unmarshal`; `none` is any of its errors.
  unfoldable pub unmarshal : (header body : Bytes) → Option Private → Option Bytes
  unfolding open_with
  unmarshal header body none = none
  unmarshal header body (some private) = do
    kv ← parse_encrypt_header header
    wrapped ← symmetric_key_from kv
    aes_key ← unwrap_aes_key wrapped (some private)
    open_with body aes_key
