-- ===== src/Encrypt/Envelope/RoundTrip.antt =====
-- Opening the envelope that the SDK seals.
use atome_fin_go_sdk.Base.{
  Dict, [], ℕ, ◌≤◌, ◌≡◌, ◌≢◌, refl, ◌∙◌, true, false, Option, none, some, List, ltb, length, Bytes,
  AreBytes, ◌>>=◌, arith, ==_iff,
}
use atome_fin_go_sdk.Encrypt.Body.{Ciphers}
use atome_fin_go_sdk.Encrypt.Body.RoundTrip.{AesLaws, decrypt_body-encrypt_body}
use atome_fin_go_sdk.Encrypt.Key.{drawn, random_aes_key, validate_aes_key}
use atome_fin_go_sdk.Encrypt.Key.Sampling.{random_aes_key-validate}
use atome_fin_go_sdk.Encrypt.Header.{build_encrypt_header, symmetric_key_from}
use atome_fin_go_sdk.Encrypt.Header.RoundTrip.{symmetric_key_from-build}
use atome_fin_go_sdk.Encrypt.Envelope.{
  Rsa, sealed, wrap_aes_key, unwrap_aes_key, seal, seal_with, marshal, open_with, unmarshal,
}

-- What the envelope relies on in the packages: AES and base64 invert, base64 writes bytes and writes
-- some for some, and RSA, under this randomness, wraps a 32-byte key so that the private key
-- recovers it.
pub record EnvelopeLaws {ℓ} {Public Private Random : Type ℓ} (rsa : Rsa Public Private Random)
    (lib : Ciphers) (public : Public) (private : Private) (random : Random) : Type ℓ where
  pub aes : (aes_key : Bytes) → AesLaws lib aes_key
  pub text : (s : Bytes) → AreBytes (lib.encode64 s)
  pub text_present : (s : Bytes) → s ≢ [] → lib.encode64 s ≢ []
  pub wraps :
      (aes_key : Bytes)
      → length aes_key ≡ 32
      → (c : Bytes) × (rsa.encrypt random public aes_key ≡ some c)
        × (rsa.decrypt private c ≡ some aes_key)
        × (c ≢ [])

key_length : (k : Bytes) → validate_aes_key k ≡ true → length k ≡ 32
unfolding validate_aes_key
key_length k h = (==_iff (length k) 32).0 (ground arith)

bind-bind :
    (m : Option (Dict Bytes)) (f : Dict Bytes → Option Bytes) (g : Bytes → Option Bytes) (b : Bytes)
    → (m >>= f) ≡ some b
    → (m >>= λ x. f x >>= g) ≡ g b
bind-bind none f g b h = cc
bind-bind (some kv) f g b h = rw h refl

module _ {ℓ} {Public Private Random : Type ℓ} (rsa : Rsa Public Private Random) (lib : Ciphers)
    (public : Public) (private : Private) (random : Random)
    (laws : EnvelopeLaws rsa lib public private random) (strong : 2048 ≤ rsa.public_bits public)
    (strong_private : 2048 ≤ rsa.private_bits private) where
  -- When crypto/rand has given a key, both moduli have at least 2048 bits and AES, base64 and RSA
  -- keep their laws, Marshal succeeds, and Unmarshal with the private key gives the body back.
  pub unmarshal-marshal :
      (reads : List (Option ℕ)) (aes_key plain : Bytes)
      → random_aes_key reads ≡ drawn aes_key
      → (header : Bytes) × (body : Bytes) × (marshal rsa lib reads random plain (some public)
          ≡ sealed header body)
        × (unmarshal rsa lib header body (some private) ≡ some plain)
  unfolding marshal seal_with seal wrap_aes_key unmarshal unwrap_aes_key open_with
  unmarshal-marshal reads aes_key plain h =
      let valid = random_aes_key-validate reads aes_key h in
      let size = key_length aes_key valid in
      let (body, encrypted, decrypted) =
        decrypt_body-encrypt_body lib aes_key plain (laws.aes aes_key) size in
      let (c, wrapped, unwrapped, present) = laws.wraps aes_key size in
      let weak : ltb (rsa.public_bits public) 2048 ≡ false = ground arith in
      let weak_private : ltb (rsa.private_bits private) 2048 ≡ false = ground arith in
      let decoded = (laws.aes aes_key).decode-encode c in
      let header =
        symmetric_key_from-build (lib.encode64 c) (laws.text c) (laws.text_present c present) in
      (
        build_encrypt_header (lib.encode64 c),
        body,
        rw (h, encrypted, weak, wrapped) refl,
        bind-bind _ symmetric_key_from _ (lib.encode64 c) header
            ∙ rw (weak_private, decoded, unwrapped, valid) decrypted,
      )
