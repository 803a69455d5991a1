-- ===== src/Encrypt/Body.antt =====
-- atomefin/encrypt/aes.go: the body under AES-256 in ECB mode, in base64.
pub mod RoundTrip
use atome_fin_go_sdk.Base.{
  [], ◌∷◌, ◌++◌, ℕ, zero, suc, ◌/◌, ◌%◌, ◌≡◌, ◌<◌, not, Option, none, some, ◌==◌, length, take,
  drop, if◌then◌else◌, Bytes, AreBytes,
}
use atome_fin_go_sdk.Encrypt.Padding.{pkcs5_pad, pkcs5_unpad}

-- Packages crypto/aes and encoding/base64.
pub record Ciphers : Type 0 where
  pub encode64 : Bytes → Bytes
  pub decode64 : Bytes → Option Bytes
  pub encrypt_block : (key block : Bytes) → Bytes
  pub decrypt_block : (key block : Bytes) → Bytes

-- `aes.BlockSize` and `aesKeyBytes`.
abbrev pub block_size : ℕ
block_size = 16

abbrev pub aes_key_bytes : ℕ
aes_key_bytes = 32

-- `for i := 0; i < len(in); i += bs`, over the given number of whole blocks.
unfoldable pub each_block : (Bytes → Bytes) → (blocks : ℕ) → Bytes → Bytes
each_block f zero s = []
each_block f (suc blocks) s = f (take block_size s) ++ each_block f blocks (drop block_size s)

module _ (lib : Ciphers) where
  -- `EncryptBody`; `none` is the error on a key of another length, the only one it returns.
  unfoldable pub encrypt_body : (plain key : Bytes) → Option Bytes
  unfolding each_block pkcs5_pad
  encrypt_body plain key =
      let padded = pkcs5_pad plain block_size in
      if not (length key == aes_key_bytes)
      then none
      else some
          (lib.encode64 (each_block (lib.encrypt_block key) (length padded / block_size) padded))

  decrypt_blocks : (key cipher : Bytes) → Option Bytes
  unfolding each_block pkcs5_unpad
  decrypt_blocks key cipher =
      if length cipher == 0
      then none
      else if not (length cipher % block_size == 0)
      then none
      else pkcs5_unpad (each_block (lib.decrypt_block key) (length cipher / block_size) cipher)
          block_size

  -- `DecryptBody`.
  unfoldable pub decrypt_body : (b64 key : Bytes) → Option Bytes
  unfolding decrypt_blocks
  decrypt_body b64 key =
      if not (length key == aes_key_bytes)
      then none
      else elim (lib.decode64 b64) [ none ↦ none | some cipher ↦ decrypt_blocks key cipher ]
