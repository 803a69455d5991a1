-- ===== src/Encrypt/Body/RoundTrip.antt =====
-- Decrypting what was encrypted with the same key.
use atome_fin_go_sdk.Base.{
  false, ==_iff, [], ◌∷◌, ◌++◌, ℕ, ◌*◌, ◌/◌, ◌%◌, ◌≡◌, refl, ap, ◌∙◌, sym, suc, zero, true, some,
  ◌==◌, length, length-append, length-take, length-drop, take, drop, take-length, drop-length,
  take-append-drop, Bytes, arith,
}
use atome_fin_go_sdk.Encrypt.Padding.{pkcs5_pad}
use atome_fin_go_sdk.Encrypt.Padding.RoundTrip.{length-pkcs5_pad, pkcs5_unpad-pkcs5_pad}
use atome_fin_go_sdk.Encrypt.Body.{Ciphers, each_block, decrypt_blocks, encrypt_body, decrypt_body}

-- What the envelope relies on in crypto/aes and encoding/base64, for one key.
pub record AesLaws (lib : Ciphers) (key : Bytes) : Type 0 where
  pub decode-encode : (s : Bytes) → lib.decode64 (lib.encode64 s) ≡ some s
  pub block_length : (b : Bytes) → length b ≡ 16 → length (lib.encrypt_block key b) ≡ 16
  pub decrypt-encrypt :
      (b : Bytes) → length b ≡ 16 → lib.decrypt_block key (lib.encrypt_block key b) ≡ b

module _ (f g : Bytes → Bytes) (keeps : (b : Bytes) → length b ≡ 16 → length (f b) ≡ 16) where
  first_block : (n : ℕ) (s : Bytes) → length s ≡ 16 * suc n → length (take 16 s) ≡ 16
  first_block n s h = omega (arith, length-take 16 s)

  length-each_block : (n : ℕ) (s : Bytes) → length s ≡ 16 * n → length (each_block f n s) ≡ 16 * n
  unfolding each_block
  length-each_block zero s h = refl
  length-each_block (suc n) s h = omega (
    arith,
    length-append (f (take 16 s)) (each_block f n (drop 16 s)),
    keeps (take 16 s) (first_block n s h),
    length-each_block n (drop 16 s) (omega (arith, length-drop 16 s)),
  )

  each_block-each_block :
      ((b : Bytes) → length b ≡ 16 → g (f b) ≡ b)
      → (n : ℕ) (s : Bytes) → length s ≡ 16 * n
      → each_block g n (each_block f n s) ≡ s
  unfolding each_block
  each_block-each_block inv zero [] h = refl
  each_block-each_block inv zero (c ∷ s) h = absurd (omega arith)
  each_block-each_block inv (suc n) s h =
      let b = f (take 16 s) in
      let rest = each_block f n (drop 16 s) in
      let sixteen = keeps (take 16 s) (first_block n s h) in
      let heads : take 16 (b ++ rest) ≡ b =
        ap (λ m. take m (b ++ rest)) (sym sixteen) ∙ take-length b rest in
      let tails : drop 16 (b ++ rest) ≡ rest =
        ap (λ m. drop m (b ++ rest)) (sym sixteen) ∙ drop-length b rest in
      let left = ap g heads ∙ inv (take 16 s) (first_block n s h) in
      let right =
        ap (each_block g n) tails
        ∙ each_block-each_block inv n (drop 16 s) (omega (arith, length-drop 16 s)) in
      rw (left, right) (take-append-drop 16 s)

-- With a 32-byte key, encrypting succeeds, and decrypting the result with the same key gives the
-- body back, when base64 and the block cipher invert for that key.
pub decrypt_body-encrypt_body :
    (lib : Ciphers) (key plain : Bytes)
    → AesLaws lib key
    → length key ≡ 32
    → (b64 : Bytes) × (encrypt_body lib plain key ≡ some b64)
      × (decrypt_body lib b64 key ≡ some plain)
unfolding encrypt_body decrypt_body decrypt_blocks
decrypt_body-encrypt_body lib key plain laws h =
    let padded = pkcs5_pad plain 16 in
    let n = suc (length plain / 16) in
    let whole : length padded ≡ 16 * n = length-pkcs5_pad plain 16 (omega arith) in
    let blocks : length padded / 16 ≡ n = omega (arith, whole) in
    let cipher = each_block (lib.encrypt_block key) n padded in
    let size : length cipher ≡ 16 * n =
      length-each_block (lib.encrypt_block key) (lib.decrypt_block key) laws.block_length n padded
        whole in
    let inverse : each_block (lib.decrypt_block key) n cipher ≡ padded =
      each_block-each_block (lib.encrypt_block key) (lib.decrypt_block key) laws.block_length
        laws.decrypt-encrypt n padded whole in
    let key_ok : (length key == 32) ≡ true = (==_iff (length key) 32).1 h in
    let some_blocks : (length cipher == 0) ≡ false = ground (arith, size) in
    let all_blocks : (length cipher % 16 == 0) ≡ true = ground (arith, size) in
    let count : length cipher / 16 ≡ n = omega (arith, size) in
    (
      lib.encode64 cipher,
      rw (key_ok, blocks) refl,
      rw (key_ok, laws.decode-encode cipher, some_blocks, all_blocks, count, inverse)
          (pkcs5_unpad-pkcs5_pad plain 16 (omega arith) (omega arith)),
    )
