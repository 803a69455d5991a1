-- ===== src/Encrypt/Padding/RoundTrip.antt =====
-- Padding against unpadding, for block sizes that fit a byte.
use native.Mathlib.Nat.{mul-suc, mod-lt, mod-add-div, mul-mod_right}
use atome_fin_go_sdk.Base.{
  ltb, false, sym, [], ◌∷◌, ◌++◌, ℕ, ◌+◌, ◌*◌, ◌/◌, ◌-◌, ◌%◌, ◌<◌, ◌≤◌, ◌≡◌, refl, ap, ◌∙◌, suc,
  zero, some, ◌==◌, length, length-append, length-replicate, take-length, drop-length, replicate,
  Bytes, bytes_eq_refl, arith,
}
use atome_fin_go_sdk.Encrypt.Padding.{last_byte, pkcs5_pad, pkcs5_unpad}

last_byte-append : (s : Bytes) (c : ℕ) (t : Bytes) → last_byte (s ++ c ∷ t) ≡ last_byte (c ∷ t)
unfolding last_byte
last_byte-append [] c t = refl
last_byte-append (d ∷ []) c t = refl
last_byte-append (d ∷ e ∷ s) c t = last_byte-append (e ∷ s) c t

last_byte-replicate : (n c : ℕ) → last_byte (replicate (suc n) c) ≡ c
unfolding last_byte
last_byte-replicate zero c = refl
last_byte-replicate (suc n) c = last_byte-replicate n c

last_byte-padded : (s : Bytes) (n c : ℕ) → 0 < n → last_byte (s ++ replicate n c) ≡ c
last_byte-padded s zero c h = absurd (omega arith)
last_byte-padded s (suc n) c h = last_byte-append s c (replicate n c) ∙ last_byte-replicate n c

-- The padding that completes the last block.
pad_length :
    (n block_size : ℕ)
    → 0 < block_size
    → (0 < block_size - n % block_size)
      × (block_size - n % block_size ≤ block_size)
      × (n + (block_size - n % block_size) ≡ block_size * suc (n / block_size))
pad_length n block_size h =
    let small = mod-lt n h in
    let whole = mod-add-div n block_size in
    let step = mul-suc block_size (n / block_size) in
    (omega (arith, small), omega arith, omega (arith, small, whole, step))

-- The padded length is the next multiple of the block size.
pub length-pkcs5_pad :
    (s : Bytes) (block_size : ℕ)
    → 0 < block_size
    → length (pkcs5_pad s block_size) ≡ block_size * suc (length s / block_size)
unfolding pkcs5_pad
length-pkcs5_pad s block_size h =
    let n = block_size - length s % block_size in
    length-append s (replicate n (n % 256))
    ∙ ap (λ m. length s + m) (length-replicate n (n % 256))
    ∙ (pad_length (length s) block_size h).2

module _ (s : Bytes) (n block_size : ℕ) (p : 0 < n) (q : n ≤ block_size)
    (small : block_size < 256) where
  full_length : length (s ++ replicate n n) ≡ length s + n
  full_length = length-append s (replicate n n) ∙ ap (λ m. length s + m) (length-replicate n n)

  kept_length : length (s ++ replicate n n) - n ≡ length s
  kept_length = omega (arith, full_length)

  low_byte : n % 256 ≡ n
  low_byte = omega arith

  unpad-replicate :
      length (s ++ replicate n n) % block_size ≡ 0
      → pkcs5_unpad (s ++ replicate n n) block_size ≡ some s
  unfolding pkcs5_unpad
  unpad-replicate whole =
      let long : (length (s ++ replicate n n) == 0) ≡ false = ground (arith, full_length) in
      let positive : (n == 0) ≡ false = ground arith in
      let fits : ltb block_size n ≡ false = ground arith in
      rw
        (
          last_byte-padded s n n p,
          long,
          whole,
          positive,
          fits,
          kept_length,
          low_byte,
          drop-length s (replicate n n),
          take-length s (replicate n n),
          bytes_eq_refl (replicate n n),
        )
        refl

-- For a block size from 1 to 255, unpadding what was padded gives the input back.
pub pkcs5_unpad-pkcs5_pad :
    (s : Bytes) (block_size : ℕ)
    → 0 < block_size
    → block_size < 256
    → pkcs5_unpad (pkcs5_pad s block_size) block_size ≡ some s
pkcs5_unpad-pkcs5_pad s block_size h k =
    let n = block_size - length s % block_size in
    let (p, q, e) = pad_length (length s) block_size h in
    let low : n % 256 ≡ n = omega arith in
    let whole : length (pkcs5_pad s block_size) % block_size ≡ 0 =
      ap (λ m. m % block_size) (length-pkcs5_pad s block_size h)
      ∙ mul-mod_right block_size (suc (length s / block_size)) in
    let plain : pkcs5_pad s block_size ≡ s ++ replicate n n =
      unfold pkcs5_pad in ap (λ c. s ++ replicate n c) low in
    ap (λ t. pkcs5_unpad t block_size) plain
    ∙ unpad-replicate s n block_size p q k (ap (λ t. length t % block_size) (sym plain) ∙ whole)
