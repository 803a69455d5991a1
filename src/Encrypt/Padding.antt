-- ===== src/Encrypt/Padding.antt =====
-- atomefin/encrypt/aes.go: PKCS5 padding.
pub mod RoundTrip
use atome_fin_go_sdk.Base.{
  [], ◌∷◌, ◌++◌, ℕ, ◌-◌, ◌%◌, ◌||◌, not, Option, none, some, ◌==◌, ltb, length, take, drop,
  replicate, if◌then◌else◌, Bytes, bytes_eq,
}

-- `in[len(in)-1]`, read only where the input is not empty.
unfoldable pub last_byte : Bytes → ℕ
last_byte [] = 0
last_byte (c ∷ []) = c
last_byte (c ∷ d ∷ s) = last_byte (d ∷ s)

-- `pkcs5Pad`; `byte(padLen)` keeps the low byte.
unfoldable pub pkcs5_pad : Bytes → (block_size : ℕ) → Bytes
pkcs5_pad s block_size =
    let pad_len = block_size - length s % block_size in s ++ replicate pad_len (pad_len % 256)

-- `pkcs5Unpad`.
unfoldable pub pkcs5_unpad : Bytes → (block_size : ℕ) → Option Bytes
unfolding last_byte
pkcs5_unpad s block_size =
    let pad_len = last_byte s in
    let kept = length s - pad_len in
    if length s == 0 || not (length s % block_size == 0)
    then none
    else if pad_len == 0 || ltb block_size pad_len
    then none
    else if not (bytes_eq (drop kept s) (replicate pad_len (pad_len % 256)))
    then none
    else some (take kept s)
