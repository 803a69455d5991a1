-- ===== src/Encrypt/Key.antt =====
-- atomefin/encrypt/key.go: AES keys of 32 letters A to Z.
pub mod Sampling
use atome_fin_go_sdk.Base.{
  [], ◌∷◌, ◌++◌, ℕ, zero, suc, ◌+◌, ◌%◌, Bool, not, ◌&&◌, Option, none, some, List, ◌==◌, leb, ltb,
  length, if◌then◌else◌, Bytes, all, Dict,
}
use atome_fin_go_sdk.Encrypt.Body.{aes_key_bytes}

-- `AESKeyAlphabetSize` and `aesKeyAlphabetCutoff`.
abbrev pub alphabet_size : ℕ
alphabet_size = 26

abbrev pub alphabet_cutoff : ℕ
alphabet_cutoff = 234

-- The outcome of drawing a key from finitely many reads of crypto/rand: `pending` where the loop
-- asks for a further read.
pub data Drawn : Type 0 where
  drawn : Bytes → Drawn
  failed pending : Drawn

abbrev letter : ℕ → ℕ
letter one = b'A' + one % alphabet_size

also : ℕ → Drawn → Drawn
also c (drawn s) = drawn (c ∷ s)
also c failed = failed
also c pending = pending

-- `RandomAESKey`, with `left` bytes to draw: a read is one byte or an error.
unfoldable pub draw_key : (left : ℕ) → (reads : List (Option ℕ)) → Drawn
unfolding also
draw_key zero reads = drawn []
draw_key (suc left) [] = pending
draw_key (suc left) (none ∷ reads) = failed
draw_key (suc left) (some one ∷ reads) =
    let next = draw_key left reads in
    let again = draw_key (suc left) reads in
    if ltb one alphabet_cutoff then also (letter one) next else again

unfoldable pub random_aes_key : List (Option ℕ) → Drawn
unfolding draw_key
random_aes_key reads = draw_key aes_key_bytes reads

abbrev pub is_letter : ℕ → Bool
is_letter c = leb b'A' c && leb c b'Z'

-- `ValidateAESKey`: true for the nil error.
unfoldable pub validate_aes_key : Bytes → Bool
validate_aes_key key = length key == aes_key_bytes && all is_letter key
