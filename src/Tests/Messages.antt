-- ===== src/Tests/Messages.antt =====
-- atomefin/callback and atomefin/encrypt: one signed callback, and an envelope over stand-ins for the
-- packages: block cipher and RSA that change nothing, and an encoding that counts each byte out.
use atome_fin_go_sdk.Base.{
  [], ◌∷◌, ◌++◌, ℕ, zero, suc, ◌+◌, ◌≤◌, ◌≡◌, ◌≢◌, ◌↔◌, refl, sym, ap, ◌∙◌, true, none, some,
  Option, List, Bytes, AreBytes, codes, replicate, length, bytes_eq, ◌==◌, ◌>>=◌, if◌then◌else◌,
  String, arith, add64,
}
use atome_fin_go_sdk.Callback.Verifier.{
  Verifier, verify, verify_hmac_time, ovo_hmac_canonical, milliseconds, in_window, sub64,
}
use atome_fin_go_sdk.Io.{read_all}
use atome_fin_go_sdk.Callback.Handler.{Inbound, Decoders, handle, read_limited}
use atome_fin_go_sdk.Callback.Handler.Verified.{handle-called_iff, handle-status_iff}
use atome_fin_go_sdk.Callback.Handler.Delivery.{IsDelivery}
use atome_fin_go_sdk.Encrypt.Body.{Ciphers, encrypt_body, decrypt_body}
use atome_fin_go_sdk.Encrypt.Body.RoundTrip.{AesLaws, decrypt_body-encrypt_body}
use atome_fin_go_sdk.Encrypt.Key.{drawn, pending, draw_key, random_aes_key, validate_aes_key}
use atome_fin_go_sdk.Encrypt.Key.Sampling.{
  random_aes_key-validate, random_aes_key-answers, accepted,
}
use atome_fin_go_sdk.Encrypt.Header.{build_encrypt_header, parse_encrypt_header, symmetric_key_from}
use atome_fin_go_sdk.Encrypt.Header.RoundTrip.{symmetric_key_from-build}
use atome_fin_go_sdk.Encrypt.Envelope.{Rsa, sealed, marshal, unmarshal}
use atome_fin_go_sdk.Encrypt.Envelope.RoundTrip.{EnvelopeLaws, unmarshal-marshal}

abbrev verifier : Verifier
verifier = record {
  verifiers = (λ body sig. bytes_eq sig body) ∷ [];
  body_limit = 100;
  now_ms = 1700000000000;
  hmac_client_id = codes "ovo";
  hmac_clock_skew = 300000000000;
}

abbrev inbound : Inbound
inbound = record {
  method = codes "POST";
  request_uri = codes "/cb";
  authorization = [];
  client_id = codes "ovo";
  time = codes "1700000000001";
  signature = codes "ovo1700000000001POST /cb{}";
  body = some (record { bytes = codes "{}"; fault = none });
}

abbrev decoders : Decoders Bytes
decoders = record { parse_int = λ s. some 1700000000001; raw64 = λ s. s; decode = λ s. some s }

abbrev accept : Bytes → Option String
accept event = none

handle-called_iff_example :
    ((handle decoders (some verifier) (some accept) inbound).called ≡ some (codes "{}"))
    ↔ IsDelivery decoders verifier inbound (codes "{}")
handle-called_iff_example =
    handle-called_iff decoders verifier accept inbound (λ e. absurd (omega (arith, e)))
      (omega arith) (codes "{}")

delivered : (handle decoders (some verifier) (some accept) inbound).called ≡ some (codes "{}")
unfolding handle read_limited read_all add64 verify verify_hmac_time in_window milliseconds
    ovo_hmac_canonical bytes_eq sub64
delivered = refl

-- A positive window below a millisecond lets only the same millisecond through.
outside_window :
    (handle decoders
      (some (record verifier { hmac_clock_skew = 999999 }))
      (some accept)
      inbound).status
    ≡ 401
unfolding handle read_limited read_all add64 verify verify_hmac_time in_window milliseconds
    ovo_hmac_canonical bytes_eq
outside_window = refl

handle-status_iff_example :
    ((handle decoders (some verifier) (some accept) inbound).status ≡ 200)
    ↔ ((event : Bytes) × IsDelivery decoders verifier inbound event × (accept event ≡ none))
handle-status_iff_example =
    handle-status_iff decoders verifier accept inbound (λ e. absurd (omega (arith, e)))
      (omega arith)

-- Each byte as that many `a`, and a `b`.
pub counted : Bytes → Bytes
counted [] = b'c' ∷ []
counted (n ∷ s) = replicate n b'a' ++ b'b' ∷ counted s

-- Reads a counted string; a `c` ends it.
pub count_from : ℕ → Bytes → Option Bytes
count_from n [] = none
count_from n (c ∷ s) =
    let more = count_from (suc n) s in
    let next = count_from zero s in
    if c == b'a' then more else if c == b'b' then (next >>= λ t. some (n ∷ t)) else some []

count_from-replicate :
    (m n : ℕ) (s : Bytes)
    → count_from m (replicate n b'a' ++ b'b' ∷ s) ≡ (count_from zero s >>= λ t. some ((n + m) ∷ t))
unfolding count_from
count_from-replicate m zero s =
    ap (λ k. count_from zero s >>= λ t. some (k ∷ t)) (let e : m ≡ zero + m = omega arith in e)
count_from-replicate m (suc n) s =
    count_from-replicate (suc m) n s
    ∙ ap (λ k. count_from zero s >>= λ t. some (k ∷ t))
        (let e : n + suc m ≡ suc n + m = omega arith in e)

count_from-counted : (s : Bytes) → count_from zero (counted s) ≡ some s
unfolding counted
count_from-counted [] = unfold count_from in refl
count_from-counted (n ∷ s) =
    count_from-replicate zero n (counted s)
    ∙ rw (count_from-counted s) (ap (λ k. some (k ∷ s)) (let e : n + zero ≡ n = omega arith in e))

replicate-AreBytes : (n : ℕ) (t : Bytes) → AreBytes t → AreBytes (replicate n b'a' ++ b'b' ∷ t)
replicate-AreBytes zero t h = (omega arith, h)
replicate-AreBytes (suc n) t h = (omega arith, replicate-AreBytes n t h)

counted-AreBytes : (s : Bytes) → AreBytes (counted s)
unfolding counted
counted-AreBytes [] = (omega arith, tt)
counted-AreBytes (n ∷ s) = replicate-AreBytes n (counted s) (counted-AreBytes s)

counted_present : (s : Bytes) → counted s ≢ []
unfolding count_from
counted_present s e = let h = ap (count_from zero) (sym e) ∙ count_from-counted s in cc

abbrev pub ciphers : Ciphers
ciphers = record {
  encode64 = counted;
  decode64 = count_from zero;
  encrypt_block = λ key b. b;
  decrypt_block = λ key b. b;
}

aes_laws : (key : Bytes) → AesLaws ciphers key
aes_laws key = record {
  decode-encode = count_from-counted;
  block_length = λ b h. h;
  decrypt-encrypt = λ b h. refl;
}

abbrev pub rsa : Rsa ℕ ℕ ℕ
rsa = record {
  public_bits = λ n. n;
  private_bits = λ n. n;
  encrypt = λ r n m. some m;
  decrypt = λ n m. some m;
}

long_present : (s : Bytes) → length s ≡ 32 → s ≢ []
long_present [] h e = absurd (omega arith)
long_present (c ∷ s) h e = cc

pub laws : EnvelopeLaws rsa ciphers 2048 2048 0
laws = record {
  aes = aes_laws;
  text = counted-AreBytes;
  text_present = λ s h. counted_present s;
  wraps = λ k h. (k, refl, refl, long_present k h);
}

abbrev pub aes_key : Bytes
aes_key = replicate 32 b'C'

-- 32 reads of the byte 28, which is the letter C.
abbrev pub reads : List (Option ℕ)
reads = replicate 32 (some 28)

pub key_drawn : random_aes_key reads ≡ drawn aes_key
unfolding random_aes_key draw_key
key_drawn = refl

unmarshal-marshal_example :
    (header : Bytes) × (body : Bytes) × (marshal rsa ciphers reads 0 (codes "{}") (some 2048)
      ≡ sealed header body)
    × (unmarshal rsa ciphers header body (some 2048) ≡ some (codes "{}"))
unmarshal-marshal_example =
    unmarshal-marshal rsa ciphers 2048 2048 0 laws (omega arith) (omega arith) reads aes_key
      (codes "{}") key_drawn

decrypt_body-encrypt_body_example :
    (b64 : Bytes) × (encrypt_body ciphers (codes "{}") aes_key ≡ some b64)
    × (decrypt_body ciphers b64 aes_key ≡ some (codes "{}"))
decrypt_body-encrypt_body_example =
    decrypt_body-encrypt_body ciphers aes_key (codes "{}") (aes_laws aes_key) refl

symmetric_key_from-build_example :
    (parse_encrypt_header (build_encrypt_header (codes "a+b=")) >>= symmetric_key_from)
    ≡ some (codes "a+b=")
symmetric_key_from-build_example =
    symmetric_key_from-build (codes "a+b=")
      (omega arith, (omega arith, (omega arith, (omega arith, tt)))) (λ e. cc)

random_aes_key-validate_example : validate_aes_key aes_key ≡ true
random_aes_key-validate_example = random_aes_key-validate reads aes_key key_drawn

enough_reads : 32 ≤ accepted reads
unfolding accepted
enough_reads = omega arith

random_aes_key-answers_example : random_aes_key reads ≢ pending
random_aes_key-answers_example = random_aes_key-answers reads enough_reads
