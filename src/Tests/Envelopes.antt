-- ===== src/Tests/Envelopes.antt =====
-- atomefin/doer.go: an encrypted call, and a header that the options of a call set twice.
use atome_fin_go_sdk.Base.{
  [], ◌∷◌, ◌+◌, ◌≤◌, ◌≡◌, refl, inr, some, Bytes, codes, get, All, arith, bytes_eq,
}
use atome_fin_go_sdk.Client.Headers.{
  ExtraHeader, canonical_header_key, is_reserved_header, request_headers,
}
use atome_fin_go_sdk.Client.Headers.Extra.{request_headers-last}
use atome_fin_go_sdk.Client.Exchange.Outcomes.{attempts, sends, Sends}
use atome_fin_go_sdk.Client.Dispatch.{Trace, is_absolute, signed_request}
use atome_fin_go_sdk.Client.Encrypted.{
  encrypt_header_name, encrypt_option, post_of, do_encrypted_signed,
}
use atome_fin_go_sdk.Client.Encrypted.Opened.{do_encrypted_signed-opened}
use atome_fin_go_sdk.Encrypt.Envelope.{unmarshal}
use atome_fin_go_sdk.Tests.Requests.{client, world}
use atome_fin_go_sdk.Tests.Messages.{ciphers, rsa, laws, aes_key, reads, key_drawn}

abbrev trace_id : Bytes → ExtraHeader
trace_id value = record { key = codes "x-TRACE"; value = value }

request_headers-last_example :
    get (codes "X-Trace") (
      request_headers
        (codes "sig")
        (codes "sdk")
        (some (trace_id (codes "1")) ∷ some (trace_id (codes "2")) ∷ []))
    ≡ some (codes "2" ∷ [])
unfolding canonical_header_key is_reserved_header bytes_eq
request_headers-last_example =
    request_headers-last (codes "sig") (codes "sdk") (some (trace_id (codes "1")) ∷ [])
      (trace_id (codes "2")) refl

do_encrypted_signed-opened_example :
    (t : Trace) × (header : Bytes) × (body : Bytes) × (sig : Bytes) × (do_encrypted_signed rsa
        ciphers client world
        (codes "https://g")
        (some 2048)
        reads
        0
        (codes "POST")
        (codes "/credit-information")
        (codes "{}")
        (some (trace_id (codes "1")) ∷ [])
      ≡ some t)
    × (world.sign body ≡ inr sig)
    × (1 ≤ attempts t.1)
    × (attempts t.1 ≤ 3)
    × (sends t.1 + 1 ≡ attempts t.1 + 1)
    × All
        (Sends (
          signed_request client sig
            (some (trace_id (codes "1")) ∷ encrypt_option header ∷ [])
            (post_of (codes "https://g/credit-information") body)))
        t.1
    × (get encrypt_header_name
          (signed_request client sig
            (some (trace_id (codes "1")) ∷ encrypt_option header ∷ [])
            (post_of (codes "https://g/credit-information") body)).headers
        ≡ some (header ∷ []))
    × (unmarshal rsa ciphers header body (some 2048) ≡ some (codes "{}"))
unfolding is_absolute
do_encrypted_signed-opened_example =
    do_encrypted_signed-opened rsa ciphers 2048 2048 0 laws (omega arith) (omega arith) client world
      (omega arith) (codes "https://g") (codes "/credit-information") (codes "{}") aes_key reads
      (some (trace_id (codes "1")) ∷ []) refl key_drawn (λ s. (codes "sig", refl))
