-- ===== src/Client/Encrypted/Opened.antt =====
-- What an encrypted call sends can be opened with the private key.
use atome_fin_go_sdk.Base.{
  subst, [], ◌∷◌, ◌++◌, ℕ, ◌+◌, ◌≤◌, ◌≡◌, refl, inr, true, false, Option, some, List, Bytes, codes,
  get, All, bytes_eq,
}
use atome_fin_go_sdk.Client.Headers.{
  ExtraHeader, canonical_header_key, is_reserved_header, request_headers,
}
use atome_fin_go_sdk.Client.Headers.Extra.{request_headers-last}
use atome_fin_go_sdk.Client.Exchange.{Client, World}
use atome_fin_go_sdk.Client.Exchange.Outcomes.{attempts, sends, sends_if_built, Sends}
use atome_fin_go_sdk.Client.Dispatch.{Trace, is_absolute, signed_request, sign_and_dispatch}
use atome_fin_go_sdk.Client.Dispatch.Requests.{requests_bounded}
use atome_fin_go_sdk.Client.Encrypted.{
  encrypt_header_name, encrypt_option, post_of, dispatch_sealed, do_encrypted_signed,
}
use atome_fin_go_sdk.Encrypt.Body.{Ciphers}
use atome_fin_go_sdk.Encrypt.Key.{drawn, random_aes_key}
use atome_fin_go_sdk.Encrypt.Envelope.{Rsa, unmarshal}
use atome_fin_go_sdk.Encrypt.Envelope.RoundTrip.{EnvelopeLaws, unmarshal-marshal}

canonical_encrypt : canonical_header_key encrypt_header_name ≡ encrypt_header_name
unfolding canonical_header_key
canonical_encrypt = refl

encrypt_free : is_reserved_header encrypt_header_name ≡ false
unfolding is_reserved_header canonical_header_key bytes_eq
encrypt_free = refl

-- The Encrypt header of the call is the one it was sealed with.
encrypt_header_sent :
    (auth user_agent header : Bytes) (opts : List (Option ExtraHeader))
    → get encrypt_header_name (request_headers auth user_agent (opts ++ encrypt_option header ∷ []))
      ≡ some (header ∷ [])
encrypt_header_sent auth user_agent header opts =
    subst
      (λ k.
        get k (request_headers auth user_agent (opts ++ encrypt_option header ∷ []))
        ≡ some (header ∷ []))
      canonical_encrypt
      (request_headers-last auth user_agent opts
        (record { key = encrypt_header_name; value = header }) encrypt_free)

module _ {Public Private Random : Type 0} (rsa : Rsa Public Private Random) (lib : Ciphers)
    (public : Public) (private : Private) (random : Random)
    (laws : EnvelopeLaws rsa lib public private random) (strong : 2048 ≤ rsa.public_bits public)
    (strong_private : 2048 ≤ rsa.private_bits private) (c : Client) (w : World)
    (positive : 1 ≤ c.max_attempts) where
  -- Where crypto/rand has given a key, both moduli have at least 2048 bits, AES, base64 and RSA keep
  -- their laws, the signer signs, MaxAttempts is at least 1 and the path is absolute, an encrypted
  -- call makes between one and MaxAttempts attempts. Each sends one request, but the last sends none
  -- where its request cannot be built. All requests are the same: their body is the sealed one, the
  -- signature is over that body, and Unmarshal with their one Encrypt header, their body and the
  -- private key gives the plain body, whatever the options of the call.
  pub do_encrypted_signed-opened :
      (base_url path plain aes_key : Bytes) (reads : List (Option ℕ))
      (opts : List (Option ExtraHeader))
      → is_absolute path ≡ true
      → random_aes_key reads ≡ drawn aes_key
      → ((s : Bytes) → (sig : Bytes) × (w.sign s ≡ inr sig))
      → (t : Trace) × (header : Bytes) × (body : Bytes) × (sig : Bytes) × (do_encrypted_signed rsa
            lib c w base_url
            (some public)
            reads
            random
            (codes "POST")
            path
            plain
            opts
          ≡ some t)
        × (w.sign body ≡ inr sig)
        × (1 ≤ attempts t.1)
        × (attempts t.1 ≤ c.max_attempts)
        × (sends t.1 + 1 ≡ attempts t.1 + sends_if_built (w.build_error (attempts t.1)))
        × All
            (Sends (
              signed_request c sig
                (opts ++ encrypt_option header ∷ [])
                (post_of (base_url ++ path) body)))
            t.1
        × (get encrypt_header_name
              (signed_request c sig
                (opts ++ encrypt_option header ∷ [])
                (post_of (base_url ++ path) body)).headers
            ≡ some (header ∷ []))
        × (unmarshal rsa lib header body (some private) ≡ some plain)
  unfolding do_encrypted_signed dispatch_sealed signed_request bytes_eq
  do_encrypted_signed-opened base_url path plain aes_key reads opts absolute key signer =
      let (header, body, sealing, opening) =
        unmarshal-marshal rsa lib public private random laws strong strong_private reads aes_key
          plain key in
      let (sig, signed) = signer body in
      let (once, within, sends_each, same) =
        requests_bounded c w path (base_url ++ path) body (opts ++ encrypt_option header ∷ [])
          (post_of (base_url ++ path) body) positive signed in
      (
        sign_and_dispatch c w path (base_url ++ path) body (opts ++ encrypt_option header ∷ [])
            (post_of (base_url ++ path) body),
        header,
        body,
        sig,
        rw (absolute, sealing) refl,
        signed,
        once,
        within,
        sends_each,
        same,
        encrypt_header_sent (c.auth_scheme sig c.key_id) c.user_agent header opts,
        opening,
      )
