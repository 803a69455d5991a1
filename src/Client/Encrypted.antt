-- ===== src/Client/Encrypted.antt =====
-- atomefin/doer.go: DoEncryptedSigned, which seals the body, signs what it sealed and sends it with
-- the header that carries the wrapped key.
pub mod Opened
use atome_fin_go_sdk.Base.{
  Bool, [], ◌∷◌, ◌++◌, ℕ, not, Option, none, some, List, if◌then◌else◌, Bytes, codes, bytes_eq,
}
use atome_fin_go_sdk.Errors.{invalid, plain_cause}
use atome_fin_go_sdk.Client.Headers.{ExtraHeader}
use atome_fin_go_sdk.Client.Exchange.{Client, World, Request, err, transport_error}
use atome_fin_go_sdk.Client.Dispatch.{Trace, is_absolute, sign_and_dispatch}
use atome_fin_go_sdk.Encrypt.Body.{Ciphers}
use atome_fin_go_sdk.Encrypt.Envelope.{Rsa, Marshalled, sealed, refused, waiting, marshal}

abbrev pub encrypt_header_name : Bytes
encrypt_header_name = codes "Encrypt"

abbrev pub encrypt_option : Bytes → Option ExtraHeader
encrypt_option header = some (record { key = encrypt_header_name; value = header })

abbrev pub post_of : (url body : Bytes) → Request
post_of url body = record {
  method = codes "POST";
  url = url;
  query = [];
  body = body;
  headers = [];
}

module _ {Public Private Random : Type 0} (rsa : Rsa Public Private Random) (lib : Ciphers)
    (c : Client) (w : World) (base_url : Bytes) where
  -- After encrypt.Marshal; `none` where the randomness given here does not make up a key.
  dispatch_sealed : (path : Bytes) → List (Option ExtraHeader) → Marshalled → Option Trace
  dispatch_sealed path opts (sealed header body) = some (
      sign_and_dispatch c w path (base_url ++ path) body (opts ++ encrypt_option header ∷ [])
        (post_of (base_url ++ path) body))
  dispatch_sealed path opts refused = some (
    err (transport_error "encrypt" path (plain_cause "hybrid-encrypt request body") Bool.false),
    [],
  )
  dispatch_sealed path opts waiting = none

  -- `DoEncryptedSigned` on a client that is not nil; `public` is its encryption key, which may be
  -- missing.
  unfoldable pub do_encrypted_signed :
      (public : Option Public)
      → (reads : List (Option ℕ)) → Random
      → (method path plain : Bytes) → List (Option ExtraHeader)
      → Option Trace
  unfolding dispatch_sealed
  do_encrypted_signed none reads random method path plain opts = some (
    err (
        invalid "encryptAtomePublicCert"
          "WithEncryptAtomePublicCertPEM is required for endpoints with the Encrypt: header (today /query-user-tag, /credit-information, and /credit-application)"),
    [],
  )
  do_encrypted_signed (some public) reads random method path plain opts =
      if not (bytes_eq method (codes "POST"))
      then some (err (invalid "method" "DoEncryptedSigned is POST-only"), [])
      else if not (is_absolute path)
      then some (err (invalid "path" "path must be absolute (start with '/')"), [])
      else dispatch_sealed path opts (marshal rsa lib reads random plain (some public))
