-- ===== src/Service.antt =====
-- What the services of the SDK share: a checked call of one endpoint, and the decoding of its
-- response. `decode` is json.Unmarshal into the endpoint's response type and `encode` is
-- atomefin.MarshalSigning of its request.
pub mod Outcomes
pub mod Fields
use atome_fin_go_sdk.Base.{
  [], ◌∷◌, ℕ, Bool, Option, none, some, List, ◌⊎◌, inl, inr, if◌then◌else◌, Bytes, String, codes,
  is_empty, le_zero,
}
use atome_fin_go_sdk.Errors.{invalid, Cause, Error, signature}
use atome_fin_go_sdk.Client.Exchange.{Client, World, Outcome, ok, err, Event, transport_error}
use atome_fin_go_sdk.Client.Dispatch.{Trace, do_signed, do_signed_get}
use atome_fin_go_sdk.Payment.Checks.{Check, ◌>>◌, reject, longer}
use atome_fin_go_sdk.Sign.Canonical.{Values}

-- What a method returns, and what it did.
abbrev pub Call : Type 0 → Type 0
Call T = (Error ⊎ T) × List Event

pub decode_result : {T : Type 0} → Bytes → Cause ⊎ T → Error ⊎ T
decode_result op (inl e) = inl (transport_error "unmarshal" op e Bool.false)
decode_result op (inr t) = inr t

-- After DoSigned or DoSignedGET: its error, or the response body decoded.
unfoldable pub decode_response : {T : Type 0} → Bytes → (Bytes → Cause ⊎ T) → Trace → Call T
unfolding decode_result
decode_response op decode (err e, events) = (inl e, events)
decode_response op decode (ok r, events) = (decode_result op (decode r.body), events)

module _ {T : Type 0} (c : Client) (w : World) (base_url op : Bytes)
    (decode : Bytes → Cause ⊎ T) where
  unfoldable pub get_call : Values → Call T
  get_call q = decode_response op decode (do_signed_get c w base_url op q [])

  unfoldable pub post_call : Cause ⊎ Bytes → Call T
  post_call (inl e) = (inl (signature "marshal" e), [])
  post_call (inr body) =
      decode_response op decode (do_signed c w base_url (codes "POST") op body [])

-- The request is validated before anything is sent.
unfoldable pub checked : {T : Type 0} → Check → Call T → Call T
checked none call = call
checked (some e) call = (inl e, [])

-- `if req.RequestID == "" { req.RequestID = s.c.NewRequestID() }`.
unfoldable pub request_id_or : (minted id : Bytes) → Bytes
request_id_or minted id = if is_empty id then minted else id

-- `url.Values.Set` with the value in place of the zero value.
unfoldable pub positive_or : (default n : ℕ) → ℕ
positive_or default n = if le_zero n then default else n

-- `if req == nil`, then the method on the request.
unfoldable pub requested :
    {Req : Type 0} {T : Type 0} → String → Option Req → (Req → Call T) → Call T
requested message none call = (inl (invalid "request" message), [])
requested message (some req) call = call req

-- A field that is required and has at most 64 bytes.
abbrev pub short_required : String → Bytes → Check
short_required field s = do
  reject (is_empty s) field "required"
  reject (longer s 64) field "exceeds spec maxlength 64"
