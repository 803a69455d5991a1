-- ===== src/Errors.antt =====
-- atomefin/errors.go: the typed errors of the SDK. An error of Go's libraries is kept as what the
-- SDK asks of it: `errors.Is` for the context errors and the size limit, `errors.As` for net.Error.
-- A message with arguments is kept as its format with the arguments.
pub mod Laws
use atome_fin_go_sdk.Base.{
  [], ℕ, Bool, true, false, ◌||◌, ◌&&◌, Option, none, some, ◌==◌, if◌then◌else◌, Bytes, String,
  codes, bytes_eq, is_empty,
}

pub record Cause : Type 0 where
  pub canceled : Bool
  pub deadline_exceeded : Bool
  -- The answer of `Timeout()` where the error is a net.Error.
  pub net_error : Option Bool
  pub too_large : Bool
  pub text : Bytes

pub data Message : Type 0 where
  text : String → Message
  below_minimum : (minimum period : ℕ) → Message
  below_tenor_minimum : (minimum period : ℕ) → Message
  exactly_one_entry : (order_type : Bytes) → Message
  at_most_one_entry : (order_type : Bytes) → Message
  required_for : (scenario : Bytes) → Message
  required_for_capture : (order_type : Bytes) → Message

pub record ApiError : Type 0 where
  pub http_status : ℕ
  pub code : Bytes
  pub message : Bytes
  pub request_id : Bytes
  pub endpoint : Bytes
  pub raw : Bytes

pub record TransportError : Type 0 where
  pub op : String
  pub url : Bytes
  pub err : Cause
  pub retry : Bool

pub record ValidationError : Type 0 where
  pub field : String
  pub message : Message

pub record RejectionError : Type 0 where
  pub code : Bytes
  pub message : Bytes

-- Go's `error`: the typed errors, and an untyped one.
pub data Error : Type 0 where
  api : ApiError → Error
  transport : TransportError → Error
  signature : (reason : String) (err : Cause) → Error
  validation : ValidationError → Error
  rejection : RejectionError → Error
  untyped : Cause → Error

abbrev pub invalid : String → String → Error
invalid field message = validation (record { field = field; message = text message })

-- A plain error of the SDK with a fixed text.
abbrev pub plain_cause : String → Cause
plain_cause message = record {
  canceled = false;
  deadline_exceeded = false;
  net_error = none;
  too_large = false;
  text = codes message;
}

unfoldable pub is_server_status : ℕ → Bool
is_server_status status = status == 500 || status == 502 || status == 503 || status == 504

unfoldable pub api_temporary : ApiError → Bool
unfolding is_server_status
api_temporary e =
    if bytes_eq e.code (codes "SERVER_ERROR") then true else is_server_status e.http_status

unfoldable pub is_signature : ApiError → Bool
is_signature e = e.http_status == 401 && bytes_eq e.code (codes "INVALID_SIGNATURE")

-- `Temporary()`; an untyped error has no such method.
unfoldable pub temporary : Error → Option Bool
unfolding api_temporary
temporary (api e) = some (api_temporary e)
temporary (transport e) = some e.retry
temporary (signature reason err) = some false
temporary (validation e) = some false
temporary (rejection e) = some false
temporary (untyped c) = none

is_probably_transient : Cause → Bool
is_probably_transient c = true

timeout_or_transient : Cause → Option Bool → Bool
unfolding is_probably_transient
timeout_or_transient c (some timeout) = timeout || is_probably_transient c
timeout_or_transient c none = true

-- `IsRetryableTransport` of an error that is not nil.
unfoldable pub is_retryable_transport : Cause → Bool
unfolding timeout_or_transient
is_retryable_transport c =
    if c.canceled
    then false
    else if c.deadline_exceeded
    then true
    else timeout_or_transient c c.net_error

-- The fields that `errorEnvelope` takes from a body.
pub record Envelope : Type 0 where
  pub code : Bytes
  pub message : Bytes
  pub request_id : Bytes

fill : ApiError → Option Envelope → ApiError
fill e none = e
fill e (some env) = record e { code = env.code; message = env.message; request_id = env.request_id }

-- `decodeAPIError`; `decode` is json.Unmarshal into an envelope.
unfoldable pub decode_api_error : (Bytes → Option Envelope) → ℕ → Bytes → Bytes → ApiError
unfolding fill
decode_api_error decode status endpoint body =
    let e : ApiError = record {
      http_status = status;
      code = [];
      message = [];
      request_id = [];
      endpoint = endpoint;
      raw = body;
    } in
    if is_empty body then e else fill e (decode body)
