-- ===== src/Callback/Handler.antt =====
-- atomefin/callback/handler.go: the http.Handler behind every callback.
pub mod Checked
pub mod Reading
pub mod Delivery
pub mod Verified
use atome_fin_go_sdk.Base.{
  [], ◌∷◌, ℕ, not, ◌||◌, Bool, Option, none, some, is_empty, if◌then◌else◌, length, Bytes, bytes_eq,
  codes, String, add64, le_zero, lt64,
}
use atome_fin_go_sdk.Errors.{Cause}
use atome_fin_go_sdk.Io.{Body, Read, got, broken, read_all}
use atome_fin_go_sdk.Callback.Verifier.{Verifier, verify, verify_hmac_time, ovo_hmac_canonical}

-- What the handler reads of an http.Request; the headers are those that Header.Get returns, and the
-- body may be nil.
pub record Inbound : Type 0 where
  pub method : Bytes
  pub request_uri : Bytes
  pub authorization : Bytes
  pub client_id : Bytes
  pub time : Bytes
  pub signature : Bytes
  pub body : Option Body

-- The acknowledgements, with the reasons of their messages.
pub data Reason : Type 0 where
  missing_verifier missing_function not_allowed missing_body too_large undecodable : Reason
  read_failed : Cause → Reason
  reported : String → Reason

pub data Ack : Type 0 where
  success bad_signature : Ack
  server_error params_wrong : Reason → Ack

-- The response, and the event that the partner's function was called with.
pub record Handled {ℓ} (Event : Type ℓ) : Type ℓ where
  pub status : ℕ
  pub ack : Ack
  pub called : Option Event

-- What the packages strconv, encoding/base64 and encoding/json do here.
pub record Decoders {ℓ} (Event : Type ℓ) : Type ℓ where
  pub parse_int : Bytes → Option ℕ
  pub raw64 : Bytes → Bytes
  pub decode : Bytes → Option Event

-- `DefaultBodyLimit`.
abbrev pub default_body_limit : ℕ
default_body_limit = 1048576

abbrev pub limit_of : Verifier → ℕ
limit_of v = if le_zero v.body_limit then default_body_limit else v.body_limit

-- A body within the limit, or the reason of the refusal.
pub data Limited : Type 0 where
  within : Bytes → Limited
  refused : Reason → Limited

unfoldable pub check_length : (limit : ℕ) → Read → Limited
check_length limit (got s) = if lt64 limit (length s) then refused too_large else within s
check_length limit (broken c) = refused (read_failed c)

-- `readLimited`; the slice's length is an int64.
unfoldable pub read_limited : (limit : ℕ) → Option Body → Limited
unfolding check_length
read_limited limit none = refused missing_body
read_limited limit (some b) = check_length limit (read_all (add64 limit 1) b)

module _ {ℓ} {Event : Type ℓ} (lib : Decoders Event) where
  write_ack : ℕ → Ack → Handled Event
  write_ack status ack = record { status = status; ack = ack; called = none }

  -- The call of the partner's function and its answer.
  answer : Event → Option String → Handled Event
  answer event none = record { status = 200; ack = success; called = some event }
  answer event (some reason) = record {
    status = 500;
    ack = server_error (reported reason);
    called = some event;
  }

  deliver : (Event → Option String) → Option Event → Handled Event
  unfolding write_ack answer
  deliver fn none = write_ack 400 (params_wrong undecodable)
  deliver fn (some event) = answer event (fn event)

  verified : Verifier → (Event → Option String) → (canonical signature body : Bytes) → Handled Event
  unfolding write_ack deliver
  verified v fn canonical signature body =
      if not (verify v canonical signature)
      then write_ack 401 bad_signature
      else deliver fn (lib.decode body)

  -- The two modes: OVO.HMAC where the verifier has a client id, and else RSA2.
  authenticated : Verifier → (Event → Option String) → Inbound → Bytes → Handled Event
  unfolding write_ack verified
  authenticated v fn r body =
      if not (is_empty v.hmac_client_id)
      then if is_empty r.signature || is_empty r.time || not (bytes_eq r.client_id v.hmac_client_id)
        then write_ack 401 bad_signature
        else if not (verify_hmac_time lib.parse_int v r.time)
        then write_ack 401 bad_signature
        else verified v fn
            (ovo_hmac_canonical lib.raw64 r.client_id r.time r.method r.request_uri body)
            r.signature body
      else if is_empty r.authorization
      then write_ack 401 bad_signature
      else verified v fn body r.authorization body

  with_body : Verifier → (Event → Option String) → Inbound → Limited → Handled Event
  unfolding write_ack authenticated
  with_body v fn r (within body) = authenticated v fn r body
  with_body v fn r (refused reason) = write_ack 400 (params_wrong reason)

  -- `handle`, with a nil verifier or a nil function as `none`.
  unfoldable pub handle : Option Verifier → Option (Event → Option String) → Inbound → Handled Event
  unfolding write_ack with_body
  handle none fn r = write_ack 500 (server_error missing_verifier)
  handle (some v) none r = write_ack 500 (server_error missing_function)
  handle (some v) (some fn) r =
      if not (bytes_eq r.method (codes "POST"))
      then write_ack 405 (params_wrong not_allowed)
      else with_body v fn r (read_limited (limit_of v) r.body)
