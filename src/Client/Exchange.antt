-- ===== src/Client/Exchange.antt =====
-- atomefin/doer.go, one HTTP attempt: dispatchAttempt with readAndClose. What the world does is a
-- `World`: the signer, the server's answer to each attempt, the caller's context, and the sleeps.
-- Observer calls are the events of the trace (a panic in one is recovered and changes nothing); log
-- lines and clock readings are left out.
pub mod Outcomes
use atome_fin_go_sdk.Base.{
  String, [], ◌∷◌, ◌++◌, ℕ, zero, suc, ◌+◌, Bool, true, false, not, ◌||◌, ◌&&◌, Option, none, some,
  List, ◌⊎◌, inl, inr, ◌==◌, leb, ltb, length, take, if◌then◌else◌, Bytes, codes, bytes_eq, le_zero,
  add64,
}
use atome_fin_go_sdk.Errors.{
  Cause, Error, api, transport, signature, untyped, plain_cause, Envelope, ApiError, TransportError,
  is_retryable_transport, decode_api_error,
}
use atome_fin_go_sdk.Io.{Body, Read, got, broken, read_all}
use atome_fin_go_sdk.Client.Headers.{Header, ExtraHeader, request_headers}

pub record Request : Type 0 where
  pub method : Bytes
  pub url : Bytes
  pub query : Bytes
  pub body : Bytes
  pub headers : Header

pub record RawResponse : Type 0 where
  pub status_code : ℕ
  pub headers : Header
  pub body : Bytes

-- What `httpClient.Do` returns.
pub data Reply : Type 0 where
  failed : Cause → Reply
  answered : (status : ℕ) → Header → Body → Reply

-- The fields of `Client` that a request depends on. `max_attempts` is at least 1 by
-- RetryPolicy.Validate; `decode` is json.Unmarshal into the error envelope.
pub record Client : Type 0 where
  pub max_attempts : ℕ
  pub retry_on_status : ℕ → Bool
  pub retry_on_transport_error : Cause → Bool
  pub max_resp_bytes : ℕ
  pub user_agent : Bytes
  pub auth_scheme : Bytes → Bytes → Bytes
  pub key_id : Bytes
  pub decode : Bytes → Option Envelope

pub record World : Type 0 where
  pub sign : Bytes → Cause ⊎ Bytes
  -- The error of `buildReq`, of `ctx.Err()` after a failure, and of `Sleep`, by attempt.
  pub build_error : ℕ → Option Cause
  pub ctx_error : ℕ → Option Cause
  pub sleep_error : ℕ → Option Cause
  pub reply : ℕ → Request → Reply

pub data Outcome : Type 0 where
  ok : RawResponse → Outcome
  err : Error → Outcome

pub data Event : Type 0 where
  on_request : (attempt : ℕ) → Event
  sent : (attempt : ℕ) → Request → Event
  on_response : (status : ℕ) → Event
  on_retry : (attempt : ℕ) → Error → Event

-- The three results of dispatchAttempt, and what it did.
pub record Attempt : Type 0 where
  pub outcome : Outcome
  pub retryable : Bool
  pub events : List Event

abbrev pub response_too_large : Cause
response_too_large =
    record (plain_cause "response body exceeds max size; consider WithMaxResponseBytes") {
      too_large = true;
    }

over : ℕ → Read → Read
over max (broken c) = broken c
over max (got s) = if ltb max (length s) then broken response_too_large else got s

-- `readAndClose`; the truncated prefix that goes with the size error is not used by its caller.
unfoldable pub read_and_close : Body → ℕ → Read
unfolding over
read_and_close b max =
    let limit = if le_zero max then 4194304 else max in over limit (read_all (add64 limit 1) b)

abbrev alive : Option Cause → Bool
alive none = true
alive (some c) = false

abbrev pub transport_error : String → Bytes → Cause → Bool → Error
transport_error op url c retry = transport (record { op = op; url = url; err = c; retry = retry })

-- One call of dispatchAttempt, by what it meets; `n` is the attempt.
module _ (c : Client) (w : World) (op url : Bytes) (n : ℕ) where
  -- `httpClient.Do` failed.
  on_failed : Cause → List Event → Attempt
  on_failed e before =
      let again =
        alive (w.ctx_error n) && c.retry_on_transport_error e && is_retryable_transport e in
      let te = transport_error "do" url e again in
      record { outcome = err te; retryable = again; events = before ++ on_retry n te ∷ [] }

  -- The body could not be read.
  on_broken : ℕ → Cause → List Event → Attempt
  on_broken status e before =
      let again =
        alive (w.ctx_error n)
        && not e.too_large
        && (ltb status 400 || c.retry_on_status status)
        && c.retry_on_transport_error e
        && is_retryable_transport e in
      let te = transport_error "read" url e again in
      record {
        outcome = err te;
        retryable = again;
        events = if again && ltb n c.max_attempts then before ++ on_retry n te ∷ [] else before;
      }

  -- The body was read.
  on_answer : ℕ → Header → Bytes → List Event → Attempt
  on_answer status headers body before =
      let e = api (decode_api_error c.decode status op body) in
      if c.retry_on_status status && ltb n c.max_attempts
      then record { outcome = err e; retryable = true; events = before ++ on_retry n e ∷ [] }
      else if leb 400 status
      then record { outcome = err e; retryable = false; events = before }
      else record {
        outcome = ok (record { status_code = status; headers = headers; body = body });
        retryable = false;
        events = before;
      }

  on_read : ℕ → Header → List Event → Read → Attempt
  unfolding on_broken on_answer
  on_read status headers before (got body) = on_answer status headers body before
  on_read status headers before (broken e) = on_broken status e before

  on_reply : List Event → Reply → Attempt
  unfolding on_failed on_read
  on_reply before (failed e) = on_failed e before
  on_reply before (answered status headers body) =
      on_read status headers (before ++ on_response status ∷ [])
        (read_and_close body c.max_resp_bytes)

  attempt_built : Request → Option Cause → Attempt
  unfolding on_reply
  attempt_built req (some e) = record {
    outcome = err (transport_error "build" url e false);
    retryable = false;
    events = on_request n ∷ [];
  }
  attempt_built req none = on_reply (on_request n ∷ sent n req ∷ []) (w.reply n req)

  unfoldable pub dispatch_attempt : Request → Attempt
  unfolding attempt_built
  dispatch_attempt req = attempt_built req (w.build_error n)
