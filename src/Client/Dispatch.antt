-- ===== src/Client/Dispatch.antt =====
-- atomefin/doer.go, the retry loop and the entry points DoSigned and DoSignedGET.
pub mod Trials
pub mod Requests
use atome_fin_go_sdk.Base.{
  [], ◌∷◌, ◌++◌, ℕ, zero, suc, Bool, true, false, not, ◌||◌, Option, none, some, List, ◌⊎◌, inl,
  inr, ◌==◌, if◌then◌else◌, Bytes, codes, bytes_eq,
}
use atome_fin_go_sdk.Errors.{Cause, Error, transport, signature, invalid, plain_cause}
use atome_fin_go_sdk.Client.Headers.{ExtraHeader, request_headers}
use atome_fin_go_sdk.Client.Exchange.{
  Client, World, Request, Outcome, ok, err, Event, Attempt, transport_error, dispatch_attempt,
}
use atome_fin_go_sdk.Sign.Canonical.{Values, canonical_query_first_value, encode_wire_query}

abbrev pub Trace : Type 0
Trace = Outcome × List Event

exhausted : Bytes → Option Error → Error
exhausted url none =
    transport_error "do" url (plain_cause "retry loop exhausted with no error captured") false
exhausted url (some e) = e

module _ (c : Client) (w : World) (op url : Bytes) (req : Request) where
  -- After a retryable failure: the sleep, then the rest of the loop.
  after_sleep : Option Cause → List Event → Trace → Trace
  after_sleep (some s) events rest = (err (transport_error "sleep" url s false), events)
  after_sleep none events (o, es) = (o, events ++ es)

  -- The body of the loop after dispatchAttempt; `rest` is the loop from the next attempt.
  loop_round : ℕ → Outcome → Bool → List Event → (Error → Trace) → Trace
  unfolding after_sleep
  loop_round n (ok r) retryable events rest = (ok r, events)
  loop_round n (err e) retryable events rest =
      if not retryable || n == c.max_attempts
      then (err e, events)
      else after_sleep (w.sleep_error n) events (rest e)

  -- `left` counts the rounds that the condition of the loop still allows.
  unfoldable pub retry_loop : (left n : ℕ) → Option Error → Trace
  unfolding exhausted loop_round
  retry_loop zero n last = (err (exhausted url last), [])
  retry_loop (suc left) n last =
      let a = dispatch_attempt c w op url n req in
      loop_round n a.outcome a.retryable a.events (λ e. retry_loop left (suc n) (some e))

unfoldable pub signed_request : Client → Bytes → List (Option ExtraHeader) → Request → Request
signed_request c sig opts req = record req {
  headers = request_headers (c.auth_scheme sig c.key_id) c.user_agent opts;
}

sign_failed : Bytes → Cause → Error
sign_failed url e =
    if e.canceled || e.deadline_exceeded
    then transport_error "sign" url e false
    else signature "sign" e

-- `signAndDispatch`; `req` is what `buildReq` makes, before the headers.
module _ (c : Client) (w : World) (op url canonical : Bytes) (opts : List (Option ExtraHeader))
    (req : Request) where
  with_signature : Cause ⊎ Bytes → Trace
  unfolding sign_failed
  with_signature (inl e) = (err (sign_failed url e), [])
  with_signature (inr sig) =
      retry_loop c w op url (signed_request c sig opts req) c.max_attempts 1 none

  unfoldable pub sign_and_dispatch : Trace
  unfolding with_signature
  sign_and_dispatch = with_signature (w.sign canonical)

unfoldable pub is_absolute : Bytes → Bool
is_absolute [] = false
is_absolute (b ∷ s) = b == b'/'

-- `DoSigned` on a client that is not nil.
unfoldable pub do_signed :
    Client → World → (base_url method path body : Bytes) → List (Option ExtraHeader) → Trace
unfolding is_absolute
do_signed c w base_url method path body opts =
    if not (bytes_eq method (codes "POST"))
    then (err (invalid "method" "DoSigned is POST-only; use DoSignedGET for GET requests"), [])
    else if not (is_absolute path)
    then (err (invalid "path" "path must be absolute (start with '/')"), [])
    else sign_and_dispatch c w path (base_url ++ path) body opts
        (record { method = method; url = base_url ++ path; query = []; body = body; headers = [] })

-- `DoSignedGET`: the signature is over the first-value canonical, the wire has all values.
unfoldable pub do_signed_get :
    Client → World → (base_url path : Bytes) → Values → List (Option ExtraHeader) → Trace
unfolding is_absolute
do_signed_get c w base_url path query opts =
    if not (is_absolute path)
    then (err (invalid "path" "path must be absolute (start with '/')"), [])
    else sign_and_dispatch c w path (base_url ++ path) (canonical_query_first_value query) opts
        (record {
          method = codes "GET";
          url = base_url ++ path;
          query = encode_wire_query query;
          body = [];
          headers = [];
        })
