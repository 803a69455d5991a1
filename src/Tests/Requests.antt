-- ===== src/Tests/Requests.antt =====
-- atomefin/doer.go and atomefin/transport/retry.go: a client with three attempts, and a server that
-- answers 503 once.
use atome_fin_go_sdk.Transport.Retry.{
  Jitter, RetryPolicy, backoff, default_retry_policy, default_retry_on_status,
  default_retry_on_transport_error,
}
use atome_fin_go_sdk.Transport.Retry.Backoff.{backoff-eq-min, backoff_overflow}
use atome_fin_go_sdk.Client.Headers.{ExtraHeader, request_headers}
use atome_fin_go_sdk.Client.Headers.Reserved.{request_headers_reserved}
use atome_fin_go_sdk.Errors.{is_retryable_transport}
use atome_fin_go_sdk.Io.{read_all}
use atome_fin_go_sdk.Base.{false, ◌∷◌, not, Bool, some, get, add64, ◌*◌, ◌^◌}
use Prim.Native.Nat.{min}
use atome_fin_go_sdk.Client.Dispatch.Requests.{response_below_400, temporary_exhausted}
use atome_fin_go_sdk.Client.Exchange.{
  RawResponse, ok, err, transport_error, dispatch_attempt, read_and_close,
}
use atome_fin_go_sdk.Base.{
  Option, ◌<◌, get, List, ◌≡◌, [], ℕ, ◌+◌, ◌≤◌, refl, true, none, ◌==◌, inr, codes, All,
  if◌then◌else◌, arith,
}
use atome_fin_go_sdk.Errors.{plain_cause}
use atome_fin_go_sdk.Client.Exchange.{
  transport_error, ok, err, RawResponse, Client, World, Request, Reply, failed, answered,
}
use atome_fin_go_sdk.Client.Exchange.Outcomes.{attempts, sends, Sends}
use atome_fin_go_sdk.Client.Dispatch.{retry_loop, signed_request, sign_and_dispatch}
use atome_fin_go_sdk.Client.Dispatch.Trials.{Stopped, retry_loop_lem}
use atome_fin_go_sdk.Client.Dispatch.Requests.{
  temporary_exhausted, response_below_400, requests_bounded,
}

abbrev pub client : Client
client = record {
  max_attempts = 3;
  retry_on_status = λ status. status == 503;
  retry_on_transport_error = λ c. true;
  max_resp_bytes = 1048576;
  user_agent = codes "sdk";
  auth_scheme = λ sig key. sig;
  key_id = codes "k";
  decode = λ s. none;
}

abbrev answer_of : ℕ → Request → Reply
answer_of n req =
    answered (if n == 1 then 503 else 200) [] (record { bytes = codes "ok"; fault = none })

abbrev pub world : World
world = record {
  sign = λ s. inr (codes "sig");
  build_error = λ n. none;
  ctx_error = λ n. none;
  sleep_error = λ n. none;
  reply = answer_of;
}

abbrev broken_world : World
broken_world = record {
  sign = λ s. inr (codes "sig");
  build_error = λ n. none;
  ctx_error = λ n. none;
  sleep_error = λ n. none;
  reply = λ n req. failed (plain_cause "connection reset");
}

abbrev request : Request
request = record {
  method = codes "POST";
  url = codes "https://gateway/auth";
  query = [];
  body = codes "{}";
  headers = [];
}

abbrev sent_request : Request
sent_request = signed_request client (codes "sig") [] request

retry_loop_lem_example :
    Stopped client world
      (codes "/auth")
      (codes "https://gateway/auth")
      request
      1
      (retry_loop client world (codes "/auth") (codes "https://gateway/auth") request 3 1 none)
retry_loop_lem_example =
    retry_loop_lem client world (codes "/auth") (codes "https://gateway/auth") request (omega arith)

requests_bounded_example :
    let trace =
      sign_and_dispatch client world (codes "/auth") (codes "u") (codes "{}") [] request in
    (1 ≤ attempts trace.1)
    × (attempts trace.1 ≤ 3)
    × (sends trace.1 + 1 ≡ attempts trace.1 + 1)
    × All (Sends sent_request) trace.1
requests_bounded_example =
    requests_bounded client world (codes "/auth") (codes "u") (codes "{}") [] request (omega arith)
      refl

abbrev ok_response : RawResponse
ok_response = record { status_code = 200; headers = []; body = codes "ok" }

second_try :
    (sign_and_dispatch client world (codes "/auth") (codes "u") (codes "{}") [] request).0
    ≡ ok ok_response
unfolding sign_and_dispatch retry_loop dispatch_attempt read_and_close read_all add64
second_try = refl

response_below_400_example : 200 < 400
response_below_400_example =
    response_below_400 client world (codes "/auth") (codes "u") (codes "{}") [] request
      (omega arith) refl ok_response second_try

third_failure :
    (sign_and_dispatch client broken_world (codes "/auth") (codes "u") (codes "{}") [] request).0
    ≡ err (transport_error "do" (codes "u") (plain_cause "connection reset") true)
unfolding sign_and_dispatch retry_loop dispatch_attempt is_retryable_transport
third_failure = refl

temporary_exhausted_example :
    attempts
      (sign_and_dispatch client broken_world (codes "/auth") (codes "u") (codes "{}") [] request).1
    ≡ 3
temporary_exhausted_example =
    temporary_exhausted client broken_world (codes "/auth") (codes "u") (codes "{}") [] request
      (omega arith) refl
      (record { op = "do"; url = codes "u"; err = plain_cause "connection reset"; retry = true })
      third_failure refl

-- An option that tries to replace the signature.
abbrev forged : List (Option ExtraHeader)
forged = some (record { key = codes "aUTHORIZATION"; value = codes "x" }) ∷ none ∷ []

request_headers_reserved_example :
    (get (codes "Authorization") (request_headers (codes "sig") (codes "sdk") forged)
      ≡ some (codes "sig" ∷ []))
    × (get (codes "Content-Type") (request_headers (codes "sig") (codes "sdk") forged)
        ≡ some (codes "application/json" ∷ []))
    × (get (codes "Accept") (request_headers (codes "sig") (codes "sdk") forged)
        ≡ some (codes "application/json" ∷ []))
    × (get (codes "User-Agent") (request_headers (codes "sig") (codes "sdk") forged)
        ≡ some (codes "sdk" ∷ []))
request_headers_reserved_example = request_headers_reserved (codes "sig") (codes "sdk") forged

-- Jitter that is off or on, and leaves the wait alone.
abbrev jitter : Jitter
jitter = record { Ratio = Bool; is_zero = not; in_range = λ b. true; scale = λ j u d. d }

abbrev steady : RetryPolicy Bool
steady = default_retry_policy jitter false

backoff-eq-min_example :
    (backoff jitter steady none 3 ≡ min 4000000000 (250000000 * 2 ^ 2))
    × (backoff jitter steady none 3 ≤ 4000000000)
unfolding default_retry_policy
backoff-eq-min_example =
    backoff-eq-min jitter steady refl (omega arith, omega arith) none 3 (omega arith) (omega arith)

abbrev long_base : RetryPolicy Bool
long_base = record {
  max_attempts = 40;
  base = 34359738368;
  cap = 60000000000;
  jitter = false;
  retry_on_status = default_retry_on_status;
  retry_on_transport_error = default_retry_on_transport_error;
}

backoff_overflow_example : backoff jitter long_base none 31 ≡ 0
backoff_overflow_example =
    backoff_overflow jitter long_base refl 2 none 31 refl (omega arith) (omega arith)
