-- ===== src/Mock/Server.antt =====
-- atomefin/mock/server_dispatch.go: serveHTTP, the pipeline of the test server, on its state. The
-- scenario is a parameter that sees the requests recorded so far; json.Unmarshal, the opening of an
-- encrypted body and the response signature are parameters.
pub mod Keeps
pub mod Replay
use atome_fin_go_sdk.Base.{
  [], ◌∷◌, ◌++◌, ℕ, ◌+◌, ◌-◌, Bool, true, false, not, ◌&&◌, ◌||◌, Option, none, some, List, ◌⊎◌,
  inl, inr, leb, if◌then◌else◌, Bytes, codes, bytes_eq, is_empty, Dict, get, put,
}
use atome_fin_go_sdk.Errors.{Cause}
use atome_fin_go_sdk.Url.Query.{query_values}
use atome_fin_go_sdk.Client.Headers.{Header, canonical_header_key, header_set}
use atome_fin_go_sdk.Spec.Json.{Json}
use atome_fin_go_sdk.Spec.Body.{validate_body}
use atome_fin_go_sdk.Mock.Cache.{CacheEntry, IdempotencyCache, cache_get, cache_put, cache_reset}

pub record RecordedRequest : Type 0 where
  pub method : Bytes
  pub path : Bytes
  pub query : Bytes
  pub headers : Header
  pub body : Bytes

-- The fields of the specification's Operation that the checks read.
pub record SpecOperation : Type 0 where
  pub required_header : List Bytes
  pub required_query : List Bytes
  pub required_body : List Bytes

pub record Response : Type 0 where
  pub status : ℕ
  pub headers : Header
  pub body : Bytes

-- The 400 answers of the specification check.
pub data Refusal : Type 0 where
  missing_header : Bytes → Refusal
  missing_query : Bytes → Refusal
  wrong_format : Cause → Refusal
  missing_field : Bytes → Refusal

-- What is written; `callback` says that the auto-callback step is reached.
pub data Answer : Type 0 where
  refused : Refusal → Answer
  server_error : Cause → Answer
  written : Response → (callback : Bool) → Answer

pub record Config : Type 0 where
  -- `none` without WithSpecValidation, and where the specification does not load.
  pub spec : Option (Bytes → Option SpecOperation)
  pub decode : Bytes → Cause ⊎ Json
  -- The top-level requestId of a JSON body, empty where there is none.
  pub request_id : Bytes → Bytes
  -- The body that the decrypt key opens with an Encrypt header.
  pub opened : Option (Bytes → Bytes → Option Bytes)
  pub sign_response : Option (Bytes → Option Bytes)
  pub fires_callbacks : Bool
  pub respond : List RecordedRequest → RecordedRequest → Cause ⊎ Response

pub record Server : Type 0 where
  pub requests : List RecordedRequest
  pub hits : Dict ℕ
  pub idem : Option IdempotencyCache

upper_byte : ℕ → ℕ
upper_byte c = if leb b'a' c && leb c b'z' then c - 32 else c

-- `upperASCII`, and strings.ToUpper of a method.
unfoldable pub upper_ascii : Bytes → Bytes
unfolding upper_byte
upper_ascii [] = []
upper_ascii (c ∷ s) = upper_byte c ∷ upper_ascii s

-- `OpKey`.
unfoldable pub op_key : (method path : Bytes) → Bytes
op_key method path = upper_ascii method ++ b' ' ∷ path

first_value : Option (List Bytes) → Bytes
first_value none = []
first_value (some []) = []
first_value (some (v ∷ vs)) = v

-- `r.Header.Get(name)` and `r.URL.Query().Get(name)`.
unfoldable pub header_get : Bytes → RecordedRequest → Bytes
unfolding first_value
header_get name r = first_value (get (canonical_header_key name) r.headers)

unfoldable pub query_get : Bytes → RecordedRequest → Bytes
unfolding first_value
query_get name r = first_value (get name (query_values r.query))

-- The loop over the required headers: a refusal, or whether Encrypt is among them.
unfoldable pub check_headers : RecordedRequest → (encrypted : Bool) → List Bytes → Refusal ⊎ Bool
check_headers r encrypted [] = inr encrypted
check_headers r encrypted (name ∷ names) =
    let rest = check_headers r (encrypted || bytes_eq name (codes "Encrypt")) names in
    if is_empty (header_get name r) then inl (missing_header name) else rest

unfoldable pub check_query : RecordedRequest → List Bytes → Option Refusal
check_query r [] = none
check_query r (name ∷ names) =
    let rest = check_query r names in
    if is_empty (query_get name r) then some (missing_query name) else rest

body_refusal : Cause ⊎ Bytes → Option Refusal
body_refusal (inl e) = some (wrong_format e)
body_refusal (inr missing) = if is_empty missing then none else some (missing_field missing)

module _ (cfg : Config) where
  after_headers : RecordedRequest → SpecOperation → Refusal ⊎ Bool → Option Refusal
  unfolding body_refusal
  after_headers r op (inl e) = some e
  after_headers r op (inr encrypted) =
      if bytes_eq r.method (codes "GET")
      then check_query r op.required_query
      else if bytes_eq r.method (codes "POST") && not encrypted
      then body_refusal (validate_body cfg.decode r.body op.required_body)
      else none

  check_operation : RecordedRequest → Option SpecOperation → Option Refusal
  unfolding after_headers
  check_operation r none = none
  check_operation r (some op) = after_headers r op (check_headers r false op.required_header)

  -- `specValidate`; the operation is looked up by its key.
  unfoldable pub spec_validate : RecordedRequest → Option Refusal
  unfolding check_operation
  spec_validate r = elim cfg.spec [
    | none ↦ none
    | some find ↦ check_operation r (find (op_key r.method r.path))
  ]

  opened_id : Option Bytes → Bytes
  opened_id none = []
  opened_id (some plain) = cfg.request_id plain

  -- The requestId that idemKey extracts.
  extracted_id : RecordedRequest → Bytes
  unfolding opened_id
  extracted_id r =
      if not (is_empty (header_get (codes "Encrypt") r))
      then elim cfg.opened [
        | none ↦ []
        | some open_body ↦ opened_id (open_body (header_get (codes "Encrypt") r) r.body)
      ]
      else if bytes_eq r.method (codes "GET")
      then query_get (codes "requestId") r
      else if bytes_eq r.method (codes "POST")
      then cfg.request_id r.body
      else []

  -- `idemKey`.
  unfoldable pub idem_key : RecordedRequest → Bytes
  unfolding extracted_id
  idem_key r =
      let id = extracted_id r in
      if is_empty id then [] else op_key r.method r.path ++ codes "::" ++ id

  hit_count : Option ℕ → ℕ
  hit_count none = 0
  hit_count (some n) = n

  -- `RoundTrip` up to the scenario: the request is recorded and counted.
  record_request : RecordedRequest → Server → Server
  unfolding hit_count
  record_request r s =
      let op = r.method ++ b' ' ∷ r.path in
      record s {
        requests = s.requests ++ r ∷ [];
        hits = put op (hit_count (get op s.hits) + 1) s.hits;
      }

  with_authorization : Response → Option Bytes → Response
  with_authorization resp none = resp
  with_authorization resp (some sig) = record resp {
    headers = header_set (codes "Authorization") sig resp.headers;
  }

  unfoldable pub signed_response : Response → Response
  unfolding with_authorization
  signed_response resp = elim cfg.sign_response [
    | none ↦ resp
    | some sign ↦ with_authorization resp (sign resp.body)
  ]

  unfoldable pub entry_of : Bytes → Response → CacheEntry
  entry_of key resp = record {
    key = key;
    status = resp.status;
    body = resp.body;
    headers = resp.headers;
  }

  unfoldable pub stamp :
      (key : Bytes) → Response → Option IdempotencyCache → Option IdempotencyCache
  unfolding entry_of
  stamp key resp none = none
  stamp key resp (some c) = some (if is_empty key then c else cache_put key (entry_of key resp) c)

  scenario_answer : (key : Bytes) → Server → Cause ⊎ Response → Answer × Server
  unfolding stamp signed_response
  scenario_answer key s (inl e) = (server_error e, s)
  scenario_answer key s (inr resp) = (
    written (signed_response resp) cfg.fires_callbacks,
    record s { idem = stamp key (signed_response resp) s.idem },
  )

  -- Steps 4 to 6.
  unfoldable pub dispatch : (key : Bytes) → RecordedRequest → Server → Answer × Server
  unfolding scenario_answer record_request
  dispatch key r s = scenario_answer key (record_request r s) (cfg.respond s.requests r)

  -- `replay`.
  unfoldable pub replay : CacheEntry → Answer
  replay e =
      written
        (record {
          status = e.status;
          headers = header_set (codes "X-Mock-Replay") (codes "1") e.headers;
          body = e.body;
        })
        false

  -- After the lookup in the cache.
  after_lookup :
      (key : Bytes)
      → RecordedRequest
      → Server
      → Option CacheEntry
      → IdempotencyCache
      → Answer × Server
  unfolding replay
  after_lookup key r s none c = dispatch key r (record s { idem = some c })
  after_lookup key r s (some e) c = (replay e, record s { idem = some c })

  -- Step 3.
  with_idempotency : RecordedRequest → Server → Option IdempotencyCache → Answer × Server
  unfolding after_lookup
  with_idempotency r s none = dispatch [] r s
  with_idempotency r s (some c) =
      let key = idem_key r in
      let plain = dispatch [] r s in
      let hit = cache_get key c in
      let looked = after_lookup key r s hit.0 hit.1 in if is_empty key then plain else looked

  validated : RecordedRequest → Server → Option Refusal → Answer × Server
  unfolding with_idempotency
  validated r s none = with_idempotency r s s.idem
  validated r s (some e) = (refused e, s)

  -- `serveHTTP`.
  unfoldable pub serve : RecordedRequest → Server → Answer × Server
  unfolding validated
  serve r s = validated r s (spec_validate r)

  -- A sequence of requests.
  unfoldable pub serve_all : List RecordedRequest → Server → Server
  serve_all [] s = s
  serve_all (r ∷ rs) s = serve_all rs (serve r s).1

-- `Reset`.
unfoldable pub reset_server : Server → Server
reset_server s = record {
  requests = [];
  hits = [];
  idem = elim s.idem [ none ↦ none | some c ↦ some (cache_reset c) ];
}
