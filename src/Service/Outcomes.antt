-- ===== src/Service/Outcomes.antt =====
-- What a call of a service has sent when it returns a response.
use atome_fin_go_sdk.Base.{
  Option-cases, [], ◌++◌, ◌≤◌, ◌<◌, ◌≡◌, refl, true, none, ◌⊎◌, inl, inr, Bytes, codes, All, List,
  bytes_eq, arith,
}
use atome_fin_go_sdk.Errors.{Cause, Error}
use atome_fin_go_sdk.Payment.Checks.{Check}
use atome_fin_go_sdk.Client.Exchange.{Client, World, Request, RawResponse, ok, err, Event}
use atome_fin_go_sdk.Client.Exchange.Outcomes.{sends, attempts, Sends}
use atome_fin_go_sdk.Client.Dispatch.{
  Trace, is_absolute, signed_request, sign_and_dispatch, do_signed, do_signed_get,
}
use atome_fin_go_sdk.Client.Dispatch.Requests.{
  requests_bounded, response_below_400, sends-of_response,
}
use atome_fin_go_sdk.Client.Encrypted.{post_of}
use atome_fin_go_sdk.Sign.Canonical.{Values, canonical_query_first_value, encode_wire_query}
use atome_fin_go_sdk.Service.{decode_response, decode_result, get_call, post_call, checked}

-- The call returned `t`: its check passed, and its response below 400 decoded to `t`, after between
-- one and MaxAttempts requests, one in each attempt, which were all `req`.
pub record Succeeded {T : Type 0} (c : Client) (check : Check) (decode : Bytes → Cause ⊎ T)
    (req : Request) (t : T) (events : List Event) : Type 0 where
  pub passed : check ≡ none
  pub response : RawResponse
  pub below_400 : response.status_code < 400
  pub decodes : decode response.body ≡ inr t
  pub once : 1 ≤ sends events
  pub within : sends events ≤ c.max_attempts
  pub each : sends events ≡ attempts events
  pub same : All (Sends req) events

module _ {T : Type 0} (op : Bytes) (decode : Bytes → Cause ⊎ T) (t : T) where
  result-of_response :
      (tr : Trace)
      → (decode_response op decode tr).0 ≡ inr t
      → (r : RawResponse) × (tr.0 ≡ ok r) × (decode r.body ≡ inr t)
  unfolding decode_response decode_result
  result-of_response (err e, events) h = cc
  result-of_response (ok r, events) h = (r, refl, known (decode r.body) h)
    where
      known : (d : Cause ⊎ T) → decode_result op d ≡ inr t → d ≡ inr t
      known (inl e) k = cc
      known (inr u) k = cc

  events-of_response : (tr : Trace) → (decode_response op decode tr).1 ≡ tr.1
  unfolding decode_response
  events-of_response (err e, events) = refl
  events-of_response (ok r, events) = refl

-- The request of a GET, before its headers.
abbrev pub get_of : (url : Bytes) → Values → Request
get_of url q = record {
  method = codes "GET";
  url = url;
  query = encode_wire_query q;
  body = [];
  headers = [];
}

module _ {T : Type 0} (c : Client) (w : World) (base_url op : Bytes) (decode : Bytes → Cause ⊎ T)
    (positive : 1 ≤ c.max_attempts) (absolute : is_absolute op ≡ true) (check : Check) where
  -- A trace of sign_and_dispatch whose response decodes.
  dispatched-Succeeded :
      (canonical sig : Bytes) (req : Request) (t : T)
      → w.sign canonical ≡ inr sig
      → (decode_response op decode (sign_and_dispatch c w op (base_url ++ op) canonical [] req)).0
        ≡ inr t
      → Succeeded c none decode
          (signed_request c sig [] req)
          t
          (decode_response op decode (sign_and_dispatch c w op (base_url ++ op) canonical [] req)).1
  dispatched-Succeeded canonical sig req t signed h =
      let (r, answered, decodes) =
        result-of_response op decode t (sign_and_dispatch c w op (base_url ++ op) canonical [] req)
          h in
      let (once, within, sends_each, same) =
        requests_bounded c w op (base_url ++ op) canonical [] req positive signed in
      let each =
        sends-of_response c w op (base_url ++ op) canonical [] req positive signed r answered in
      rw
        (events-of_response op decode t
          (sign_and_dispatch c w op (base_url ++ op) canonical [] req))
        (record {
          passed = refl;
          response = r;
          below_400 =
              response_below_400 c w op (base_url ++ op) canonical [] req positive signed r
                answered;
          decodes = decodes;
          once = omega (arith, once, each);
          within = omega (arith, within, each);
          each = each;
          same = same;
        })

  -- Where MaxAttempts is at least 1, the path is absolute and the signer signs the canonical query,
  -- a service's GET that returns a response passed its check, got a response below 400 whose body
  -- decodes to what it returns, and sent between one and MaxAttempts requests, one in each attempt, all of them the
  -- signed GET of that query.
  pub get_call-Succeeded :
      (q : Values) (sig : Bytes) (t : T)
      → w.sign (canonical_query_first_value q) ≡ inr sig
      → (checked check (get_call c w base_url op decode q)).0 ≡ inr t
      → Succeeded c check decode
          (signed_request c sig [] (get_of (base_url ++ op) q))
          t
          (checked check (get_call c w base_url op decode q)).1
  unfolding get_call do_signed_get checked
  get_call-Succeeded q sig t signed h = elim (Option-cases check) [
    | inr (e, refused) ↦ absurd (failed-ne e (rw refused at h))
    | inl passed ↦
        let dispatched = rw (passed, absolute) at h in
        rw (passed, absolute)
          (dispatched-Succeeded (canonical_query_first_value q) sig (get_of (base_url ++ op) q) t
            signed dispatched)
  ]
    where
      failed-ne : (e : Error) → ◌≡◌ {A = Error ⊎ T} (inl e) (inr t) → ⊥
      failed-ne e p = cc

  -- Where MaxAttempts is at least 1, the path is absolute and the signer signs the body, a service's
  -- POST of that body that returns a response passed its check, got a response below 400 whose body
  -- decodes to what it returns, and sent between one and MaxAttempts requests, one in each attempt, all of them the
  -- signed POST of that body.
  pub post_call-Succeeded :
      (body sig : Bytes) (t : T)
      → w.sign body ≡ inr sig
      → (checked check (post_call c w base_url op decode (inr body))).0 ≡ inr t
      → Succeeded c check decode
          (signed_request c sig [] (post_of (base_url ++ op) body))
          t
          (checked check (post_call c w base_url op decode (inr body))).1
  unfolding post_call do_signed checked bytes_eq
  post_call-Succeeded body sig t signed h = elim (Option-cases check) [
    | inr (e, refused) ↦ absurd (failed-ne e (rw refused at h))
    | inl passed ↦
        let dispatched = rw (passed, absolute) at h in
        rw (passed, absolute)
          (dispatched-Succeeded body sig (post_of (base_url ++ op) body) t signed dispatched)
  ]
    where
      failed-ne : (e : Error) → ◌≡◌ {A = Error ⊎ T} (inl e) (inr t) → ⊥
      failed-ne e p = cc
