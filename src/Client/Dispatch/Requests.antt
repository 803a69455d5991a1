-- ===== src/Client/Dispatch/Requests.antt =====
-- What a signed request sends, and what its result says.
use mathlib.Core.Bool.{false≢true}
use atome_fin_go_sdk.Base.{
  ◌+◌, ◌≤◌, ◌<◌, ◌≡◌, refl, sym, ap, ◌∙◌, inl, inr, true, Option, List, Bytes, All, arith, ◌≢◌,
}
use atome_fin_go_sdk.Errors.{Error, TransportError, transport}
use atome_fin_go_sdk.Client.Headers.{ExtraHeader}
use atome_fin_go_sdk.Client.Exchange.{Client, World, Request, RawResponse, ok, err}
use atome_fin_go_sdk.Client.Exchange.Outcomes.{
  attempts, sends, sends_if_built, retry_flag, err-injective, Sends, dispatch_attempt-IsAttempt,
}
use atome_fin_go_sdk.Client.Dispatch.{Trace, signed_request, sign_and_dispatch}
use atome_fin_go_sdk.Client.Dispatch.Trials.{Stopped, retry_loop_lem}

ok-ne-err : (r : RawResponse) (e : Error) → ok r ≢ err e
ok-ne-err r e h = cc

module _ (c : Client) (w : World) (op url canonical : Bytes) (opts : List (Option ExtraHeader))
    (req : Request) (positive : 1 ≤ c.max_attempts) {sig : Bytes}
    (signed : w.sign canonical ≡ inr sig) where
  abbrev trace : Trace
  trace = sign_and_dispatch c w op url canonical opts req

  dispatch-Stopped : Stopped c w op url (signed_request c sig opts req) 1 trace
  unfolding sign_and_dispatch
  dispatch-Stopped = rw signed (retry_loop_lem c w op url (signed_request c sig opts req) positive)

  -- Where MaxAttempts is at least 1 and the signer returned a signature, at least one and at most
  -- MaxAttempts attempts are made. Each attempt sends one request, but the last sends none where its
  -- request cannot be built. All requests sent are the same: one body, query, list of headers and
  -- signature.
  pub requests_bounded :
      (1 ≤ attempts trace.1)
      × (attempts trace.1 ≤ c.max_attempts)
      × (sends trace.1 + 1 ≡ attempts trace.1 + sends_if_built (w.build_error (attempts trace.1)))
      × All (Sends (signed_request c sig opts req)) trace.1
  requests_bounded =
      let s = dispatch-Stopped in
      let last : attempts trace.1 ≡ s.last = omega (arith, s.count) in
      (
        omega (arith, s.count, s.from),
        omega (arith, s.count, s.within),
        rw last s.sends_each,
        s.same,
      )

  -- A response comes from a request that was sent, so that every attempt has sent one.
  pub sends-of_response : (r : RawResponse) → trace.0 ≡ ok r → sends trace.1 ≡ attempts trace.1
  sends-of_response r h =
      let s = dispatch-Stopped in
      elim s.result [
        | inl d ↦
            let a = dispatch_attempt-IsAttempt c w op url s.last (signed_request c sig opts req) in
            let built = a.answer_built r (sym d.0 ∙ h) in
            let one : sends_if_built (w.build_error s.last) ≡ 1 = rw built refl in
            omega (arith, s.count, s.sends_each, one)
        | inr i ↦ absurd (ok-ne-err r _ (sym h ∙ i.4))
      ]

  -- Where MaxAttempts is at least 1 and the signer returned a signature, a response that is
  -- returned has a status below 400.
  pub response_below_400 : (r : RawResponse) → trace.0 ≡ ok r → r.status_code < 400
  response_below_400 r h = go dispatch-Stopped
    where
      go : Stopped c w op url (signed_request c sig opts req) 1 trace → r.status_code < 400
      go s = elim s.result [
        | inl d ↦
            (dispatch_attempt-IsAttempt c w op url s.last (signed_request c sig opts req)).below_400
              r (sym d.0 ∙ h)
        | inr i ↦ absurd (ok-ne-err r _ (sym h ∙ i.4))
      ]

  -- Where MaxAttempts is at least 1 and the signer returned a signature, a TransportError that is
  -- marked as worth a retry reaches the caller only after MaxAttempts attempts.
  pub temporary_exhausted :
      (t : TransportError)
      → trace.0 ≡ err (transport t)
      → t.retry ≡ true
      → attempts trace.1 ≡ c.max_attempts
  temporary_exhausted t h again = go dispatch-Stopped
    where
      go :
          Stopped c w op url (signed_request c sig opts req) 1 trace
          → attempts trace.1 ≡ c.max_attempts
      go s = elim s.result [
        | inl d ↦
            let a = dispatch_attempt-IsAttempt c w op url s.last (signed_request c sig opts req) in
            elim (d.1 (transport t) h) [
              | inl no_retry ↦
                  absurd (false≢true (sym no_retry ∙ sym (a.flag t (sym d.0 ∙ h)) ∙ again))
              | inr spent ↦ omega (arith, s.count, spent)
            ]
        | inr i ↦ absurd (false≢true (sym (ap retry_flag (err-injective (sym h ∙ i.4))) ∙ again))
      ]
