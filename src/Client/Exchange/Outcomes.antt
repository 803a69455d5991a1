-- ===== src/Client/Exchange/Outcomes.antt =====
-- What one attempt can return, and what it sends.
use atome_fin_go_sdk.Base.{
  [], ◌∷◌, ◌++◌, ℕ, suc, ◌+◌, ◌<◌, ◌≡◌, refl, sym, ap, refl, inl, inr, Bool, true, false, Option,
  none, some, List, Bytes, All, All-append, arith, leb, ltb, ◌&&◌, if◌then◌else◌, Bool-cases,
}
use atome_fin_go_sdk.Errors.{Cause, Error, TransportError, transport}
use atome_fin_go_sdk.Io.{Read, got, broken}
use atome_fin_go_sdk.Client.Headers.{Header}
use atome_fin_go_sdk.Client.Exchange.{
  Client, World, Request, RawResponse, Reply, failed, answered, Outcome, ok, err, Event, on_request,
  sent, on_response, on_retry, Attempt, on_failed, on_broken, on_answer, on_read, on_reply,
  attempt_built, dispatch_attempt, read_and_close,
}

-- How many attempts a trace starts.
unfoldable pub attempts : List Event → ℕ
attempts [] = 0
attempts (on_request n ∷ es) = suc (attempts es)
attempts (_ ∷ es) = attempts es

-- How many requests a trace sends.
unfoldable pub sends : List Event → ℕ
sends [] = 0
sends (sent n r ∷ es) = suc (sends es)
sends (_ ∷ es) = sends es

pub attempts-append : (es fs : List Event) → attempts (es ++ fs) ≡ attempts es + attempts fs
unfolding attempts
attempts-append [] fs = omega arith
attempts-append (on_request n ∷ es) fs = omega (arith, attempts-append es fs)
attempts-append (sent n r ∷ es) fs = attempts-append es fs
attempts-append (on_response s ∷ es) fs = attempts-append es fs
attempts-append (on_retry n e ∷ es) fs = attempts-append es fs

pub sends-append : (es fs : List Event) → sends (es ++ fs) ≡ sends es + sends fs
unfolding sends
sends-append [] fs = omega arith
sends-append (on_request n ∷ es) fs = sends-append es fs
sends-append (sent n r ∷ es) fs = omega (arith, sends-append es fs)
sends-append (on_response s ∷ es) fs = sends-append es fs
sends-append (on_retry n e ∷ es) fs = sends-append es fs

-- How many requests an attempt sends, from the error of building it.
abbrev pub sends_if_built : Option Cause → ℕ
sends_if_built none = 1
sends_if_built (some e) = 0

-- Every request that a trace sends is `req`.
abbrev pub Sends : Request → Event → Type 0
Sends req (sent n r) = r ≡ req
Sends req (on_request n) = Unit
Sends req (on_response s) = Unit
Sends req (on_retry n e) = Unit

-- What holds of one attempt, with the error of building its request: it is one attempt, it sends
-- `req` once where that is built and nothing else, a retry and a response follow a request that was
-- sent, a response that is returned is below 400, and a transport error says itself whether it is
-- worth a retry.
pub record IsAttempt (req : Request) (built : Option Cause) (a : Attempt) : Type 0 where
  pub once : attempts a.events ≡ 1
  pub sends_once : sends a.events ≡ sends_if_built built
  pub retry_built : a.retryable ≡ true → built ≡ none
  pub answer_built : (r : RawResponse) → a.outcome ≡ ok r → built ≡ none
  pub same : All (Sends req) a.events
  pub below_400 : (r : RawResponse) → a.outcome ≡ ok r → r.status_code < 400
  pub flag : (t : TransportError) → a.outcome ≡ err (transport t) → t.retry ≡ a.retryable

-- Facts on the events before an answer, carried to the events after it.
abbrev IsTrace : Request → List Event → Type 0
IsTrace req es = (attempts es ≡ 1) × (sends es ≡ 1) × All (Sends req) es

IsTrace-concat :
    (req : Request) (es : List Event) (n : ℕ) (e : Error)
    → IsTrace req es
    → IsTrace req (es ++ on_retry n e ∷ [])
IsTrace-concat req es n e (one, sends_one, all) = (
  rw (attempts-append es (on_retry n e ∷ [])) (unfold attempts in omega (arith, one)),
  rw (sends-append es (on_retry n e ∷ [])) (unfold sends in omega (arith, sends_one)),
  All-append (Sends req) es (on_retry n e ∷ []) all (tt, tt),
)

IsTrace-choice :
    (req : Request) (b : Bool) (es fs : List Event)
    → IsTrace req es
    → IsTrace req fs
    → IsTrace req (if b then es else fs)
IsTrace-choice req true es fs h k = h
IsTrace-choice req false es fs h k = k

abbrev pub failure : Outcome → Error → Error
failure (ok r) d = d
failure (err e) d = e

pub err-injective : {d e : Error} → err d ≡ err e → d ≡ e
err-injective {d} p = ap (λ o. failure o d) p

abbrev pub retry_flag : Error → Bool
retry_flag (transport t) = t.retry
retry_flag _ = false

failed-IsAttempt :
    (req : Request) (e : Error) (b : Bool) (es : List Event)
    → ((t : TransportError) → e ≡ transport t → t.retry ≡ b)
    → IsTrace req es
    → IsAttempt req none (record { outcome = err e; retryable = b; events = es })
failed-IsAttempt req e b es f (one, sends_one, all) = record {
  once = one;
  sends_once = sends_one;
  retry_built = λ h. refl;
  answer_built = λ r h. refl;
  same = all;
  below_400 = λ r h. cc;
  flag = λ t h. f t (err-injective h);
}

module _ (c : Client) (w : World) (op url : Bytes) (n : ℕ) (req : Request) where
  on_failed-IsAttempt :
      (e : Cause) (before : List Event)
      → IsTrace req before
      → IsAttempt req none (on_failed c w op url n e before)
  unfolding on_failed
  on_failed-IsAttempt e before h =
      failed-IsAttempt req _ _ _ (λ t e. ap retry_flag (sym e)) (IsTrace-concat req before n _ h)

  on_broken-IsAttempt :
      (status : ℕ) (e : Cause) (before : List Event)
      → IsTrace req before
      → IsAttempt req none (on_broken c w op url n status e before)
  unfolding on_broken
  on_broken-IsAttempt status e before h =
      failed-IsAttempt req _ _ _ (λ t e. ap retry_flag (sym e))
        (IsTrace-choice req _ _ before (IsTrace-concat req before n _ h) h)

  on_answer-IsAttempt :
      (status : ℕ) (headers : Header) (body : Bytes) (before : List Event)
      → IsTrace req before
      → IsAttempt req none (on_answer c w op url n status headers body before)
  unfolding on_answer
  on_answer-IsAttempt status headers body before h =
      elim (Bool-cases (c.retry_on_status status && ltb n c.max_attempts)) [
        | inl again ↦
            rw again (failed-IsAttempt req _ _ _ (λ t e. cc) (IsTrace-concat req before n _ h))
        | inr last ↦ elim (Bool-cases (leb 400 status)) [
          | inl bad ↦ rw (last, bad) (failed-IsAttempt req _ _ _ (λ t e. cc) h)
          | inr good ↦
              rw (last, good)
                (record {
                  once = h.0;
                  sends_once = h.1;
                  retry_built = λ e. refl;
                  answer_built = λ r e. refl;
                  same = h.2;
                  below_400 = λ r e. ground (arith, good);
                  flag = λ t e. cc;
                })
        ]
      ]

  on_read-IsAttempt :
      (status : ℕ) (headers : Header) (before : List Event) (r : Read)
      → IsTrace req before
      → IsAttempt req none (on_read c w op url n status headers before r)
  unfolding on_read
  on_read-IsAttempt status headers before (got body) h =
      on_answer-IsAttempt status headers body before h
  on_read-IsAttempt status headers before (broken e) h = on_broken-IsAttempt status e before h

  on_reply-IsAttempt :
      (r : Reply) → IsAttempt req none (on_reply c w op url n (on_request n ∷ sent n req ∷ []) r)
  unfolding on_reply
  on_reply-IsAttempt (failed e) =
      on_failed-IsAttempt e (on_request n ∷ sent n req ∷ [])
        (unfold attempts sends in (refl, refl, (tt, (refl, tt))))
  on_reply-IsAttempt (answered status headers body) =
      on_read-IsAttempt status headers (on_request n ∷ sent n req ∷ on_response status ∷ [])
        (read_and_close body c.max_resp_bytes)
        (unfold attempts sends in (refl, refl, (tt, (refl, (tt, tt)))))

  attempt_built-IsAttempt : (e : Option Cause) → IsAttempt req e (attempt_built c w op url n req e)
  unfolding attempt_built attempts sends
  attempt_built-IsAttempt none = on_reply-IsAttempt (w.reply n req)
  attempt_built-IsAttempt (some e) = record {
    once = refl;
    sends_once = refl;
    retry_built = λ h. cc;
    answer_built = λ r h. cc;
    same = (tt, tt);
    below_400 = λ r h. cc;
    flag = λ t h. ap retry_flag (sym (err-injective h));
  }

  pub dispatch_attempt-IsAttempt :
      IsAttempt req (w.build_error n) (dispatch_attempt c w op url n req)
  unfolding dispatch_attempt
  dispatch_attempt-IsAttempt = attempt_built-IsAttempt (w.build_error n)
