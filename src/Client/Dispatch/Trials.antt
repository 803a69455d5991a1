-- ===== src/Client/Dispatch/Trials.antt =====
-- The retry loop as a whole: which attempt ends it, and what it has sent until then.
use atome_fin_go_sdk.Base.{
  ◌++◌, ℕ, zero, suc, ◌+◌, ◌-◌, ◌≤◌, ◌<◌, ◌≡◌, refl, sym, subst, ◌⊎◌, inl, inr, true, false, ◌==◌,
  ==_iff, Option, none, some, Bytes, All, All-append, arith, Bool-cases,
}
use native.Mathlib.Decide.{dec_lt}
use atome_fin_go_sdk.Errors.{Cause, Error}
use atome_fin_go_sdk.Client.Exchange.{
  Client, World, Request, Outcome, ok, err, Attempt, transport_error, dispatch_attempt,
}
use atome_fin_go_sdk.Client.Exchange.Outcomes.{
  attempts, attempts-append, sends, sends-append, sends_if_built, Sends, dispatch_attempt-IsAttempt,
}
use atome_fin_go_sdk.Client.Dispatch.{Trace, after_sleep, loop_round, retry_loop}

module _ (c : Client) (w : World) (op url : Bytes) (req : Request) where
  abbrev pub attempt : ℕ → Attempt
  attempt k = dispatch_attempt c w op url k req

  -- Attempt `k` failed in a way that is worth a retry, and the sleep after it was not interrupted.
  abbrev pub Retried : ℕ → Type 0
  Retried k =
      (e : Error) × ((attempt k).outcome ≡ err e)
      × ((attempt k).retryable ≡ true)
      × (w.sleep_error k ≡ none)

  -- The result is that of the last attempt, which needs no retry or has none left.
  abbrev pub Decided : ℕ → Outcome → Type 0
  Decided k o =
      (o ≡ (attempt k).outcome)
      × ((e : Error) → o ≡ err e → ((attempt k).retryable ≡ false) ⊎ (k ≡ c.max_attempts))

  -- The sleep after attempt `k` was interrupted.
  abbrev pub Interrupted : ℕ → Outcome → Type 0
  Interrupted k o =
      (s : Cause) × (w.sleep_error k ≡ some s)
      × (k < c.max_attempts)
      × ((attempt k).retryable ≡ true)
      × (o ≡ err (transport_error "sleep" url s false))

  -- The loop, entered at attempt `n`, ended at attempt `last`.
  pub record Stopped (n : ℕ) (t : Trace) : Type 0 where
    pub last : ℕ
    pub from : n ≤ last
    pub within : last ≤ c.max_attempts
    pub earlier : (k : ℕ) → n ≤ k → k < last → Retried k
    pub count : attempts t.1 + n ≡ last + 1
    pub sends_each : sends t.1 + n ≡ last + sends_if_built (w.build_error last)
    pub same : All (Sends req) t.1
    pub result : Decided last t.0 ⊎ Interrupted last t.0

  stop_here :
      (n : ℕ) (o : Outcome)
      → n ≤ c.max_attempts
      → Decided n o ⊎ Interrupted n o
      → Stopped n (o, (attempt n).events)
  stop_here n o h r =
      let a = dispatch_attempt-IsAttempt c w op url n req in
      record {
        last = n;
        from = omega arith;
        within = h;
        earlier = λ k p q. absurd (omega arith);
        count = omega (arith, a.once);
        sends_each = omega (arith, a.sends_once);
        same = a.same;
        result = r;
      }

  go_on :
      (n : ℕ) (t : Trace)
      → Retried n
      → Stopped (suc n) t
      → Stopped n (t.0, (attempt n).events ++ t.1)
  go_on n t here later =
      let a = dispatch_attempt-IsAttempt c w op url n req in
      let one_sent : sends_if_built (w.build_error n) ≡ 1 = rw (a.retry_built here.2) refl in
      record {
        last = later.last;
        from = omega (arith, later.from);
        within = later.within;
        earlier = λ k p q. elim (dec_lt n k) [
          | yes after ↦ later.earlier k after q
          | no before ↦ let e : n ≡ k = omega arith in subst Retried e here
        ];
        count = rw (attempts-append (attempt n).events t.1) (omega (arith, later.count, a.once));
        sends_each =
            rw (sends-append (attempt n).events t.1)
              (omega (arith, later.sends_each, a.sends_once, one_sent));
        same = All-append (Sends req) (attempt n).events t.1 a.same later.same;
        result = later.result;
      }

  after_sleep-Stopped :
      (n : ℕ) (e : Error) (s : Option Cause) (rest : Trace)
      → w.sleep_error n ≡ s
      → n < c.max_attempts
      → (attempt n).outcome ≡ err e
      → (attempt n).retryable ≡ true
      → Stopped (suc n) rest
      → Stopped n (after_sleep c w op url req s (attempt n).events rest)
  unfolding after_sleep
  after_sleep-Stopped n e (some s) rest slept lt failed again later =
      stop_here n _ (omega arith) (inr (s, slept, lt, again, refl))
  after_sleep-Stopped n e none rest slept lt failed again later =
      go_on n rest (e, failed, again, slept) later

  loop_round-Stopped :
      (n : ℕ) (o : Outcome) (rest : Error → Trace)
      → (attempt n).outcome ≡ o
      → n ≤ c.max_attempts
      → ((e : Error) → n < c.max_attempts → Stopped (suc n) (rest e))
      → Stopped n (loop_round c w op url req n o (attempt n).retryable (attempt n).events rest)
  unfolding loop_round
  loop_round-Stopped n (ok r) rest same h later = stop_here n (ok r) h (inl (sym same, λ e k. cc))
  loop_round-Stopped n (err e) rest same h later = elim (Bool-cases (attempt n).retryable) [
    | inr final ↦ rw final (stop_here n (err e) h (inl (sym same, λ x k. inl final)))
    | inl again ↦ elim (Bool-cases (n == c.max_attempts)) [
      | inl spent ↦
          rw (again, spent)
            (stop_here n (err e) h (inl (sym same, λ x k. inr ((==_iff n c.max_attempts).0 spent))))
      | inr left ↦
          let lt : n < c.max_attempts = ground (arith, left) in
          rw (again, left)
            (after_sleep-Stopped n e (w.sleep_error n) (rest e) refl lt same again (later e lt))
    ]
  ]

  retry_loop-Stopped :
      (left n : ℕ) (before : Option Error)
      → left + n ≡ c.max_attempts
      → Stopped n (retry_loop c w op url req (suc left) n before)
  unfolding retry_loop
  retry_loop-Stopped zero n before h =
      loop_round-Stopped n (attempt n).outcome _ refl (omega arith) (λ e lt. absurd (omega arith))
  retry_loop-Stopped (suc left) n before h =
      loop_round-Stopped n (attempt n).outcome _ refl (omega arith)
        (λ e lt. retry_loop-Stopped left (suc n) (some e) (omega arith))

  -- Where MaxAttempts is at least 1, the loop makes at least one attempt and at most MaxAttempts.
  -- Every attempt before the last failed in a way that is worth a retry and was followed by a full
  -- sleep. The result is that of the last attempt, which then succeeded, needs no retry or is
  -- attempt MaxAttempts, or it says that the sleep after it was interrupted. Each attempt sends one
  -- request, the given one, but the last sends none where its request cannot be built.
  pub retry_loop_lem :
      1 ≤ c.max_attempts → Stopped 1 (retry_loop c w op url req c.max_attempts 1 none)
  retry_loop_lem h =
      let e : c.max_attempts ≡ suc (c.max_attempts - 1) = omega arith in
      subst (λ m. Stopped 1 (retry_loop c w op url req m 1 none)) (sym e)
        (retry_loop-Stopped (c.max_attempts - 1) 1 none (omega arith))
