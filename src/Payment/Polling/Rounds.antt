-- ===== src/Payment/Polling/Rounds.antt =====
-- Which round ends the polling, and how long it sleeps.
use atome_fin_go_sdk.Base.{
  refl, All, All, [], ◌∷◌, ℕ, suc, ◌≡◌, ap, Bool, true, false, Option, none, some, List, le_zero,
  Bool-cases, inl, inr, ◌⊎◌, Option-cases, sym, ◌∙◌,
}
use atome_fin_go_sdk.Payment.Polling.{Stop}
use atome_fin_go_sdk.Errors.{Error, RejectionError}
use atome_fin_go_sdk.Payment.Polling.{
  Round, Polled, finished, rejected, failed, stopped, next_delay, slept, not_terminal, replied,
  on_return, in_time, started, poll,
}

-- The call of a round returned in time and without an error.
abbrev pub Answered : {T : Type 0} → Round T → Type 0
Answered r = (r.before ≡ none) × (r.after ≡ none) × (r.error ≡ none)

module _ {T : Type 0} (terminal : T → Bool) (rejection : Option T → Option RejectionError) where
  -- A round that polling goes on after: answered, not terminal and not rejected.
  abbrev pub Passed : Round T → Type 0
  Passed r =
      Answered r × (rejection r.reply ≡ none) × ((t : T) → r.reply ≡ some t → terminal t ≡ false)

  -- `t` is the terminal response of an answered round, and polling went on after all before it.
  abbrev pub FinishedAt : T → List (Round T) → Type 0
  FinishedAt t [] = ⊥
  FinishedAt t (r ∷ rs) =
      (Answered r × (r.reply ≡ some t) × (terminal t ≡ true)) ⊎ (Passed r × FinishedAt t rs)

module _ {T : Type 0} (terminal : T → Bool) (rejection : Option T → Option RejectionError)
    (grow : ℕ → ℕ) (max_delay : ℕ) where
  module _ (n delay : ℕ) (r : Round T) (rest : Polled T × List ℕ) (t : T) where
    slept-finished :
        (slept terminal rejection grow max_delay n delay r rest).0 ≡ finished t
        → rest.0 ≡ finished t
    unfolding slept
    slept-finished h = elim (Bool-cases (le_zero delay)) [
      | inl none_needed ↦ rw none_needed at h
      | inr waits ↦ elim (Option-cases r.interrupted) [
        | inl whole ↦ rw (waits, whole) at h
        | inr (s, cut) ↦ absurd (stopped-ne r.reply (suc n) s (rw (waits, cut) at h))
      ]
    ]
      where
        stopped-ne : (l : Option T) (k : ℕ) (s : Stop) → stopped l k s ≡ finished t → ⊥
        stopped-ne l k s e = cc

    not_terminal-finished :
        (not_terminal terminal rejection grow max_delay n delay r rest).0 ≡ finished t
        → (rejection r.reply ≡ none) × (rest.0 ≡ finished t)
    unfolding not_terminal
    not_terminal-finished h = elim (Option-cases (rejection r.reply)) [
      | inl ok ↦ (ok, slept-finished (rw (ok, not_terminal) at h))
      | inr (e, bad) ↦ absurd (rejected-ne e (rw (bad, not_terminal) at h))
    ]
      where
        rejected-ne : (e : RejectionError) → rejected e ≡ finished t → ⊥
        rejected-ne e p = cc

    -- A round that ends the polling with `t`, or that it goes on after.
    abbrev Decides : Option T → Type 0
    Decides o =
        ((o ≡ some t) × (terminal t ≡ true))
        ⊎ ((rejection r.reply ≡ none)
            × ((u : T) → o ≡ some u → terminal u ≡ false)
            × (rest.0 ≡ finished t))

    replied-finished :
        (o : Option T)
        → (replied terminal rejection grow max_delay n delay r o rest).0 ≡ finished t
        → Decides o
    unfolding replied
    replied-finished none h =
        let (ok, later) = not_terminal-finished h in inr (ok, λ u e. cc, later)
    replied-finished (some u) h = elim (Bool-cases (terminal u)) [
      | inl done ↦
          let same : u ≡ t = finished-injective (rw done at h) in
          inl (ap some same, ap terminal (sym same) ∙ done)
      | inr onward ↦
          let (ok, later) = not_terminal-finished (rw onward at h) in
          inr (ok, λ v e. ap terminal (some-injective (sym e)) ∙ onward, later)
    ]
      where
        finished-injective : finished u ≡ finished t → u ≡ t
        finished-injective e = cc

        some-injective : {a b : T} → some a ≡ some b → a ≡ b
        some-injective e = cc

    started-finished :
        (last : Option T)
        → (started terminal rejection grow max_delay n delay last r r.before rest).0 ≡ finished t
        → (Answered r × (r.reply ≡ some t) × (terminal t ≡ true))
          ⊎ (Passed terminal rejection r × (rest.0 ≡ finished t))
    unfolding started in_time on_return
    started-finished last h = elim (Option-cases r.before) [
      | inr (s, late) ↦ absurd (stopped-ne last n s (rw late at h))
      | inl before ↦ elim (Option-cases r.after) [
        | inr (s, late) ↦ absurd (stopped-ne _ (suc n) s (rw (before, late) at h))
        | inl after ↦ elim (Option-cases r.error) [
          | inr (e, bad) ↦ absurd (failed-ne e (rw (before, after, bad) at h))
          | inl good ↦ elim (replied-finished r.reply (rw (before, after, good) at h)) [
            | inl (same, done) ↦ inl ((before, after, good), same, done)
            | inr (ok, onward, later) ↦ inr (((before, after, good), ok, onward), later)
          ]
        ]
      ]
    ]
      where
        stopped-ne : (l : Option T) (k : ℕ) (s : Stop) → stopped l k s ≡ finished t → ⊥
        stopped-ne l k s e = cc

        failed-ne : (e : Error) → failed e ≡ finished t → ⊥
        failed-ne e p = cc

  -- A response that polling returns is the first that is terminal: its round was answered in time and
  -- without an error, and every round before it was answered with a response that was neither
  -- terminal nor rejected.
  pub poll-FinishedAt :
      (n delay : ℕ) (last : Option T) (rs : List (Round T)) (t : T)
      → (poll terminal rejection grow max_delay n delay last rs).0 ≡ finished t
      → FinishedAt terminal rejection t rs
  unfolding poll
  poll-FinishedAt n delay last [] t h = cc
  poll-FinishedAt n delay last (r ∷ rs) t h =
      let next = next_delay terminal rejection grow max_delay delay in
      let rest = poll terminal rejection grow max_delay (suc n) next r.reply rs in
      elim (started-finished n delay r rest t last h) [
        | inl done ↦ inl done
        | inr (passed, later) ↦ inr (passed, poll-FinishedAt (suc n) next r.reply rs t later)
      ]

  module _ (n delay : ℕ) (r : Round T) (rest : Polled T × List ℕ)
      (whole : r.interrupted ≡ none) where
    slept-whole : (slept terminal rejection grow max_delay n delay r rest).0 ≡ rest.0
    unfolding slept
    slept-whole = elim (Bool-cases (le_zero delay)) [
      | inl none_needed ↦ rw none_needed refl
      | inr waits ↦ rw (waits, whole) refl
    ]

    Passed-replied :
        (o : Option T)
        → rejection r.reply ≡ none
        → ((t : T) → o ≡ some t → terminal t ≡ false)
        → (replied terminal rejection grow max_delay n delay r o rest).0 ≡ rest.0
    unfolding replied not_terminal
    Passed-replied none ok onward = rw (ok, not_terminal) slept-whole
    Passed-replied (some u) ok onward = rw (onward u refl, ok, not_terminal) slept-whole

    Passed-started :
        (last : Option T)
        → Passed terminal rejection r
        → (started terminal rejection grow max_delay n delay last r r.before rest).0 ≡ rest.0
    unfolding started in_time on_return
    Passed-started last ((b, a, e), ok, onward) = rw (b, a, e) (Passed-replied r.reply ok onward)

  -- Where no sleep is interrupted, polling returns the first terminal response: one whose round was
  -- answered in time and without an error, after rounds that were each answered with a response that
  -- was neither terminal nor rejected.
  pub poll-of_FinishedAt :
      (n delay : ℕ) (last : Option T) (rs : List (Round T)) (t : T)
      → All (λ r. r.interrupted ≡ none) rs
      → FinishedAt terminal rejection t rs
      → (poll terminal rejection grow max_delay n delay last rs).0 ≡ finished t
  unfolding poll started in_time on_return replied
  poll-of_FinishedAt n delay last [] t w f = absurd f
  poll-of_FinishedAt n delay last (r ∷ rs) t w (inl ((b, a, e), same, done)) =
      rw (b, a, e, same, done) refl
  poll-of_FinishedAt n delay last (r ∷ rs) t (w, ws) (inr (passed, later)) =
      let next = next_delay terminal rejection grow max_delay delay in
      Passed-started n delay r _ w last passed
      ∙ poll-of_FinishedAt (suc n) next r.reply rs t ws later
