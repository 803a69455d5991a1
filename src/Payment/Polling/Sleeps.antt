-- ===== src/Payment/Polling/Sleeps.antt =====
-- How long the polling loop sleeps.
use atome_fin_go_sdk.Base.{
  [], ◌∷◌, ℕ, suc, ◌≡◌, Bool, false, Option, none, some, List, All, lt64, le_zero, Bool-cases,
  Option-cases, inl, inr, arith,
}
use atome_fin_go_sdk.Errors.{Error, RejectionError}
use atome_fin_go_sdk.Payment.Polling.{
  Stop, Round, Polled, next_delay, slept, not_terminal, replied, on_return, in_time, started, poll,
}

-- A sleep is positive and not above MaxDelay, as signed values.
abbrev pub IsCapped : (max_delay d : ℕ) → Type 0
IsCapped max_delay d = (le_zero d ≡ false) × (lt64 max_delay d ≡ false)

module _ {T : Type 0} (terminal : T → Bool) (rejection : Option T → Option RejectionError)
    (grow : ℕ → ℕ) (max_delay : ℕ) where
  module _ (n delay : ℕ) (r : Round T) (rest : Polled T × List ℕ)
      (small : lt64 max_delay delay ≡ false) (later : All (IsCapped max_delay) rest.1) where
    slept-IsCapped :
        All (IsCapped max_delay) (slept terminal rejection grow max_delay n delay r rest).1
    unfolding slept
    slept-IsCapped = elim (Bool-cases (le_zero delay)) [
      | inl none_needed ↦ rw none_needed later
      | inr waits ↦ elim (Option-cases r.interrupted) [
        | inl whole ↦ rw (waits, whole) ((waits, small), later)
        | inr (s, cut) ↦ rw (waits, cut) ((waits, small), tt)
      ]
    ]

    not_terminal-IsCapped :
        All (IsCapped max_delay) (not_terminal terminal rejection grow max_delay n delay r rest).1
    unfolding not_terminal
    not_terminal-IsCapped = elim (Option-cases (rejection r.reply)) [
      | inl ok ↦ rw (ok, not_terminal) slept-IsCapped
      | inr (e, bad) ↦ rw (bad, not_terminal) tt
    ]

    replied-IsCapped :
        (o : Option T)
        → All (IsCapped max_delay) (replied terminal rejection grow max_delay n delay r o rest).1
    unfolding replied
    replied-IsCapped none = not_terminal-IsCapped
    replied-IsCapped (some t) = elim (Bool-cases (terminal t)) [
      | inl done ↦ rw done tt
      | inr onward ↦ rw onward not_terminal-IsCapped
    ]

    on_return-IsCapped :
        (e : Option Error)
        → All (IsCapped max_delay) (on_return terminal rejection grow max_delay n delay r e rest).1
    unfolding on_return
    on_return-IsCapped none = replied-IsCapped r.reply
    on_return-IsCapped (some e) = tt

    in_time-IsCapped :
        (last : Option T) (s : Option Stop)
        → All
            (IsCapped max_delay)
            (in_time terminal rejection grow max_delay n delay last r s rest).1
    unfolding in_time
    in_time-IsCapped last none = on_return-IsCapped r.error
    in_time-IsCapped last (some s) = tt

    started-IsCapped :
        (last : Option T) (s : Option Stop)
        → All
            (IsCapped max_delay)
            (started terminal rejection grow max_delay n delay last r s rest).1
    unfolding started
    started-IsCapped last none = in_time-IsCapped last r.after
    started-IsCapped last (some s) = tt

  next_delay-small :
      (d : ℕ) → lt64 max_delay (next_delay terminal rejection grow max_delay d) ≡ false
  unfolding next_delay
  next_delay-small d = ground arith

  -- Where the first delay is not above MaxDelay, every sleep of the polling loop is positive and not
  -- above MaxDelay, whatever the multiplier does.
  pub poll-IsCapped :
      (n delay : ℕ) (last : Option T) (rs : List (Round T))
      → lt64 max_delay delay ≡ false
      → All (IsCapped max_delay) (poll terminal rejection grow max_delay n delay last rs).1
  unfolding poll
  poll-IsCapped n delay last [] h = tt
  poll-IsCapped n delay last (r ∷ rs) h =
      let next = next_delay terminal rejection grow max_delay delay in
      started-IsCapped n delay r _ h
        (poll-IsCapped (suc n) next r.reply rs (next_delay-small delay)) last r.before
