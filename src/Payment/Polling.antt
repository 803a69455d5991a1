-- ===== src/Payment/Polling.antt =====
-- atomefin/payment/payment.go: pollUntilTerminal. The calls and the clock are the list of rounds;
-- what the loop returns and the sleeps it makes are its result.
pub mod Rounds
pub mod Sleeps
use atome_fin_go_sdk.Base.{
  [], ◌∷◌, ℕ, suc, Bool, true, false, not, ◌&&◌, Option, none, some, List, if◌then◌else◌, Bytes,
  bytes_eq, is_empty, codes, le_zero, lt64,
}
use atome_fin_go_sdk.Errors.{Error, RejectionError}

-- Why `pollCtx` is done: the caller's context, or MaxWait.
pub data Stop : Type 0 where
  caller_done max_wait_exceeded : Stop

-- One round: `pollCtx.Err()` before and after the call, what the call returns (the response may be
-- nil), and whether the sleep after it is cut short.
pub record Round {ℓ} (T : Type ℓ) : Type ℓ where
  pub before : Option Stop
  pub reply : Option T
  pub error : Option Error
  pub after : Option Stop
  pub interrupted : Option Stop

-- What the loop returns; `pending` where it asks for a further round.
pub data Polled {ℓ} (T : Type ℓ) : Type ℓ where
  finished : T → Polled T
  rejected : RejectionError → Polled T
  failed : Error → Polled T
  stopped : (last : Option T) → (rounds : ℕ) → Stop → Polled T
  pending : Polled T

-- `IsSyncRejection`.
unfoldable pub is_sync_rejection : (code status : Bytes) → Bool
is_sync_rejection code status =
    not (is_empty code) && not (bytes_eq code (codes "SUCCESS")) && is_empty status

-- `grow` is time.Duration(float64(delay) * Multiplier).
module _ {ℓ} {T : Type ℓ} (terminal : T → Bool) (rejection : Option T → Option RejectionError)
    (grow : ℕ → ℕ) (max_delay : ℕ) where
  unfoldable pub next_delay : ℕ → ℕ
  next_delay delay = let next = grow delay in if lt64 max_delay next then max_delay else next

  -- `sleepWithCtx`, which does not wait where the delay is not positive.
  slept : ℕ → ℕ → Round T → Polled T × List ℕ → Polled T × List ℕ
  slept n delay r (result, sleeps) =
      if le_zero delay then (result, sleeps) else elim r.interrupted [
        | none ↦ (result, delay ∷ sleeps)
        | some s ↦ (stopped r.reply (suc n) s, delay ∷ [])
      ]

  not_terminal : ℕ → ℕ → Round T → Polled T × List ℕ → Polled T × List ℕ
  unfolding slept
  not_terminal n delay r rest = elim (rejection r.reply) [
    | none ↦ slept n delay r rest
    | some e ↦ (rejected e, [])
  ]

  replied : ℕ → ℕ → Round T → Option T → Polled T × List ℕ → Polled T × List ℕ
  unfolding not_terminal
  replied n delay r none rest = not_terminal n delay r rest
  replied n delay r (some t) rest =
      if terminal t then (finished t, []) else not_terminal n delay r rest

  on_return : ℕ → ℕ → Round T → Option Error → Polled T × List ℕ → Polled T × List ℕ
  unfolding replied
  on_return n delay r none rest = replied n delay r r.reply rest
  on_return n delay r (some e) rest = (failed e, [])

  latest : Option T → Option T → Option T
  latest none last = last
  latest (some t) last = some t

  in_time : ℕ → ℕ → Option T → Round T → Option Stop → Polled T × List ℕ → Polled T × List ℕ
  unfolding on_return latest
  in_time n delay last r none rest = on_return n delay r r.error rest
  in_time n delay last r (some s) rest = (stopped (latest r.reply last) (suc n) s, [])

  started : ℕ → ℕ → Option T → Round T → Option Stop → Polled T × List ℕ → Polled T × List ℕ
  unfolding in_time
  started n delay last r none rest = in_time n delay last r r.after rest
  started n delay last r (some s) rest = (stopped last n s, [])

  -- The loop, after `n` rounds.
  unfoldable pub poll : (n delay : ℕ) → (last : Option T) → List (Round T) → Polled T × List ℕ
  unfolding started next_delay
  poll n delay last [] = (pending, [])
  poll n delay last (r ∷ rs) =
      let rest = poll (suc n) (next_delay delay) r.reply rs in started n delay last r r.before rest
