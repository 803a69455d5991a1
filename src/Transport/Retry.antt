-- ===== src/Transport/Retry.antt =====
-- atomefin/transport/retry.go. Durations and MaxAttempts are int64 patterns. The jitter is a float:
-- its type and what the code computes with it are the parameter `Jitter`.
pub mod Backoff
use atome_fin_go_sdk.Base.{
  ℕ, ◌+◌, ◌-◌, ◌*◌, ◌^◌, ◌%◌, ◌≤◌, ◌<◌, ◌≡◌, Bool, true, false, ◌||◌, ◌&&◌, not, Option, none, some,
  ◌==◌, leb, ltb, if◌then◌else◌, String, le_zero, lt64, int64_mod, IsPositive,
}
use atome_fin_go_sdk.Errors.{Cause, is_server_status}

-- `scale j u d` is time.Duration(float64(d) * (1 + j*r)) for the draw `u` of eight random bytes.
pub record Jitter : Type 1 where
  pub Ratio : Type 0
  pub is_zero : Ratio → Bool
  pub in_range : Ratio → Bool
  pub scale : Ratio → ℕ → ℕ → ℕ

-- The policy, for a ratio type of a `Jitter`.
pub record RetryPolicy (Ratio : Type 0) : Type 0 where
  pub max_attempts : ℕ
  pub base : ℕ
  pub cap : ℕ
  pub jitter : Ratio
  pub retry_on_status : ℕ → Bool
  pub retry_on_transport_error : Cause → Bool

unfoldable pub default_retry_on_status : ℕ → Bool
unfolding is_server_status
default_retry_on_status status = is_server_status status

-- `err != nil`, asked of an error.
unfoldable pub default_retry_on_transport_error : Cause → Bool
default_retry_on_transport_error c = true

abbrev negative : ℕ → Bool
negative x = lt64 x 0

-- `shift`: attempt - 1, at least 0 and at most 30.
unfoldable pub shift_of : ℕ → ℕ
shift_of attempt =
    let n = if lt64 attempt 1 then 1 else attempt in if ltb 30 (n - 1) then 30 else n - 1

module _ (J : Jitter) where
  open J use {Ratio, is_zero, in_range, scale}

  -- 3 attempts, 250 ms, 4 s; the ratio is 0.20.
  unfoldable pub default_retry_policy : Ratio → RetryPolicy Ratio
  default_retry_policy ratio = record {
    max_attempts = 3;
    base = 250000000;
    cap = 4000000000;
    jitter = ratio;
    retry_on_status = default_retry_on_status;
    retry_on_transport_error = default_retry_on_transport_error;
  }

  -- `Validate`: the text of the error, or none.
  unfoldable pub validate : RetryPolicy Ratio → Option String
  validate p =
      if lt64 p.max_attempts 1
      then some "MaxAttempts must be >= 1"
      else if negative p.base
      then some "Base must be >= 0"
      else if negative p.cap
      then some "Cap must be >= 0"
      else if not (le_zero p.cap) && lt64 p.cap p.base
      then some "Base must be <= Cap"
      else if not (in_range p.jitter)
      then some "Jitter must be in [0,1]"
      else none

  -- `p.Base << shift` and the cap.
  unfoldable pub capped : RetryPolicy Ratio → ℕ → ℕ
  capped p shift =
      let d = p.base * 2 ^ shift % int64_mod in
      if not (le_zero p.cap) && lt64 p.cap d then p.cap else d

  jittered : Ratio → Option ℕ → ℕ → ℕ
  jittered j none d = d
  jittered j (some u) d = let e = scale j u d in if negative e then 0 else e

  -- `Backoff`; the draw is `none` when crypto/rand fails.
  unfoldable pub backoff : RetryPolicy Ratio → Option ℕ → ℕ → ℕ
  unfolding capped jittered
  backoff p draw attempt =
      let d = capped p (shift_of attempt) in
      if not (is_zero p.jitter) && not (le_zero d) then jittered p.jitter draw d else d
