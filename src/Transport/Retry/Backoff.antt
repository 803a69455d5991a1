-- ===== src/Transport/Retry/Backoff.antt =====
-- The backoff schedule without jitter: its value, its bound and its growth, and the bases for which
-- the shift overflows.
use native.Mathlib.Nat.{pow-le-pow_right}
use Prim.Native.Nat.{min}
use atome_fin_go_sdk.Base.{
  ℕ, ◌-◌, ◌*◌, ◌^◌, ◌%◌, ◌∙◌, ◌≤◌, ◌<◌, ◌≡◌, ap, true, Option, arith, IsPositive, int64_half,
  int64_mod,
}
use atome_fin_go_sdk.Transport.Retry.{Jitter, RetryPolicy, shift_of, capped, backoff}

shift_of-le : (attempt : ℕ) → shift_of attempt ≤ 30
unfolding shift_of
shift_of-le attempt = ground arith

shift_of-eq-min : (attempt : ℕ) → attempt < int64_half → shift_of attempt ≡ min (attempt - 1) 30
unfolding shift_of
shift_of-eq-min attempt h = ground arith

shift_of_mono : (a b : ℕ) → a ≤ b → b < int64_half → shift_of a ≤ shift_of b
unfolding shift_of
shift_of_mono a b h k = ground arith

shift_of_late : (attempt : ℕ) → 31 ≤ attempt → attempt < int64_half → shift_of attempt ≡ 30
unfolding shift_of
shift_of_late attempt h lt = ground arith

pow_mono : (s t : ℕ) → s ≤ t → 2 ^ s ≤ 2 ^ t
pow_mono s t h = pow-le-pow_right (omega arith) h

scaled_mono : (base s t : ℕ) → s ≤ t → base * 2 ^ s ≤ base * 2 ^ t
scaled_mono base s t h = grind (arith, pow_mono s t h)

scaled_lt : (base s : ℕ) → s ≤ 30 → base < 8589934592 → base * 2 ^ s < int64_half
scaled_lt base s h k = omega (arith, scaled_mono base s 30 h)

module _ (J : Jitter) (p : RetryPolicy J.Ratio) (steady : J.is_zero p.jitter ≡ true) where
  backoff_steady :
      (draw : Option ℕ) (attempt : ℕ) → backoff J p draw attempt ≡ capped J p (shift_of attempt)
  unfolding backoff
  backoff_steady draw attempt = rw steady

  module _ (positive : IsPositive p.cap) where
    capped_lem : (s : ℕ) → s ≤ 30 → p.base < 8589934592 → capped J p s ≡ min p.cap (p.base * 2 ^ s)
    unfolding capped
    capped_lem s h k = let small = scaled_lt p.base s h k in ground arith

    backoff-shift_of :
        (draw : Option ℕ) (attempt : ℕ)
        → p.base < 8589934592
        → backoff J p draw attempt ≡ min p.cap (p.base * 2 ^ shift_of attempt)
    backoff-shift_of draw attempt k =
        backoff_steady draw attempt ∙ capped_lem (shift_of attempt) (shift_of-le attempt) k

    -- For a positive cap and a base below 2 ^ 33 ns (about 8.6 s), with no jitter, the backoff of a
    -- non-negative attempt is the base doubled `attempt - 1` times (not at all for attempt 0), and at
    -- most 30 times, or the cap where that is smaller.
    pub backoff-eq-min :
        (draw : Option ℕ) (attempt : ℕ)
        → p.base < 8589934592
        → attempt < int64_half
        → (backoff J p draw attempt ≡ min p.cap (p.base * 2 ^ min (attempt - 1) 30))
          × (backoff J p draw attempt ≤ p.cap)
    backoff-eq-min draw attempt k lt =
        let value =
          backoff-shift_of draw attempt k
          ∙ ap (λ s. min p.cap (p.base * 2 ^ s)) (shift_of-eq-min attempt lt) in
        (value, omega (arith, value))

    -- For a positive cap and a base below 2 ^ 33 ns, with no jitter, the backoff of an attempt is
    -- at most that of a later attempt.
    pub backoff_mono :
        (u v : Option ℕ) (a b : ℕ)
        → a ≤ b
        → b < int64_half
        → p.base < 8589934592
        → backoff J p u a ≤ backoff J p v b
    backoff_mono u v a b h k small = omega (
      arith,
      backoff-shift_of u a small,
      backoff-shift_of v b small,
      scaled_mono p.base (shift_of a) (shift_of b) (shift_of_mono a b h k),
    )

  capped_zero : p.base * 2 ^ 30 % int64_mod ≡ 0 → capped J p 30 ≡ 0
  unfolding capped
  capped_zero h = rw h (ground arith)

  -- Where the base is a multiple of 2 ^ 34 ns (about 17 s) and there is no jitter, the shift drops
  -- every bit: from attempt 31 on the backoff is 0, whatever the cap.
  pub backoff_overflow :
      (k : ℕ) (draw : Option ℕ) (attempt : ℕ)
      → p.base ≡ k * 17179869184
      → 31 ≤ attempt
      → attempt < int64_half
      → backoff J p draw attempt ≡ 0
  backoff_overflow k draw attempt e h lt =
      backoff_steady draw attempt
      ∙ ap (capped J p) (shift_of_late attempt h lt)
      ∙ capped_zero (omega (arith, e))
