-- ===== src/Base/Decimal.antt =====
-- `strconv.Itoa` on an int64 pattern, and reading a decimal numeral back.
use Prim.Native.Nat.{ℕ, zero, suc, ◌+◌, ◌-◌, ◌*◌, ◌/◌, ◌%◌, ◌^◌, ◌<◌}
use mathlib.Core.Path.{◌≡◌, refl}
use mathlib.Core.Bool.{false}
use mathlib.Core.Logic.{inl, inr}
use mathlib.Core.List.{[], ◌∷◌, ◌++◌}
use native.Mathlib.Omega.{arith}
use atome_fin_go_sdk.Base.Tests.{ltb, leb, if◌then◌else◌, Bool-cases, ltb→lt}
use atome_fin_go_sdk.Base.Strings.{Bytes}
use atome_fin_go_sdk.Base.Int64.{int64_half, int64_mod}

-- The digits of a number below 10 ^ fuel, without leading zeros.
unfoldable pub digits : (fuel n : ℕ) → Bytes
digits zero n = []
digits (suc fuel) n =
    let rest = digits fuel (n / 10) in (if ltb n 10 then [] else rest) ++ (48 + n % 10) ∷ []

-- Twenty digits are enough for 2 ^ 64.
unfoldable pub itoa : ℕ → Bytes
itoa n = if leb int64_half n then b'-' ∷ digits 20 (int64_mod - n) else digits 20 n

-- The number that a numeral denotes, after a number read so far.
unfoldable pub numeral_from : ℕ → Bytes → ℕ
numeral_from n [] = n
numeral_from n (c ∷ s) = numeral_from (n * 10 + (c - 48)) s

abbrev pub numeral : Bytes → ℕ
numeral = numeral_from 0

numeral_from-append :
    (n : ℕ) (s : Bytes) (c : ℕ) → numeral_from n (s ++ c ∷ []) ≡ numeral_from n s * 10 + (c - 48)
unfolding numeral_from
numeral_from-append n [] c = refl
numeral_from-append n (d ∷ s) c = numeral_from-append (n * 10 + (d - 48)) s c

numeral-digits : (fuel n : ℕ) → n < 10 ^ fuel → numeral (digits fuel n) ≡ n
unfolding digits numeral_from
numeral-digits zero n h = omega (arith, h)
numeral-digits (suc fuel) n h =
    let below : n / 10 < 10 ^ fuel = omega (arith, h) in
    let rest = numeral-digits fuel (n / 10) below in
    elim (Bool-cases (ltb n 10)) [
      | inl small ↦ rw small (omega (arith, ltb→lt n 10 small))
      | inr large ↦
          rw (large, numeral_from-append 0 (digits fuel (n / 10)) (48 + n % 10), rest) (omega arith)
    ]

pub numeral-itoa : (n : ℕ) → n < int64_half → numeral (itoa n) ≡ n
unfolding itoa
numeral-itoa n h =
    let natural : leb int64_half n ≡ false = ground (arith, h) in
    rw natural (numeral-digits 20 n (omega (arith, h)))
