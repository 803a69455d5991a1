-- ===== src/Base/Int64.antt =====
-- Go's int64 (and int on a 64-bit platform), as its two's complement bit pattern below 2 ^ 64.
use Prim.Native.Nat.{ℕ, ◌+◌, ◌<◌, ◌%◌}
use mathlib.Core.Bool.{Bool, ◌||◌}
use atome_fin_go_sdk.Base.Tests.{ltb, leb, ◌==◌}

-- 2 ^ 64 and 2 ^ 63.
abbrev pub int64_mod : ℕ
int64_mod = 18446744073709551616

abbrev pub int64_half : ℕ
int64_half = 9223372036854775808

abbrev pub IsInt64 : ℕ → Type 0
IsInt64 x = x < int64_mod

-- `a + b`, with Go's wrap-around.
unfoldable pub add64 : ℕ → ℕ → ℕ
add64 a b = (a + b) % int64_mod

-- `x <= 0`: zero, or the sign bit is set.
abbrev pub le_zero : ℕ → Bool
le_zero x = x == 0 || leb int64_half x

-- The order of the signed values is the order of the patterns shifted by 2 ^ 63.
abbrev pub bias : ℕ → ℕ
bias x = (x + int64_half) % int64_mod

-- `a < b` on signed values.
abbrev pub lt64 : ℕ → ℕ → Bool
lt64 a b = ltb (bias a) (bias b)

-- Positive as a signed value.
abbrev pub IsPositive : ℕ → Type 0
IsPositive x = (0 < x) × (x < int64_half)
