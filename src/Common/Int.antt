-- ===== src/Common/Int.antt =====
-- Go's signed integers: `negsuc n` is -(n + 1). The library's ℤ stands on the unary numbers.
use Prim.Native.Nat.{ℕ, zero, suc, ◌+◌, ◌*◌, ◌/◌, ◌-◌, ◌^◌, ◌%◌}
use mathlib.Core.Bool.{Bool, true, false}
use tcg.Common.Tests.{ltb, ◌==◌, if◌then◌else◌}

pub data ℤ : Type 0 where
  pos : ℕ → ℤ
  negsuc : ℕ → ℤ

-- `int64(v)` of an unsigned 64-bit value wraps.
unfoldable pub int64_of_uint : ℕ → ℤ
int64_of_uint n = let m = n % 2 ^ 64 in if ltb m (2 ^ 63) then pos m else negsuc (2 ^ 64 - 1 - m)

abbrev pub ltb_ℤ : ℤ → ℤ → Bool
ltb_ℤ (pos m) (pos n) = ltb m n
ltb_ℤ (pos m) (negsuc n) = false
ltb_ℤ (negsuc m) (pos n) = true
ltb_ℤ (negsuc m) (negsuc n) = ltb n m

-- `uint64(v)` of a signed one.
abbrev pub uint_of_int64 : ℤ → ℕ
uint_of_int64 (pos n) = n
uint_of_int64 (negsuc n) = 2 ^ 64 - 1 - n

abbrev pub neg : ℕ → ℤ
neg zero = pos 0
neg (suc n) = negsuc n

-- `v / 8 * 5`, where the quotient is cut towards 0.
unfoldable pub five_eighths : ℤ → ℤ
five_eighths (pos n) = pos (n / 8 * 5)
five_eighths (negsuc n) = neg ((n + 1) / 8 * 5)

abbrev pub eq_ℤ : ℤ → ℤ → Bool
eq_ℤ (pos m) (pos n) = m == n
eq_ℤ (negsuc m) (negsuc n) = m == n
eq_ℤ _ _ = false
