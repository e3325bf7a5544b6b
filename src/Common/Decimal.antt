-- ===== src/Common/Decimal.antt =====
-- Decimal text of a number, as fmt prints it.
use Prim.Native.Nat.{ℕ, zero, suc, ◌+◌, ◌-◌, ◌/◌, ◌%◌}
use Prim.Native.String.{String, ◌++◌, len, slice}
use tcg.Common.Tests.{ltb, if◌then◌else◌}

-- The text of the number before the given one, on fuel: a round for each digit.
prefixed : ℕ → ℕ → String → String
prefixed zero n text = text
prefixed (suc fuel) n text =
    let last = slice "0123456789" (n % 10) (n % 10 + 1) ++ text in
    let longer = prefixed fuel (n / 10) last in if ltb 9 n then longer else last

-- `%d` of a number; it has at most one digit more than the number.
unfoldable pub decimal : ℕ → String
unfolding prefixed
decimal n = prefixed (suc n) n ""

padding : ℕ → String
padding zero = ""
padding (suc n) = "0" ++ padding n

-- `%04d` of a number.
unfoldable pub decimal_padded : ℕ → String
unfolding decimal padding
decimal_padded n = let s = decimal n in padding (4 - len s) ++ s
