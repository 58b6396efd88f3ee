-- ===== src/Common/Text/Decimal.antt =====
-- `%d` of a number that is not negative.
use Prim.Native.Nat.{ℕ, zero, suc, ◌+◌, ◌<◌, ◌/◌, ◌%◌}
use Prim.Native.Char.{char}
use Prim.Native.String.{String}
use native.Mathlib.Omega.{arith}
use patch_board.Common.Tests.{ltb, if◌then◌else◌}
use patch_board.Common.Text.{IsScalar-of_lt}

small_digit : (n : ℕ) → b'0' + n % 10 < 55296
small_digit n = omega arith

-- The digits of a number in front of a text. A round divides the number by ten, so the number itself
-- is fuel enough.
digits_before : ℕ → ℕ → String → String
digits_before zero n text = text
digits_before (suc fuel) n text =
    let shown =
      String.◌∷◌ (char (b'0' + n % 10) (IsScalar-of_lt (b'0' + n % 10) (small_digit n))) text in
    if ltb n 10 then shown else digits_before fuel (n / 10) shown

unfoldable pub decimal : ℕ → String
unfolding digits_before small_digit
decimal n = digits_before (suc n) n ""
