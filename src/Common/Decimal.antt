-- ===== src/Common/Decimal.antt =====
-- `str(n)` of a number.
use Prim.Native.Nat.{ℕ, zero, suc, ◌+◌, ◌/◌, ◌%◌}
use mathlib.Core.List.{[], ◌∷◌}
use pipelined_core.Common.Tests.{ltb, if◌then◌else◌}
use pipelined_core.Common.Text.{Text}

-- The digits of `n` in front of `rest`; each round takes one digit, so `n` rounds are enough.
unfoldable pub digits_onto : ℕ → ℕ → Text → Text
digits_onto zero n rest = (n + b'0') ∷ rest
digits_onto (suc fuel) n rest =
    let more = digits_onto fuel (n / 10) ((n % 10 + b'0') ∷ rest) in
    if ltb n 10 then (n + b'0') ∷ rest else more

unfoldable pub decimal : ℕ → Text
unfolding digits_onto
decimal n = digits_onto n n []
