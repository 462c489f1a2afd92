-- ===== src/Prelude/Decimal.antt =====
-- strconv.FormatInt in base ten.
use counterpoint.Prelude.Tests.{ltb, if◌then◌else◌}
use counterpoint.Prelude.Int.{ℤ, pos, negsuc}
use counterpoint.Prelude.Text.{Bytes}
use Prim.Native.Nat.{ℕ, zero, suc, ◌+◌, ◌/◌, ◌%◌}
use mathlib.Core.List.{[], ◌∷◌}

-- The digits of n before `rest`, most significant first; fuel n + 1 is enough.
unfoldable pub digits : ℕ → ℕ → Bytes → Bytes
digits zero n rest = rest
digits (suc fuel) n rest =
    let more = digits fuel (n / 10) ((48 + n % 10) ∷ rest) in
    if ltb n 10 then (48 + n) ∷ rest else more

unfoldable pub format_nat : ℕ → Bytes
unfolding digits
format_nat n = digits (suc n) n []

unfoldable pub format_int : ℤ → Bytes
unfolding format_nat
format_int (pos n) = format_nat n
format_int (negsuc n) = b'-' ∷ format_nat (suc n)
