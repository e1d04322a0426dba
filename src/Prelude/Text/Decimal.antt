-- ===== src/Prelude/Text/Decimal.antt =====
-- `String(n)` of a natural number: its decimal digits. The fuel is one more than the number, and
-- each round divides it by ten.
use Prim.Native.Nat.{ℕ, zero, suc, ◌+◌, ◌/◌, ◌%◌}
use mathlib.Core.List.{[], ◌∷◌, ◌++◌}
use go_check_ssl.Prelude.Tests.{ltb, if◌then◌else◌}
use go_check_ssl.Prelude.Text.{Text}

unfoldable pub decimal_digits : ℕ → ℕ → Text
decimal_digits zero n = []
decimal_digits (suc fuel) n =
    let front = decimal_digits fuel (n / 10) in
    if ltb n 10 then (b'0' + n) ∷ [] else front ++ (b'0' + n % 10) ∷ []

unfoldable pub to_decimal : ℕ → Text
unfolding decimal_digits
to_decimal n = decimal_digits (suc n) n
