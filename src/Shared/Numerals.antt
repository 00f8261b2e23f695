-- ===== src/Shared/Numerals.antt =====
-- Decimal numerals: `${number}`.
use Prim.Native.Nat.{ℕ, zero, suc, ◌+◌, ◌/◌, ◌%◌, ◌≤◌, ◌<◌}
use mathlib.Core.Path.{◌≡◌}
use mathlib.Core.Logic.{inl, inr}
use mathlib.Core.Bool.{true, false}
use mathlib.Core.List.{[], ◌∷◌}
use native.Mathlib.Omega.{arith}
use ai_dev_harness.Shared.Tests.{leb, Bool-cases}
use ai_dev_harness.Shared.Strings.{Text}

-- A number has no more digits than its value and one.
unfoldable pub decimal_within : (fuel n : ℕ) → Text → Text
decimal_within zero n tail = tail
decimal_within (suc k) n tail =
    let digits = (b'0' + n % 10) ∷ tail in
    elim (leb 10 n) [ true ↦ decimal_within k (n / 10) digits | false ↦ digits ]

unfoldable pub decimal : ℕ → Text
unfolding decimal_within
decimal n = decimal_within (suc n) n []

-- Two amounts of fuel above the number give the same numeral.
decimal_fuel :
    (k m n : ℕ) (tail : Text) → n < k → n < m → decimal_within k n tail ≡ decimal_within m n tail
unfolding decimal_within
decimal_fuel zero m n tail h g = absurd (omega (arith, h))
decimal_fuel (suc k) zero n tail h g = absurd (omega (arith, g))
decimal_fuel (suc k) (suc m) n tail h g = elim (Bool-cases (leb 10 n)) [
  | inr q ↦ ground arith
  | inl q ↦
      let large : 10 ≤ n = ground arith in
      let step =
        decimal_fuel k m (n / 10) ((b'0' + n % 10) ∷ tail) (omega (arith, large, h))
          (omega (arith, large, g)) in
      ground (arith, step)
]
