-- ===== src/Common/Bits/Step.antt =====
-- The lowest digit of `&`. The native operation is by definition `digits`, which spends one unit of
-- fuel on each binary digit; from the first argument on, more fuel changes nothing.
use Prim.Native.Nat.{
  ℕ, zero, suc, ◌+◌, ◌-◌, ◌*◌, ◌/◌, ◌%◌, ◌≤◌, min, bit_and, digits, bitwise, bit_and-bitwise,
}
use mathlib.Core.Path.{◌≡◌, refl, ap, ◌∙◌}
use native.Mathlib.Omega.{arith}

module _ (low : ℕ → ℕ) (join : ℕ → ℕ → ℕ) where
  spare : (fuel a b : ℕ) → a ≤ fuel → digits low join (suc fuel) a b ≡ digits low join fuel a b
  spare zero zero b h = refl
  spare zero (suc a) b h = absurd (omega arith)
  spare (suc fuel) zero b h = refl
  spare (suc fuel) (suc a) b h =
      ap (λ (high : ℕ). high * 2 + join (suc a % 2) (b % 2))
        (spare fuel (suc a / 2) (b / 2) (omega arith))

  enough :
      (gap fuel more a b : ℕ)
      → fuel + gap ≡ more
      → a ≤ fuel
      → digits low join more a b ≡ digits low join fuel a b
  enough zero fuel more a b e h = ap (λ (f : ℕ). digits low join f a b) (omega arith)
  enough (suc gap) fuel zero a b e h = absurd (omega arith)
  enough (suc gap) fuel (suc more) a b e h =
      spare more a b (omega arith) ∙ enough gap fuel more a b (omega arith) h

  low_digit :
      (a b : ℕ)
      → bitwise low join (suc a) b
        ≡ bitwise low join (suc a / 2) (b / 2) * 2 + join (suc a % 2) (b % 2)
  low_digit a b =
      ap (λ (high : ℕ). high * 2 + join (suc a % 2) (b % 2))
        (enough (a - suc a / 2) (suc a / 2) a (suc a / 2) (b / 2) (omega arith) (omega arith))

-- The lowest digit, and twice the `&` of the halves.
pub bit_and_step : (x y : ℕ) → bit_and x y ≡ min (x % 2) (y % 2) + 2 * bit_and (x / 2) (y / 2)
bit_and_step (suc x) y = omega (
  arith,
  bit_and-bitwise (suc x) y,
  low_digit (λ z. 0) min x y,
  bit_and-bitwise (suc x / 2) (y / 2),
)
bit_and_step zero y = omega (arith, bit_and-bitwise 0 y, bit_and-bitwise 0 (y / 2))
