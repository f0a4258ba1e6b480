-- ===== src/Common/Bits.antt =====
-- Bits of a word: `&` and the masks that the code builds, one bit at a time.
mod Step
use Step.{bit_and_step}
use Prim.Native.Nat.{ℕ, zero, suc, ◌≤◌, ◌<◌, ◌∣◌, ◌+◌, ◌-◌, ◌*◌, ◌/◌, ◌%◌, ◌^◌, bit_and}
use mathlib.Core.Path.{◌≡◌, refl, ap, ◌∙◌, subst}
use mathlib.Core.Bool.{Bool, true, false, ◌&&◌}
use native.Mathlib.Nat.{pow-suc, one-le-pow, mul-dvd-mul_left, one-dvd}
use native.Mathlib.Decide.{ℕ_discrete}
use native.Mathlib.Omega.{arith}
use chipyard_fault_injection.Common.Tests.{leb, ltb, ◌==◌}

-- The bit of `a` that a loop of `a & 1; a >>= 1` meets in round `i`.
abbrev pub test_bit : ℕ → ℕ → Bool
test_bit a zero = a % 2 == 1
test_bit a (suc i) = test_bit (a / 2) i

pub test_bit-zero : (i : ℕ) → test_bit 0 i ≡ false
test_bit-zero zero = refl
test_bit-zero (suc i) = test_bit-zero i

pub test_bit-bit_and : (i a b : ℕ) → test_bit (bit_and a b) i ≡ (test_bit a i && test_bit b i)
test_bit-bit_and zero a b = ground (arith, bit_and_step a b)
test_bit-bit_and (suc i) a b =
    let e : bit_and a b / 2 ≡ bit_and (a / 2) (b / 2) = omega (arith, bit_and_step a b) in
    rw e (test_bit-bit_and i (a / 2) (b / 2))

-- Bit 0 and the rest of a number made of them.
double-mod : (n : ℕ) → n * 2 % 2 ≡ 0
double-mod n = omega arith

test_bit-low_mask : (s i : ℕ) → test_bit (2 ^ s - 1) i ≡ ltb i s
test_bit-low_mask zero i = rw (test_bit-zero i) (ground arith)
test_bit-low_mask (suc s) zero = ground (arith, pow-suc 2 s, one-le-pow s 2)
test_bit-low_mask (suc s) (suc i) =
    let e : (2 ^ suc s - 1) / 2 ≡ 2 ^ s - 1 = omega (arith, pow-suc 2 s, one-le-pow s 2) in
    rw (e, test_bit-low_mask s i) (ground arith)

mul-pow-suc : (a o : ℕ) → a * 2 ^ suc o ≡ 2 * (a * 2 ^ o)
mul-pow-suc a o = omega (arith, ap (λ (t : ℕ). a * t) (pow-suc 2 o))

-- The mask of `s` ones from bit `o` on.
pub test_bit-mask : (s o i : ℕ) → test_bit ((2 ^ s - 1) * 2 ^ o) i ≡ (leb o i && ltb i (o + s))
test_bit-mask s zero i =
    let e : (2 ^ s - 1) * 2 ^ 0 ≡ 2 ^ s - 1 = omega arith in
    rw (e, test_bit-low_mask s i) (ground arith)
test_bit-mask s (suc o) zero = ground (arith, mul-pow-suc (2 ^ s - 1) o)
test_bit-mask s (suc o) (suc i) =
    let e : (2 ^ s - 1) * 2 ^ suc o / 2 ≡ (2 ^ s - 1) * 2 ^ o =
      omega (arith, mul-pow-suc (2 ^ s - 1) o) in
    rw (e, test_bit-mask s o i) (ground arith)

bit_and_self_fuel : (k n : ℕ) → n ≤ k → bit_and n n ≡ n
bit_and_self_fuel k zero h = omega (arith, bit_and_step 0 0)
bit_and_self_fuel zero (suc n) h = absurd (omega arith)
bit_and_self_fuel (suc k) (suc n) h =
    omega (arith, bit_and_step (suc n) (suc n), bit_and_self_fuel k (suc n / 2) (omega arith))

-- `n & (n - 1)` is 0 for powers of two only: such a number divides a larger power of two.
pub power_of_bit_and : (k n : ℕ) → 0 < n → n < 2 ^ k → bit_and n (n - 1) ≡ 0 → n ∣ 2 ^ k
power_of_bit_and zero n h lt e = absurd (omega arith)
power_of_bit_and (suc k) n h lt e = elim (ℕ_discrete (n % 2) 0) [
  | yes even ↦
      let pred_half : (n - 1) / 2 ≡ n / 2 - 1 = omega arith in
      let raw : bit_and (n / 2) ((n - 1) / 2) ≡ 0 = omega (arith, bit_and_step n (n - 1)) in
      let rest : bit_and (n / 2) (n / 2 - 1) ≡ 0 = rw pred_half at raw in
      let twice : 2 * (n / 2) ∣ 2 * 2 ^ k =
        mul-dvd-mul_left (n / 2) 2
          (power_of_bit_and k (n / 2) (omega arith) (omega (arith, pow-suc 2 k)) rest) in
      let whole : 2 * (n / 2) ≡ n = omega arith in
      let doubled : 2 * 2 ^ k ≡ 2 ^ suc k = omega (arith, pow-suc 2 k) in
      rw (whole, doubled) at twice
  | no odd ↦
      let pred_half : (n - 1) / 2 ≡ n / 2 = omega arith in
      let raw : bit_and (n / 2) ((n - 1) / 2) ≡ 0 = omega (arith, bit_and_step n (n - 1)) in
      let top : bit_and (n / 2) (n / 2) ≡ 0 = rw pred_half at raw in
      let one : 1 ≡ n = omega (arith, bit_and_self_fuel (n / 2) (n / 2) (omega arith)) in
      rw one at (one-dvd (2 ^ suc k))
]
