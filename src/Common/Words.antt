-- ===== src/Common/Words.antt =====
-- Machine arithmetic. A `uint64_t` is a number below 2 ^ 64; an `int` is its 32-bit pattern.
use Prim.Native.Nat.{ℕ, ◌+◌, ◌-◌, ◌*◌, ◌/◌, ◌%◌, ◌^◌}
use mathlib.Core.Bool.{Bool, ◌&&◌}
use chipyard_fault_injection.Common.Tests.{ltb, ◌==◌, if◌then◌else◌}
use chipyard_fault_injection.Common.Results.{
  Result, ok, err, division_by_zero, undefined_shift, int_overflow,
}

abbrev pub u64 : ℕ → ℕ
u64 n = n % 2 ^ 64

abbrev pub u32 : ℕ → ℕ
u32 n = n % 2 ^ 32

abbrev pub u8 : ℕ → ℕ
u8 n = n % 2 ^ 8

-- `uint64_t` subtraction of a number below 2 ^ 64.
abbrev pub sub_u64 : ℕ → ℕ → ℕ
sub_u64 a b = (a + 2 ^ 64 - b) % 2 ^ 64

-- An `int` pattern that stands for a number above 0.
abbrev pub is_positive : ℕ → Bool
is_positive a = ltb 0 a && ltb a (2 ^ 31)

-- The conversion of an `int` to `uint64_t`.
abbrev pub sext32 : ℕ → ℕ
sext32 a = if ltb a (2 ^ 31) then a else a + (2 ^ 64 - 2 ^ 32)

-- `a / b` and `a % b` trap at 0.
unfoldable pub div_u64 : ℕ → ℕ → Result ℕ
div_u64 a b = if b == 0 then err division_by_zero else ok (a / b)

unfoldable pub mod_u64 : ℕ → ℕ → Result ℕ
mod_u64 a b = if b == 0 then err division_by_zero else ok (a % b)

-- `a << k` on an `int`: undefined from its width on, and wrapping below it.
unfoldable pub shl_int : ℕ → ℕ → Result ℕ
shl_int a k = if ltb k 32 then ok ((a * 2 ^ k) % 2 ^ 32) else err undefined_shift

-- `a - 1` on an `int`: INT_MIN overflows.
unfoldable pub pred_int : ℕ → Result ℕ
pred_int a = if a == 2 ^ 31 then err int_overflow else ok ((a + 2 ^ 32 - 1) % 2 ^ 32)

-- A sum or product of two `int`s that are not negative: it has to stay below 2 ^ 31.
unfoldable pub check_int : ℕ → Result ℕ
check_int a = if ltb a (2 ^ 31) then ok a else err int_overflow

-- `done ? (exit_code << 1 | 1) : 0`, as the pattern of an `int`.
abbrev pub exit_word : Bool → ℕ → ℕ
exit_word done code = if done then u32 (code * 2) + 1 else 0
