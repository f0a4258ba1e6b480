-- ===== src/Mm/Masks.antt =====
-- The mask arithmetic of `mm_t::write`: `((1 << size) - 1) << (addr % word_size)` on an `int`.
use native.Mathlib.Nat.{pow-le-pow_right, one-le-pow, mul-le-mul, mod-lt}
use chipyard_fault_injection.Common.{
  ℕ, ◌-◌, ◌*◌, ◌/◌, ◌%◌, ◌^◌, ◌≤◌, ◌<◌, ◌≡◌, ◌==◌, ok, false, arith, ap, bit_and, shl_int, pred_int,
  mod_u64, div_u64, sext32,
}
use chipyard_fault_injection.Mm.{Mm, mask_strobe}

-- A store of whole words, on a bus of at most 16 bytes. A power of two divides 2 ^ 64.
pub record IsValid (m : Mm) : Type 0 where
  pub word_pos : 0 < m.word_size
  pub narrow : m.word_size ≤ 16
  pub size_pos : 0 < m.size
  pub whole : m.size % m.word_size ≡ 0
  pub power : 2 ^ 64 % m.word_size ≡ 0

pub mod_u64-ok : (a b : ℕ) → 0 < b → mod_u64 a b ≡ ok (a % b)
unfolding mod_u64
mod_u64-ok a b h = ground arith

pub div_u64-ok : (a b : ℕ) → 0 < b → div_u64 a b ≡ ok (a / b)
unfolding div_u64
div_u64-ok a b h = ground arith

ones-ok :
    (size : ℕ)
    → size ≤ 16
    → (shl_int 1 size ≡ ok (2 ^ size)) × (pred_int (2 ^ size) ≡ ok (2 ^ size - 1))
unfolding shl_int pred_int
ones-ok size h = ground (arith, pow-le-pow_right {n = 2} (omega arith) h, one-le-pow size 2)

mask-le :
    (size lane : ℕ) → size ≤ 16 → lane < 16 → (2 ^ size - 1) * 2 ^ lane ≤ (2 ^ 16 - 1) * 2 ^ 15
mask-le size lane h k =
    mul-le-mul {n₂ = 2 ^ 16 - 1} {m₂ = 2 ^ 15}
      (omega (arith, pow-le-pow_right {n = 2} (omega arith) h))
      (pow-le-pow_right {n = 2} (omega arith) {j = 15} (omega arith))

shl-ok :
    (size lane : ℕ)
    → size ≤ 16
    → lane < 16
    → shl_int (2 ^ size - 1) lane ≡ ok ((2 ^ size - 1) * 2 ^ lane)
unfolding shl_int
shl-ok size lane h k = ground (arith, mask-le size lane h k, one-le-pow size 2)

sext32-mask :
    (size lane : ℕ)
    → size ≤ 16
    → lane < 16
    → sext32 ((2 ^ size - 1) * 2 ^ lane) ≡ (2 ^ size - 1) * 2 ^ lane
sext32-mask size lane h k = ground (arith, mask-le size lane h k)

pub mask_strobe-ok :
    (m : Mm) (addr strb size : ℕ)
    → IsValid m
    → size ≤ m.word_size
    → mask_strobe m addr strb size ≡ ok (bit_and strb ((2 ^ size - 1) * 2 ^ (addr % m.word_size)))
unfolding mask_strobe
mask_strobe-ok m addr strb size v h =
    let lane : addr % m.word_size < 16 = omega (arith, mod-lt addr v.word_pos) in
    let fits : size ≤ 16 = omega arith in
    let small : size == 64 ≡ false = ground arith in
    rw
      (
        small,
        (ones-ok size fits).0,
        (ones-ok size fits).1,
        mod_u64-ok addr m.word_size v.word_pos,
        shl-ok size _ fits lane,
      )
      (ap (λ (t : ℕ). ok (bit_and strb t)) (sext32-mask size (addr % m.word_size) fits lane))
