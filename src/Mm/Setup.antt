-- ===== src/Mm/Setup.antt =====
-- `mm_t::init`, and the transfers that `mm_t::write` cannot serve.
use chipyard_fault_injection.Common.{
  ℕ, ◌-◌, ◌%◌, ◌^◌, ◌≤◌, ◌<◌, ◌≡◌, List, ok, err, arith, ◌≢◌, Option, none, some, bit_and,
  undefined_shift, shl_int, ==_iff,
}
use native.Mathlib.Nat.{mod-eq-zero_of_dvd, dvd_of_mod-eq-zero, dvd_trans}
use chipyard_fault_injection.Common.Bits.{power_of_bit_and}
use chipyard_fault_injection.Mm.{Mm, write, init, mask_strobe}
use chipyard_fault_injection.Mm.Masks.{IsValid}

-- What `init` asserts of the word and line sizes.
pub record IsGeometry (wsz lsz : ℕ) : Type 0 where
  pub word_pos : 0 < wsz
  pub word_int : wsz < 2 ^ 31
  pub line_pos : 0 < lsz
  pub line_int : lsz < 2 ^ 31
  pub power : bit_and lsz (lsz - 1) ≡ 0
  pub multiple : lsz % wsz ≡ 0

-- Where `init` succeeds, its assertion held of the sizes, `mmap` gave pages for the size, and the store
-- is those pages with the sizes as given.
pub init-ok :
    (mmap : ℕ → Option (ℕ → ℕ)) (sz wsz lsz : ℕ) (m : Mm)
    → init mmap sz wsz lsz ≡ ok m
    → IsGeometry wsz lsz
      × (mmap sz ≡ some m.cells)
      × (m.size ≡ sz)
      × (m.word_size ≡ wsz)
      × (m.line_size ≡ lsz)
unfolding init
init-ok mmap sz wsz lsz m e = ground (arith, ==_iff (bit_and lsz (lsz - 1)) 0)

-- The word divides the line, which is a power of two.
power_of_geometry : {wsz lsz : ℕ} → IsGeometry wsz lsz → 2 ^ 64 % wsz ≡ 0
power_of_geometry {wsz} {lsz} g = mod-eq-zero_of_dvd wsz (
    dvd_trans wsz (dvd_of_mod-eq-zero wsz g.multiple)
      (power_of_bit_and 64 lsz g.line_pos (omega (arith, g.line_int)) g.power))

-- The store that `init` sets up is valid, if the bus has at most 16 bytes, the size is a multiple of
-- the word, and `mmap` refuses a size of 0.
pub init-IsValid :
    (mmap : ℕ → Option (ℕ → ℕ)) (sz wsz lsz : ℕ) (m : Mm)
    → mmap 0 ≡ none
    → wsz ≤ 16
    → sz % wsz ≡ 0
    → init mmap sz wsz lsz ≡ ok m
    → IsValid m
init-IsValid mmap sz wsz lsz m zero_fails narrow whole e =
    let (geometry, pages, s, w, l) = init-ok mmap sz wsz lsz m e in
    let nonempty : sz ≢ 0 = λ z. cc in
    record {
      word_pos = rw w geometry.word_pos;
      narrow = rw w narrow;
      size_pos = omega arith;
      whole = rw (s, w) whole;
      power = rw w (power_of_geometry geometry);
    }

-- A transfer of 32 to 63 bytes shifts an `int` by at least its width.
pub write-wide :
    (m : Mm) (addr : ℕ) (bytes : List ℕ) (strb size : ℕ)
    → 32 ≤ size
    → size < 64
    → write m addr bytes strb size ≡ err undefined_shift
unfolding write mask_strobe shl_int
write-wide m addr bytes strb size h k = ground arith
