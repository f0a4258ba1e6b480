-- ===== src/Mm/Write.antt =====
-- `mm_t::write` and `mm_t::read` as a whole: which bytes change, and when a call is defined.
use native.Mathlib.Nat.{mod-lt}
use chipyard_fault_injection.Common.{
  ℕ, ◌+◌, ◌-◌, ◌*◌, ◌/◌, ◌%◌, ◌^◌, ◌≤◌, ◌≡◌, ◌&&◌, List, ltb, leb, if◌then◌else◌, get_or, length,
  ok, arith, ◌∙◌, ap, bit_and, fun_ext, Bool, le→leb,
}
use chipyard_fault_injection.Common.Bits.{test_bit, test_bit-mask, test_bit-bit_and}
use chipyard_fault_injection.Mm.{Mm, write}
use chipyard_fault_injection.Mm.Store.{row-fits, write_lanes-Stored, overlay}
use chipyard_fault_injection.Mm.Masks.{IsValid, mod_u64-ok, div_u64-ok, mask_strobe-ok}

-- Lane `i` of a transfer of `size` bytes at lane `off` is written.
abbrev pub is_enabled : ℕ → ℕ → ℕ → ℕ → Bool
is_enabled strb off size i = test_bit strb i && (leb off i && ltb i (off + size))

-- The first byte of the row that `addr` falls in.
abbrev pub row_of : Mm → ℕ → ℕ
row_of m addr = addr % m.size / m.word_size * m.word_size

-- The store after a write: the enabled lanes of one row come from `bytes`.
unfoldable pub merged : Mm → ℕ → List ℕ → ℕ → ℕ → ℕ → ℕ
merged m addr bytes strb size x =
    if leb (row_of m addr) x
      && ltb x (row_of m addr + m.word_size)
      && is_enabled strb (addr % m.word_size) size (x - row_of m addr)
    then get_or bytes (x - row_of m addr) 0
    else m.cells x

overlay-merged :
    (m : Mm) (addr : ℕ) (bytes : List ℕ) (strb size x : ℕ)
    → overlay
        (row_of m addr)
        0
        m.word_size
        (bit_and strb ((2 ^ size - 1) * 2 ^ (addr % m.word_size)))
        bytes
        m.cells
        x
      ≡ merged m addr bytes strb size x
unfolding merged
overlay-merged m addr bytes strb size x =
    let start : row_of m addr + 0 ≡ row_of m addr = omega arith in
    rw (
      start,
      test_bit-bit_and (x - row_of m addr) strb ((2 ^ size - 1) * 2 ^ (addr % m.word_size)),
      test_bit-mask size (addr % m.word_size) (x - row_of m addr),
    )

-- On a valid store, whose words have up to 16 bytes, a write of at most a word is defined, stays in the
-- store, and changes exactly the enabled bytes of
-- the row that the address selects.
pub write_lem :
    (m : Mm) (addr : ℕ) (bytes : List ℕ) (strb size : ℕ)
    → IsValid m
    → size ≤ m.word_size
    → m.word_size ≤ length bytes
    → write m addr bytes strb size ≡ ok (record m { cells = merged m addr bytes strb size })
unfolding write
write_lem m addr bytes strb size v h k =
    let (next, e, spec) =
      write_lanes-Stored m.size (row_of m addr) bytes 0 m.word_size
        (bit_and strb ((2 ^ size - 1) * 2 ^ (addr % m.word_size))) m.cells
        (omega (
          arith,
          row-fits (addr % m.size) m.size m.word_size v.word_pos v.whole (mod-lt addr v.size_pos),
        ))
        (omega arith) in
    rw
      (
        le→leb size 64 (omega arith),
        mask_strobe-ok m addr strb size v h,
        mod_u64-ok addr m.size v.size_pos,
        div_u64-ok (addr % m.size) m.word_size v.word_pos,
        e,
      )
      (ap (λ (c : ℕ → ℕ). ok (record m { cells = c }))
        (fun_ext (λ x. spec x ∙ overlay-merged m addr bytes strb size x)))
