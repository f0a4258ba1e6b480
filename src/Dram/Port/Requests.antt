-- ===== src/Dram/Port/Requests.antt =====
-- The cycles of a write and a read of one word, and what the read finds.
use chipyard_fault_injection.Common.{
  ℕ, ◌+◌, ◌*◌, ◌/◌, ◌%◌, ◌^◌, ◌<◌, ◌≡◌, refl, ap₂, ◌∙◌, true, false, arith, u64,
}
use chipyard_fault_injection.Mm.{Mm}
use chipyard_fault_injection.Mm.Masks.{IsValid}
use chipyard_fault_injection.Mm.Store.{window}
use chipyard_fault_injection.Mm.Write.{merged, row_of}
use chipyard_fault_injection.Mm.Read.{row_of-aligned, window-merged, blend}
use chipyard_fault_injection.Dram.Port.{Driven, bytes_of}

-- A cycle in which the hardware asks for nothing and takes nothing.
abbrev pub quiet : Driven
quiet = record {
  reset = false;
  ar_valid = false;
  ar_addr = 0;
  ar_id = 0;
  ar_size = 0;
  ar_len = 0;
  aw_valid = false;
  aw_addr = 0;
  aw_id = 0;
  aw_size = 0;
  aw_len = 0;
  w_valid = false;
  w_strb = 0;
  w_data = 0;
  w_last = false;
  r_ready = false;
  b_ready = false;
}

-- The address of a write of one word, its data, and the address of a read of one word.
abbrev pub write_address : ℕ → ℕ → Driven
write_address addr id = record quiet {
  aw_valid = true;
  aw_addr = addr;
  aw_id = id;
  aw_size = 3;
  aw_len = 0;
}

abbrev pub write_data : ℕ → Driven
write_data v = record quiet { w_valid = true; w_strb = 0xff; w_data = v; w_last = true }

abbrev pub read_address : ℕ → ℕ → Driven
read_address addr id = record quiet {
  ar_valid = true;
  ar_addr = addr;
  ar_id = id;
  ar_size = 3;
  ar_len = 0;
}

-- The bytes of a word that was written whole.
blend-whole :
    (v : ℕ) (cells : ℕ → ℕ) (base : ℕ)
    → blend 0xff 0 8 (bytes_of 8 v) 0 (window cells base 8) ≡ bytes_of 8 v
unfolding bytes_of
blend-whole v cells base = refl

word_back :
    (m : Mm) (addr v : ℕ)
    → IsValid m
    → m.word_size ≡ 8
    → addr % 8 ≡ 0
    → window (merged m addr (bytes_of 8 v) 0xff 8) (addr % m.size) 8 ≡ bytes_of 8 v
word_back m addr v valid wide al =
    let aligned : addr % m.word_size ≡ 0 = rw wide al in
    let start : row_of m addr + 0 ≡ addr % m.size =
      omega (arith, row_of-aligned m addr valid aligned) in
    let raw = window-merged m addr (bytes_of 8 v) 0xff 8 0 8 (omega (arith, wide)) in
    let placed = rw start at raw in placed ∙ (rw aligned (blend-whole v m.cells (addr % m.size)))

-- What a read of the word finds.
pub read_back :
    (m : Mm) (addr v : ℕ)
    → IsValid m
    → m.word_size ≡ 8
    → addr % 8 ≡ 0
    → addr < 2 ^ 64
    → window
        (merged m addr (bytes_of 8 v) 0xff 8)
        (u64 (addr / m.word_size * m.word_size + 0 * m.word_size) % m.size)
        m.word_size
      ≡ bytes_of 8 v
read_back m addr v valid wide al small =
    let there : u64 (addr / m.word_size * m.word_size + 0 * m.word_size) ≡ addr =
      rw wide (omega (arith, al)) in
    ap₂ (λ (a n : ℕ). window (merged m addr (bytes_of 8 v) 0xff 8) (a % m.size) n) there wide
    ∙ word_back m addr v valid wide al
