-- ===== src/Mm.antt =====
-- mm.h and mm.cc, class `mm_t`: the backing store of the simulated memory.
pub mod Store
pub mod Masks
pub mod Write
pub mod Read
pub mod Setup
pub mod Digits
pub mod Loading
mod Tests
use chipyard_fault_injection.Common.{
  ℕ, zero, suc, ◌+◌, ◌-◌, ◌*◌, ◌/◌, ◌%◌, ◌^◌, Bool, true, false, ◌&&◌, Option, none, some, List, [],
  ◌∷◌, bit_and, bit_or, get_or, length, not, aborted, ltb, leb, ◌==◌, if◌then◌else◌, get_elem?,
  Result, ok, err, Fault, ◌>>=◌, ◌>>◌, guard, assertion, out_of_bounds, exited, u64, is_positive,
  sext32, div_u64, mod_u64, shl_int, pred_int,
}

-- The fields of `mm_t`. `cells` is what `data` points to; only the first `size` bytes exist.
pub record Mm : Type 0 where
  pub cells : ℕ → ℕ
  pub size : ℕ
  pub word_size : ℕ
  pub line_size : ℕ

unfoldable pub load_byte : ℕ → (ℕ → ℕ) → ℕ → Result ℕ
load_byte limit cells a = if ltb a limit then ok (cells a) else err out_of_bounds

-- The store of one byte, `none` for a source that was read past its end.
unfoldable pub store_byte : ℕ → (ℕ → ℕ) → ℕ → Option ℕ → Result (ℕ → ℕ)
store_byte limit cells a none = err out_of_bounds
store_byte limit cells a (some v) =
    if ltb a limit then ok (λ x. if x == a then v else cells x) else err out_of_bounds

-- Lines 13 to 17: `strb` with the lanes outside the transfer masked off.
unfoldable pub mask_strobe : Mm → ℕ → ℕ → ℕ → Result ℕ
mask_strobe m addr strb size = if size == 64 then ok strb else do
  top ← shl_int 1 size
  ones ← pred_int top
  lane ← mod_u64 addr m.word_size
  mask ← shl_int ones lane
  ok (bit_and strb (sext32 mask))

-- Lines 20 to 25: the loop over the lanes, from lane `i` with `n` lanes left.
unfoldable pub write_lanes : ℕ → ℕ → ℕ → ℕ → ℕ → List ℕ → (ℕ → ℕ) → Result (ℕ → ℕ)
write_lanes limit base i zero strb bytes cells = ok cells
write_lanes limit base i (suc n) strb bytes cells = do
  next ← if strb % 2 == 1 then store_byte limit cells (base + i) (get_elem? bytes i) else ok cells
  write_lanes limit base (i + 1) n (strb / 2) bytes next

unfoldable pub write : Mm → ℕ → List ℕ → ℕ → ℕ → Result Mm
write m addr bytes strb size = do
  guard (leb size 64) assertion
  lanes ← mask_strobe m addr strb size
  offset ← mod_u64 addr m.size
  row ← div_u64 offset m.word_size
  next ← write_lanes m.size (row * m.word_size) 0 m.word_size lanes bytes m.cells
  ok (record m { cells = next })

-- The bytes from `base` on, `n` of them.
unfoldable pub read_bytes : ℕ → (ℕ → ℕ) → ℕ → ℕ → Result (List ℕ)
read_bytes limit cells base zero = ok []
read_bytes limit cells base (suc n) = do
  b ← load_byte limit cells base
  rest ← read_bytes limit cells (base + 1) n
  ok (b ∷ rest)

unfoldable pub read : Mm → ℕ → Result (List ℕ)
read m addr = do base ← mod_u64 addr m.size; read_bytes m.size m.cells base m.word_size

-- `mmap` is a parameter: the zeroed pages that a size gets, or `none` for MAP_FAILED.
-- `exit(-1)` leaves status 255.
unfoldable pub init : (ℕ → Option (ℕ → ℕ)) → ℕ → ℕ → ℕ → Result Mm
init mmap sz wsz lsz = do
  guard (is_positive wsz && is_positive lsz && (bit_and lsz (lsz - 1) == 0) && (lsz % wsz == 0))
      assertion
  elim (mmap sz) [
    | none ↦ err (exited 255)
    | some pages ↦ ok (record { cells = pages; size = sz; word_size = wsz; line_size = lsz })
  ]

-- `load_mem`. A character is a signed char, and `parse_nibble` an `int`.
unfoldable pub parse_nibble : ℕ → ℕ
parse_nibble c =
    if leb b'a' c && ltb c 128
    then c - b'a' + 10
    else if ltb c 128
    then (c + 2 ^ 32 - b'0') % 2 ^ 32
    else (c + 2 ^ 32 - 256 - b'0') % 2 ^ 32

unfoldable pub parse_byte : ℕ → ℕ → ℕ
parse_byte high low = bit_or (parse_nibble high * 16 % 256) (parse_nibble low % 256)

-- The loop over a line, with `n` rounds left at round `j`.
unfoldable pub load_line : ℕ → List ℕ → ℕ → ℕ → Mm → Result Mm
load_line start line zero j m = ok m
load_line start line (suc n) j m = do
  addr ← mod_u64 (u64 (start + j)) m.size
  next ← store_byte m.size m.cells addr (
      some (
        parse_byte (get_or line (length line - 2 - 2 * j) 0)
          (get_or line (length line - 2 - 2 * j + 1) 0)))
  load_line start line n (j + 1) (record m { cells = next })

unfoldable pub load_lines : ℕ → ℕ → List (List ℕ) → Mm → Result Mm
load_lines start fsize [] m = ok m
load_lines start fsize (line ∷ lines) m = do
  m ← load_line start line (length line / 2) 0 m
  guard (not (ltb m.size (fsize + length line / 2))) aborted
      >> load_lines (u64 (start + length line / 2)) (u64 (fsize + length line / 2)) lines m

-- `none` is a file that cannot be opened.
unfoldable pub load_mem : ℕ → Option (List (List ℕ)) → Mm → Result Mm
load_mem start none m = err aborted
load_mem start (some lines) m = load_lines start 0 lines m
