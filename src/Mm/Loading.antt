-- ===== src/Mm/Loading.antt =====
-- What `load_mem` leaves in the memory.
use chipyard_fault_injection.Common.{
  ℕ, zero, suc, ◌+◌, ◌-◌, ◌*◌, ◌/◌, ◌%◌, ◌^◌, ◌≤◌, ◌<◌, ◌≡◌, refl, sym, ap, ap₂, ◌∙◌, true, false,
  some, List, [], ◌∷◌, ◌++◌, ltb, leb, ◌==◌, if◌then◌else◌, get_or, length, length-append, Result,
  ok, err, aborted, arith, mod_u64, lt→ltb, Bool-cases, inl, inr,
}
use chipyard_fault_injection.Mm.Digits.{byte_value, parse_byte-byte_value}
use chipyard_fault_injection.Mm.{Mm, parse_byte, load_line, load_lines, load_mem, store_byte}

-- A line as its pairs of characters, one for each byte.
abbrev pub Line : Type 0
Line = List (ℕ × ℕ)

abbrev pub text : Line → List ℕ
text [] = []
text ((high, low) ∷ rest) = high ∷ low ∷ text rest

-- The byte of a pair, and those of the first `n` pairs, the last pair first.
abbrev pub byte_at : Line → ℕ → ℕ
byte_at [] n = 0
byte_at ((high, low) ∷ rest) zero = byte_value high low
byte_at ((high, low) ∷ rest) (suc n) = byte_at rest n

abbrev pub from_last : Line → ℕ → List ℕ
from_last line zero = []
from_last line (suc n) = byte_at line n ∷ from_last line n

abbrev pub texts : List Line → List (List ℕ)
texts [] = []
texts (line ∷ lines) = text line ∷ texts lines

-- The bytes of a file in the order of their addresses.
abbrev pub file_bytes : List Line → List ℕ
file_bytes [] = []
file_bytes (line ∷ lines) = from_last line (length line) ++ file_bytes lines

-- Bytes put one after the other, from an address on, round the end of the memory.
abbrev pub laid : ℕ → ℕ → List ℕ → (ℕ → ℕ) → ℕ → ℕ
laid size start [] cells = cells
laid size start (b ∷ bytes) cells =
    laid size (start + 1) bytes (λ x. if x == start % size then b else cells x)

laid-append :
    (size start : ℕ) (xs ys : List ℕ) (cells : ℕ → ℕ)
    → laid size start (xs ++ ys) cells ≡ laid size (start + length xs) ys (laid size start xs cells)
laid-append size start [] ys cells = ap (λ (n : ℕ). laid size n ys cells) (omega arith)
laid-append size start (x ∷ xs) ys cells =
    laid-append size (start + 1) xs ys (λ a. if a == start % size then x else cells a)
    ∙ ap (λ (n : ℕ). laid size n ys (laid size start (x ∷ xs) cells)) (omega arith)

length-text : (line : Line) → length (text line) ≡ 2 * length line
length-text [] = refl
length-text (p ∷ rest) = omega (arith, length-text rest)

get_or-text :
    (line : Line) (n : ℕ)
    → n < length line
    → parse_byte (get_or (text line) (2 * n) 0) (get_or (text line) (2 * n + 1) 0) ≡ byte_at line n
get_or-text [] n lt = absurd (omega arith)
get_or-text ((high, low) ∷ rest) zero lt = parse_byte-byte_value high low
get_or-text (p ∷ rest) (suc n) lt =
    let first : 2 * suc n ≡ suc (suc (2 * n)) = omega arith in
    let second : 2 * suc n + 1 ≡ suc (suc (2 * n + 1)) = omega arith in
    ap₂ (λ (i k : ℕ). parse_byte (get_or (text (p ∷ rest)) i 0) (get_or (text (p ∷ rest)) k 0))
      first second
    ∙ get_or-text rest n (omega arith)

store-ok :
    (limit : ℕ) (cells : ℕ → ℕ) (a v : ℕ)
    → a < limit
    → store_byte limit cells a (some v) ≡ ok (λ x. if x == a then v else cells x)
unfolding store_byte
store-ok limit cells a v lt = rw (lt→ltb a limit lt)

abbrev with_cells : Mm → (ℕ → ℕ) → Mm
with_cells m cells = record m { cells = cells }

-- One round stores one byte.
load_line-round :
    (start : ℕ) (txt : List ℕ) (n j b : ℕ) (m : Mm)
    → 0 < m.size
    → start + j < 2 ^ 64
    → parse_byte (get_or txt (length txt - 2 - 2 * j) 0) (get_or txt (length txt - 2 - 2 * j + 1) 0)
      ≡ b
    → load_line start txt (suc n) j m
      ≡ load_line start txt n
          (j + 1)
          (with_cells m (λ x. if x == (start + j) % m.size then b else m.cells x))
unfolding load_line mod_u64
load_line-round start txt n j b m pos small e =
    let nonzero : (m.size == 0) ≡ false = ground arith in
    let whole : (start + j) % 2 ^ 64 ≡ start + j = omega arith in
    rw (nonzero, whole, e, store-ok m.size m.cells ((start + j) % m.size) b (omega arith))

load_line_lem :
    (start : ℕ) (line : Line) (n j : ℕ) (m : Mm)
    → 0 < m.size
    → n + j ≡ length line
    → start + length line < 2 ^ 64
    → load_line start (text line) n j m
      ≡ ok (with_cells m (laid m.size (start + j) (from_last line n) m.cells))
unfolding load_line
load_line_lem start line zero j m pos count small = refl
load_line_lem start line (suc n) j m pos count small =
    let here : length (text line) - 2 - 2 * j ≡ 2 * n = omega (arith, length-text line) in
    load_line-round start (text line) n j (byte_at line n) m pos (omega arith)
      (rw here (get_or-text line n (omega arith)))
    ∙ load_line_lem start line n (j + 1)
        (with_cells m (λ x. if x == (start + j) % m.size then byte_at line n else m.cells x)) pos
        (omega arith) small
    ∙ ap
        (λ (a : ℕ). ok (
          with_cells m (
            laid m.size a (from_last line n)
              (λ x. if x == (start + j) % m.size then byte_at line n else m.cells x))))
        (omega arith)

length-from_last : (line : Line) (n : ℕ) → length (from_last line n) ≡ n
length-from_last line zero = refl
length-from_last line (suc n) = ap suc (length-from_last line n)

-- What a file leaves, or the abort where it is larger than the memory.
abbrev pub loaded : Mm → ℕ → (ℕ → ℕ) → Result Mm
loaded m total cells = if leb total m.size then ok (record m { cells = cells }) else err aborted

length-file :
    (line : Line) (lines : List Line)
    → length (file_bytes (line ∷ lines)) ≡ length line + length (file_bytes lines)
length-file line lines = omega (
  arith,
  length-append (from_last line (length line)) (file_bytes lines),
  length-from_last line (length line),
)

laid-line :
    (size start : ℕ) (line : Line) (lines : List Line) (cells : ℕ → ℕ)
    → laid size
        (start + length line)
        (file_bytes lines)
        (laid size (start + 0) (from_last line (length line)) cells)
      ≡ laid size start (file_bytes (line ∷ lines)) cells
laid-line size start line lines cells =
    ap₂
      (λ (a b : ℕ).
        laid size a (file_bytes lines) (laid size b (from_last line (length line)) cells))
      (omega (arith, length-from_last line (length line))) (omega arith)
    ∙ sym (laid-append size start (from_last line (length line)) (file_bytes lines) cells)

load_lines_lem :
    (start fsize : ℕ) (lines : List Line) (m : Mm)
    → 0 < m.size
    → start + length (file_bytes lines) < 2 ^ 64
    → fsize + length (file_bytes lines) < 2 ^ 64
    → fsize ≤ m.size
    → load_lines start fsize (texts lines) m
      ≡ loaded m (fsize + length (file_bytes lines)) (laid m.size start (file_bytes lines) m.cells)
unfolding load_lines
load_lines_lem start fsize [] m pos small small' le =
    let fits : leb (fsize + 0) m.size ≡ true = ground arith in rw (fits, loaded)
load_lines_lem start fsize (line ∷ lines) m pos small small' le =
    let half : length (text line) / 2 ≡ length line = omega (arith, length-text line) in
    let len = length-file line lines in
    let one = load_line_lem start line (length line) 0 m pos (omega arith) (omega (arith, len)) in
    elim (Bool-cases (ltb m.size (fsize + length line))) [
      | inl big ↦
          let over : leb (fsize + length (file_bytes (line ∷ lines))) m.size ≡ false =
            ground (arith, big, len) in
          rw (half, one, big, over, loaded)
      | inr fits ↦
          let start' : (start + length line) % 2 ^ 64 ≡ start + length line = omega (arith, len) in
          let fsize' : (fsize + length line) % 2 ^ 64 ≡ fsize + length line = omega (arith, len) in
          rw (half, one, fits, start', fsize')
            (load_lines_lem (start + length line) (fsize + length line) lines
                (with_cells m (laid m.size (start + 0) (from_last line (length line)) m.cells)) pos
                (omega (arith, len)) (omega (arith, len)) (ground (arith, fits))
              ∙ ap₂ (loaded m) (omega (arith, len)) (laid-line m.size start line lines m.cells))
    ]

-- In a memory that is not empty, and where no address reaches 2 ^ 64, a file of lines of digit pairs
-- is stored from `start` on, each line from its last pair to its
-- first, round the end of the memory, if it is not larger than the memory; else the program aborts. Two
-- digits of 0 to 9 and a to f become the byte that they spell.
pub load_mem_lem :
    (start : ℕ) (lines : List Line) (m : Mm)
    → 0 < m.size
    → start + length (file_bytes lines) < 2 ^ 64
    → load_mem start (some (texts lines)) m ≡ (
        if leb (length (file_bytes lines)) m.size
        then ok (record m { cells = laid m.size start (file_bytes lines) m.cells })
        else err aborted)
unfolding load_mem
load_mem_lem start lines m pos small =
    load_lines_lem start 0 lines m pos small (omega arith) (omega arith)
    ∙ ap (λ (n : ℕ). loaded m n (laid m.size start (file_bytes lines) m.cells)) (omega arith)
