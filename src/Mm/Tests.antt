-- ===== src/Mm/Tests.antt =====
-- Concrete stores: the theorems at inputs that meet their hypotheses.
use chipyard_fault_injection.Common.{
  ℕ, ◌%◌, ◌≡◌, refl, List, [], ◌∷◌, Option, none, some, ok, arith, ◌>>=◌, shl_int, pred_int,
  mod_u64, div_u64, ◌==◌, if◌then◌else◌,
}
use chipyard_fault_injection.Mm.{
  Mm, read, write, init, mask_strobe, write_lanes, store_byte, read_bytes, load_byte, load_mem,
  parse_byte, parse_nibble,
}
use chipyard_fault_injection.Mm.Loading.{Line, texts, file_bytes, laid, load_mem_lem}
use chipyard_fault_injection.Mm.Masks.{IsValid}
use chipyard_fault_injection.Mm.Setup.{init-ok, IsGeometry}
use chipyard_fault_injection.Mm.Read.{blend, read-write_same}
use chipyard_fault_injection.Mm.Write.{merged, write_lem}

abbrev small : Mm
small = record { cells = λ x. x % 256; size = 64; word_size = 8; line_size = 64 }

abbrev word : List ℕ
word = 10 ∷ 11 ∷ 12 ∷ 13 ∷ 14 ∷ 15 ∷ 16 ∷ 17 ∷ []

small-IsValid : IsValid small
small-IsValid = omega arith

-- A half word at 66, which is 2 in this store, with all strobes set.
half_word_written :
    (write small 66 word 0xff 2 >>= λ m. read m 0) ≡ ok (0 ∷ 1 ∷ 12 ∷ 13 ∷ 4 ∷ 5 ∷ 6 ∷ 7 ∷ [])
unfolding write read mask_strobe shl_int pred_int mod_u64 div_u64 write_lanes store_byte read_bytes
    load_byte
half_word_written = refl

write_lem_example :
    write small 66 word 0xff 2 ≡ ok (record small { cells = merged small 66 word 0xff 2 })
write_lem_example = write_lem small 66 word 0xff 2 small-IsValid (omega arith) (omega arith)

read-write_same_example :
    (write small 66 word 0xff 2 >>= λ m. read m 64)
    ≡ (read small 64 >>= λ old. ok (blend 0xff 2 2 word 0 old))
read-write_same_example =
    read-write_same small 66 64 word 0xff 2 small-IsValid (omega arith) (omega arith) refl refl

abbrev mmap : ℕ → Option (ℕ → ℕ)
mmap n = if n == 0 then none else some (λ x. 0)

abbrev fresh : Mm
fresh = record { cells = λ x. 0; size = 64; word_size = 8; line_size = 64 }

init-fresh : init mmap 64 8 64 ≡ ok fresh
unfolding init
init-fresh = refl

init-ok_example :
    IsGeometry 8 64
    × (mmap 64 ≡ some fresh.cells)
    × (fresh.size ≡ 64)
    × (fresh.word_size ≡ 8)
    × (fresh.line_size ≡ 64)
init-ok_example = init-ok mmap 64 8 64 fresh init-fresh

-- The lines "0a1b" and "ff", loaded at the last byte but one.
abbrev image : List Line
image = ((b'0', b'a') ∷ (b'1', b'b') ∷ []) ∷ ((b'f', b'f') ∷ []) ∷ []

image_bytes : file_bytes image ≡ 27 ∷ 10 ∷ 255 ∷ []
unfolding parse_byte parse_nibble
image_bytes = refl

load_mem_lem_example :
    load_mem 62 (some (texts image)) small
    ≡ ok (record small { cells = laid 64 62 (file_bytes image) small.cells })
load_mem_lem_example = load_mem_lem 62 image small (omega arith) (omega arith)
