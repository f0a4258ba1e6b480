-- ===== src/Dram/Making.antt =====
-- The memory that `memory_init` makes and fills.
use chipyard_fault_injection.Common.{
  u32, ℕ, ◌+◌, ◌^◌, ◌<◌, ◌≡◌, refl, ap, ◌∙◌, Bool, true, false, Option, some, List, [], leb,
  if◌then◌else◌, Result, ok, err, ◌>>=◌, aborted, arith, length,
}
use chipyard_fault_injection.Common.Text.{same_text}
use chipyard_fault_injection.Mm.{Mm, load_mem}
use chipyard_fault_injection.Mm.Loading.{Line, texts, file_bytes, laid, load_mem_lem}
use chipyard_fault_injection.Magic.{Magic}
use chipyard_fault_injection.Magic
use chipyard_fault_injection.Dramsim.{DramApi}
use chipyard_fault_injection.Dram.{
  Settings, Memory, magic, Machine, make, load, get_settings, memory_init,
}

module _ (api : DramApi) (machine : Machine api) where
  filled : Settings → Magic → Result Mm → Result (Settings × Memory api)
  filled s m store = store >>= (λ (c : Mm). ok (s, magic (record m { mm = c })))

  filled-if :
      (s : Settings) (m : Magic) (b : Bool) (store : Mm)
      → filled s m (if b then ok store else err aborted)
        ≡ (if b then ok (s, magic (record m { mm = store })) else err aborted)
  unfolding filled
  filled-if s m true store = refl
  filled-if s m false store = refl

  pub make-magic :
      (s : Settings) (m : Magic) (mem_size word_size line_size id_bits clock_hz : ℕ)
      → s.dramsim ≡ false
      → Magic.init machine.raw_magic machine.mmap mem_size (u32 word_size) (u32 line_size) ≡ ok m
      → make api machine s mem_size word_size line_size id_bits clock_hz ≡ ok (magic m)
  unfolding make
  make-magic s m mem_size word_size line_size id_bits clock_hz ideal init = rw (ideal, init)

  rest : Settings → Bool → Memory api → Result (Settings × Memory api)
  rest s unnamed mm =
      (if unnamed then ok mm else load api machine s.loadmem_addr s.loadmem_file mm)
      >>= (λ (mm : Memory api). ok (s, mm))

  regroup :
      (s : Settings) (m : Magic) (store : Result Mm)
      → ((store >>= (λ (c : Mm). ok (magic (record m { mm = c }))))
          >>= (λ (mm : Memory api). ok (s, mm)))
        ≡ filled s m store
  unfolding filled
  regroup s m (ok c) = refl
  regroup s m (err fault) = refl

  rest-load :
      (s : Settings) (m : Magic) (unnamed : Bool)
      → unnamed ≡ false
      → rest s unnamed (magic m)
        ≡ filled s m (load_mem s.loadmem_addr (machine.read_file s.loadmem_file) m.mm)
  unfolding rest load
  rest-load s m true e = absurd (ground (arith, e))
  rest-load s m false e =
      regroup s m (load_mem s.loadmem_addr (machine.read_file s.loadmem_file) m.mm)

  made :
      (s : Settings) (args : List (List ℕ)) (m : Magic)
      (mem_size word_size line_size id_bits clock_hz : ℕ)
      → s.dramsim ≡ false
      → same_text s.loadmem_file [] ≡ false
      → Magic.init machine.raw_magic machine.mmap mem_size (u32 word_size) (u32 line_size) ≡ ok m
      → memory_init api machine (some s) args mem_size word_size line_size id_bits clock_hz
        ≡ filled s m (load_mem s.loadmem_addr (machine.read_file s.loadmem_file) m.mm)
  unfolding memory_init get_settings rest
  made s args m mem_size word_size line_size id_bits clock_hz ideal named init =
      ap
        (λ (r : Result (Memory api)).
          r >>= (λ (mm : Memory api). rest s (same_text s.loadmem_file []) mm))
        (make-magic s m mem_size word_size line_size id_bits clock_hz ideal init)
      ∙ rest-load s m (same_text s.loadmem_file []) named

  -- Without DRAMSim, with a file of digit pairs whose addresses stay below 2 ^ 64, and where `init`
  -- gives a store that is not empty: a memory after the first one is made by
  -- `mm_magic_t` and holds the file from the load address on, if it is not larger than the memory;
  -- else the program aborts. The settings stay those of the first call, whatever the arguments.
  pub memory_init_lem :
      (s : Settings) (args : List (List ℕ)) (m : Magic) (lines : List Line)
      (mem_size word_size line_size id_bits clock_hz : ℕ)
      → s.dramsim ≡ false
      → same_text s.loadmem_file [] ≡ false
      → machine.read_file s.loadmem_file ≡ some (texts lines)
      → Magic.init machine.raw_magic machine.mmap mem_size (u32 word_size) (u32 line_size) ≡ ok m
      → 0 < m.size
      → s.loadmem_addr + length (file_bytes lines) < 2 ^ 64
      → memory_init api machine (some s) args mem_size word_size line_size id_bits clock_hz ≡ (
          if leb (length (file_bytes lines)) m.size
          then ok (
            s,
            magic (record m {
              mm = record m.mm { cells = laid m.size s.loadmem_addr (file_bytes lines) m.cells };
            }),
          )
          else err aborted)
  memory_init_lem s args m lines mem_size word_size line_size id_bits clock_hz ideal named file init
        pos small =
      made s args m mem_size word_size line_size id_bits clock_hz ideal named init
      ∙ ap (filled s m) (
          ap (λ (f : Option (List (List ℕ))). load_mem s.loadmem_addr f m.mm) file
          ∙ load_mem_lem s.loadmem_addr lines m.mm pos small)
      ∙ filled-if s m (leb (length (file_bytes lines)) m.size)
          (record m.mm { cells = laid m.size s.loadmem_addr (file_bytes lines) m.cells })
