-- ===== src/Dram/Port/Starting.antt =====
-- The memory that `memory_init` makes is fit for the port.
use chipyard_fault_injection.Common.{ℕ, u32, ◌≡◌, ap, ◌∙◌, false, some, List, [], ok}
use chipyard_fault_injection.Mm.{Mm}
use chipyard_fault_injection.Mm
use chipyard_fault_injection.Mm.Masks.{IsValid}
use chipyard_fault_injection.Magic.{Magic}
use chipyard_fault_injection.Magic.Starting.{init-Inv}
use chipyard_fault_injection.Dramsim.{DramApi}
use chipyard_fault_injection.Dram.{Settings, Machine, magic, get_settings, memory_init}
use chipyard_fault_injection.Dram.Making.{make-magic}
use chipyard_fault_injection.Dram.Port.Exchange.{Attached}

-- Without DRAMSim and without a file, where `mm_t::init` gives a valid store with words of 8 bytes.
pub memory_init-Attached :
    (api : DramApi) (machine : Machine api) (s : Settings) (args : List (List ℕ))
    (mem_size word_size line_size id_bits clock_hz : ℕ) (store : Mm)
    → s.dramsim ≡ false
    → s.loadmem_file ≡ []
    → Mm.init machine.mmap mem_size (u32 word_size) (u32 line_size) ≡ ok store
    → IsValid store
    → store.word_size ≡ 8
    → (t : Magic) × (memory_init api machine
          (some s)
          args
          mem_size
          word_size
          line_size
          id_bits
          clock_hz
        ≡ ok (s, magic t))
      × Attached t
      × (t.store_inflight ≡ false)
      × (t.bresp ≡ [])
      × (t.rresp ≡ [])
unfolding memory_init get_settings
memory_init-Attached api machine s args mem_size word_size line_size id_bits clock_hz store ideal
      nameless made v wide =
    let (t, e, held, free, acked, replied, inv, sized) =
      init-Inv machine.raw_magic machine.mmap mem_size (u32 word_size) (u32 line_size) store made
        v in
    (
      t,
      rw (
        make-magic api machine s t mem_size word_size line_size id_bits clock_hz ideal e,
        nameless,
      ),
      record { valid = inv; sized = sized; wide = ap (λ (m : Mm). m.word_size) held ∙ wide },
      free,
      acked,
      replied,
    )
