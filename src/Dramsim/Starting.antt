-- ===== src/Dramsim/Starting.antt =====
-- The model after its construction and `init`.
use chipyard_fault_injection.Common.{
  ℕ, ◌*◌, ◌%◌, ◌/◌, ◌≡◌, refl, sym, length-replicate, Bool, true, false, Option, replicate, ok,
  arith, ◌==◌,
}
use chipyard_fault_injection.Mm.{Mm}
use chipyard_fault_injection.Mm
use chipyard_fault_injection.Dramsim.{DramApi, Dramsim, init, construct}
use chipyard_fault_injection.Dramsim.Pending.{Counts, Inv}
use chipyard_fault_injection.Dramsim.Marking.{Apart}
use chipyard_fault_injection.Dramsim.Ids.{construct-Apart}
use chipyard_fault_injection.Dramsim.Returning.{Ready}
use chipyard_fault_injection.Dramsim.Serving.{Sound}
use chipyard_fault_injection.Dramsim.Sized.{Sized}
use chipyard_fault_injection.Mm.Masks.{IsValid}

module _ (api : DramApi) (raw : Dramsim api) (ids : ℕ) where
  -- What `init` makes of a constructed model.
  abbrev pub started : (ℕ → api.State) → Mm → Dramsim api
  started get_memory_system store = record (construct api raw ids) {
    mm = store;
    dummy_data = replicate store.word_size 0;
    mem = get_memory_system (store.size / (1024 * 1024));
  }

  pub init-started :
      (mmap : ℕ → Option (ℕ → ℕ)) (get_memory_system : ℕ → api.State) (sz wsz lsz : ℕ)
      → lsz ≡ 64
      → (store : Mm) → Mm.init mmap sz wsz lsz ≡ ok store
      → store.size % (1024 * 1024) ≡ 0
      → init api (construct api raw ids) mmap get_memory_system sz wsz lsz
        ≡ ok (started get_memory_system store)
  unfolding init
  init-started mmap get_memory_system sz wsz lsz line store made whole =
      let lines : (lsz == 64) ≡ true = ground arith in
      let megabytes : (store.size % (1024 * 1024) == 0) ≡ true = ground arith in
      rw (lines, made, megabytes)

  pub started-Inv :
      (c : Counts api) (get_memory_system : ℕ → api.State) (store : Mm)
      → ((megabytes : ℕ) (w : Bool) (a : ℕ) → c.pending w a (get_memory_system megabytes) ≡ 0)
      → Inv api c (started get_memory_system store)
  unfolding construct
  started-Inv c get_memory_system store idle = record {
    reads = λ a. sym (idle (store.size / (1024 * 1024)) false a);
    writes = λ a. sym (idle (store.size / (1024 * 1024)) true a);
    narrow = λ e. absurd (ground (arith, e));
  }

  pub started-Ready :
      (get_memory_system : ℕ → api.State) (store : Mm)
      → IsValid store
      → Ready api ids store.word_size (started get_memory_system store)
  unfolding construct
  started-Ready get_memory_system store v = record {
    store = v;
    width = refl;
    read_flags = length-replicate ids false;
    write_flags = length-replicate ids false;
    waiting = tt;
    reads = λ a. tt;
    writes = λ a. tt;
    transfer = λ e. absurd (ground (arith, e));
    owner = λ e. absurd (ground (arith, e));
  }

  pub started-Apart :
      (get_memory_system : ℕ → api.State) (store : Mm) → Apart api (started get_memory_system store)
  started-Apart get_memory_system store = construct-Apart api raw ids

  pub started-Sized :
      (get_memory_system : ℕ → api.State) (store : Mm) → Sized api (started get_memory_system store)
  unfolding construct
  started-Sized get_memory_system store = record { dummy = refl; replies = tt }

  -- With lines of 64 bytes, and where `mm_t::init` gives a valid store of whole megabytes, and DRAMSim a
  -- memory system with nothing pending: `init` returns, and the model is sound, ready for any run on
  -- a bus that keeps to the protocol, and hands out whole words.
  pub init-Sound :
      (c : Counts api) (mmap : ℕ → Option (ℕ → ℕ)) (get_memory_system : ℕ → api.State)
      (sz wsz lsz : ℕ)
      → ((megabytes : ℕ) (w : Bool) (a : ℕ) → c.pending w a (get_memory_system megabytes) ≡ 0)
      → lsz ≡ 64
      → (store : Mm) → Mm.init mmap sz wsz lsz ≡ ok store
      → store.size % (1024 * 1024) ≡ 0
      → IsValid store
      → (t : Dramsim api) × (init api (construct api raw ids) mmap get_memory_system sz wsz lsz
          ≡ ok t)
        × Sound api ids store.word_size c t
        × Sized api t
  init-Sound c mmap get_memory_system sz wsz lsz idle line store made whole v = (
    started get_memory_system store,
    init-started mmap get_memory_system sz wsz lsz line store made whole,
    record {
      queues = started-Inv c get_memory_system store idle;
      ready = started-Ready get_memory_system store v;
      apart = started-Apart get_memory_system store;
    },
    started-Sized get_memory_system store,
  )

-- With lines of 64 bytes and where `mm_t::init` gives a store of whole megabytes, `init` returns, and the queues match a memory
-- system that has nothing pending.
pub init-Inv :
    (api : DramApi) (c : Counts api) (raw : Dramsim api) (ids : ℕ) (mmap : ℕ → Option (ℕ → ℕ))
    (get_memory_system : ℕ → api.State) (sz wsz lsz : ℕ)
    → ((megabytes : ℕ) (w : Bool) (a : ℕ) → c.pending w a (get_memory_system megabytes) ≡ 0)
    → lsz ≡ 64
    → (store : Mm) → Mm.init mmap sz wsz lsz ≡ ok store
    → store.size % (1024 * 1024) ≡ 0
    → (t : Dramsim api) × (init api (construct api raw ids) mmap get_memory_system sz wsz lsz
        ≡ ok t)
      × Inv api c t
init-Inv api c raw ids mmap get_memory_system sz wsz lsz idle line store made whole = (
  started api raw ids get_memory_system store,
  init-started api raw ids mmap get_memory_system sz wsz lsz line store made whole,
  started-Inv api raw ids c get_memory_system store idle,
)
