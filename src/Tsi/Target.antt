-- ===== src/Tsi/Target.antt =====
-- What reaches the target when a program is loaded and when the front end resets.
use chipyard_fault_injection.Common.{
  ℕ, ◌≡◌, refl, sym, ap, ◌∙◌, Bool, true, false, List, [], ◌∷◌, if◌then◌else◌,
}
use chipyard_fault_injection.Tsi.{
  TsiApi, Chunk, Config, Tsi, bytes_of_u32, tsi_write_chunk, write_chunks, load_program,
  write_inits, reset,
}

module _ (api : TsiApi) where
  open api use {State, write_chunk, switch_to_target, program_chunks, reset_chunks}

  -- The target after writes through the base class.
  abbrev pub written : List Chunk → State → State
  written [] b = b
  written (c ∷ cs) b = written cs (write_chunk c b)

  abbrev pub init_chunks : List (ℕ × ℕ) → List Chunk
  init_chunks [] = []
  init_chunks ((addr, value) ∷ rest) = (addr, bytes_of_u32 value) ∷ init_chunks rest

  abbrev pub tsi_of : Config → Bool → State → Tsi api
  tsi_of c flag b = record { config = c; is_loadmem = flag; base = b }

  write_chunks_lem :
      (cs : List Chunk) (c : Config) (flag : Bool) (b : State)
      → write_chunks api cs (tsi_of c flag b) ≡ tsi_of c flag (if flag then b else written cs b)
  unfolding write_chunks tsi_write_chunk
  write_chunks_lem [] c true b = refl
  write_chunks_lem [] c false b = refl
  write_chunks_lem (x ∷ cs) c true b = write_chunks_lem cs c true b
  write_chunks_lem (x ∷ cs) c false b = write_chunks_lem cs c false (write_chunk x b)

  write_inits_lem :
      (ws : List (ℕ × ℕ)) (c : Config) (flag : Bool) (b : State)
      → write_inits api ws (tsi_of c flag b)
        ≡ tsi_of c flag (if flag then b else written (init_chunks ws) b)
  unfolding write_inits tsi_write_chunk
  write_inits_lem [] c true b = refl
  write_inits_lem [] c false b = refl
  write_inits_lem ((a, v) ∷ ws) c true b = write_inits_lem ws c true b
  write_inits_lem ((a, v) ∷ ws) c false b =
      write_inits_lem ws c false (write_chunk (a, bytes_of_u32 v) b)

  -- The target after `load_program`.
  abbrev pub loaded : Config → State → State
  loaded c b =
      if c.has_loadmem then switch_to_target b else written program_chunks (switch_to_target b)

  -- `load_program` sends the program through the serial link, unless the memory was preloaded: then
  -- none of it. Afterwards writes go through in any case.
  pub load_program_lem :
      (s : Tsi api) → load_program api s ≡ tsi_of s.config false (loaded s.config s.base)
  unfolding load_program
  load_program_lem s =
      ap (λ (t : Tsi api). record t { is_loadmem = false })
        (write_chunks_lem program_chunks s.config s.config.has_loadmem (switch_to_target s.base))

  -- The target after `reset` where writes go through.
  abbrev pub woken : Config → State → State
  woken c b =
      if c.write_hart0_msip
      then written reset_chunks (written (init_chunks c.init_writes) b)
      else written (init_chunks c.init_writes) b

  wake :
      (m flag : Bool) (c : Config) (b : State)
      → (if m then write_chunks api reset_chunks (tsi_of c flag b) else tsi_of c flag b)
        ≡ tsi_of c flag (if flag then b else if m then written reset_chunks b else b)
  wake true flag c b = write_chunks_lem reset_chunks c flag b
  wake false true c b = refl
  wake false false c b = refl

  reset_lem :
      (c : Config) (flag : Bool) (b : State) (b' : State)
      → write_inits api c.init_writes (tsi_of c flag b) ≡ tsi_of c flag b'
      → reset api (tsi_of c flag b)
        ≡ tsi_of c flag
            (if flag then b' else if c.write_hart0_msip then written reset_chunks b' else b')
  unfolding reset
  reset_lem c flag b b' e =
      ap (λ (t : Tsi api). if c.write_hart0_msip then write_chunks api reset_chunks t else t) e
      ∙ wake c.write_hart0_msip flag c b'

  reset_open : (c : Config) (b : State) → reset api (tsi_of c false b) ≡ tsi_of c false (woken c b)
  reset_open c b =
      reset_lem c false b (written (init_chunks c.init_writes) b)
        (write_inits_lem c.init_writes c false b)

  -- A program load and the reset after it leave in the target the program, if it goes through the
  -- link, then the start-up writes in order, then the wake-up write of the base class, if wanted.
  pub reset-load_program :
      (s : Tsi api)
      → reset api (load_program api s)
        ≡ tsi_of s.config false (woken s.config (loaded s.config s.base))
  reset-load_program s =
      ap (reset api) (load_program_lem s) ∙ reset_open s.config (loaded s.config s.base)

  reset_shut : (c : Config) (b : State) → reset api (tsi_of c true b) ≡ tsi_of c true b
  reset_shut c b = reset_lem c true b b (write_inits_lem c.init_writes c true b)

  -- Before any program was loaded `is_loadmem` is whatever the memory held: where that is true,
  -- `reset` drops every start-up write and the wake-up write.
  pub reset_unset : (s : Tsi api) → s.is_loadmem ≡ true → reset api s ≡ s
  reset_unset s e = ap (reset api) (whole e) ∙ reset_shut s.config s.base ∙ sym (whole e)
    where
      whole : s.is_loadmem ≡ true → s ≡ tsi_of s.config true s.base
      whole p = ap (λ (f : Bool). tsi_of s.config f s.base) p
