-- ===== src/Tsi.antt =====
-- testchip_tsi.h and testchip_tsi.cc: the serial front end with start-up writes and memory preloading.
-- The base class `tsi_t` belongs to fesvr and is a parameter.
pub mod Arguments
pub mod Target
mod Tests
use chipyard_fault_injection.Common.{
  ℕ, zero, suc, ◌+◌, ◌-◌, ◌/◌, ◌%◌, ◌^◌, Bool, true, false, ◌&&◌, not, Option, none, some, List, [],
  ◌∷◌, ◌++◌, ltb, ◌==◌, if◌then◌else◌, Result, ok, err, ◌>>=◌, invalid_argument, u32,
}
use chipyard_fault_injection.Common.Text.{codes, starts_with, find_text, take, drop, strtoull_hex}

-- A write of `bytes` at an address of the target.
abbrev pub Chunk : Type 0
Chunk = ℕ × List ℕ

-- `tsi_t` over its state. `load_program` and `reset` of that class reach the target through the
-- virtual `write_chunk`; `program_chunks` and `reset_chunks` are what they write.
pub record TsiApi : Type 1 where
  pub State : Type 0
  pub write_chunk : Chunk → State → State
  pub read_chunk : ℕ → ℕ → State → State × List ℕ
  pub switch_to_target : State → State
  pub program_chunks : List Chunk
  pub reset_chunks : List Chunk

-- What the constructor settles.
pub record Config : Type 0 where
  pub has_loadmem : Bool
  pub write_hart0_msip : Bool
  pub init_writes : List (ℕ × ℕ)

-- Lines 15 to 20.
unfoldable pub parse_write : List ℕ → Result (ℕ × ℕ)
parse_write arg = elim (find_text (codes ":0x") arg) [
  | none ↦ err invalid_argument
  | some d ↦ ok (strtoull_hex (drop 14 (take d arg)), u32 (strtoull_hex (drop (d + 3) arg)))
]

unfoldable pub add_write : List ℕ → Config → Result Config
add_write arg c =
    if starts_with (codes "+init_write=0x") arg
    then (do w ← parse_write arg; ok (record c { init_writes = c.init_writes ++ w ∷ [] }))
    else ok c

-- Lines 12 to 25, one argument.
unfoldable pub read_argument : Bool → List ℕ → Config → Result Config
read_argument can_have_loadmem arg c = do
  c ← add_write arg (
      if starts_with (codes "+loadmem=") arg
      then record c { has_loadmem = can_have_loadmem }
      else c)
  ok (if starts_with (codes "+no_hart0_msip") arg then record c { write_hart0_msip = false } else c)

unfoldable pub read_arguments : Bool → List (List ℕ) → Config → Result Config
read_arguments can_have_loadmem [] c = ok c
read_arguments can_have_loadmem (arg ∷ args) c = do
  c ← read_argument can_have_loadmem arg c
  read_arguments can_have_loadmem args c

abbrev pub fresh : Config
fresh = record { has_loadmem = false; write_hart0_msip = true; init_writes = [] }

-- The arguments after `argv[0]`.
unfoldable pub configure : Bool → List (List ℕ) → Result Config
configure can_have_loadmem args = read_arguments can_have_loadmem args fresh

-- The four bytes of a `uint32_t`, the lowest first.
abbrev pub bytes_of_u32 : ℕ → List ℕ
bytes_of_u32 v = v % 256 ∷ v / 2 ^ 8 % 256 ∷ v / 2 ^ 16 % 256 ∷ v / 2 ^ 24 % 256 ∷ []

module _ (api : TsiApi) where
  open api use {State, write_chunk, read_chunk, switch_to_target, program_chunks, reset_chunks}

  -- `is_loadmem` is not set by the constructor: until `load_program` it is what the memory held.
  pub record Tsi : Type 0 where
    pub config : Config
    pub is_loadmem : Bool
    pub base : State

  unfoldable pub tsi_write_chunk : Chunk → Tsi → Tsi
  tsi_write_chunk c s = if s.is_loadmem then s else record s { base = write_chunk c s.base }

  unfoldable pub tsi_read_chunk : ℕ → ℕ → List ℕ → Tsi → Tsi × List ℕ
  tsi_read_chunk addr nbytes dst s =
      if s.is_loadmem
      then (s, dst)
      else (let (base, bytes) = read_chunk addr nbytes s.base in (record s { base = base }, bytes))

  unfoldable pub write_chunks : List Chunk → Tsi → Tsi
  write_chunks [] s = s
  write_chunks (c ∷ cs) s = write_chunks cs (tsi_write_chunk c s)

  unfoldable pub load_program : Tsi → Tsi
  load_program s =
      let started : Tsi = record s {
        base = switch_to_target s.base;
        is_loadmem = s.config.has_loadmem;
      } in
      record (write_chunks program_chunks started) { is_loadmem = false }

  unfoldable pub idle : Tsi → Tsi
  idle s = record s { base = switch_to_target s.base }

  -- Lines 50 to 52.
  unfoldable pub write_inits : List (ℕ × ℕ) → Tsi → Tsi
  write_inits [] s = s
  write_inits ((addr, value) ∷ rest) s =
      write_inits rest (tsi_write_chunk (addr, bytes_of_u32 value) s)

  unfoldable pub reset : Tsi → Tsi
  reset s =
      let t = write_inits s.config.init_writes s in
      if s.config.write_hart0_msip then write_chunks reset_chunks t else t
