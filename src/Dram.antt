-- ===== src/Dram.antt =====
-- SimDRAM.cc: the memory model that the simulated memory port uses, its options and its tick.
pub mod Setting
pub mod Making
pub mod Port
mod Tests
use chipyard_fault_injection.Common.{
  ℕ, zero, suc, ◌+◌, ◌-◌, ◌*◌, ◌/◌, ◌%◌, ◌^◌, Bool, true, false, ◌&&◌, not, Option, none, some,
  List, [], ◌∷◌, ◌++◌, ltb, leb, ◌==◌, if◌then◌else◌, Result, ok, err, ◌>>=◌, invalid_argument,
  length_error, guard, ◌>>◌, out_of_range, out_of_bounds, u32, u64, sext32, shl_int, length,
  get_elem?,
}
use chipyard_fault_injection.Common.Text.{
  codes, starts_with, same_text, take, drop, hex_value, hex_from, skip_spaces, skip_0x,
}
use chipyard_fault_injection.Axi.{Inputs}
use chipyard_fault_injection.Mm.{Mm, load_mem}
use chipyard_fault_injection.Magic.{Magic}
use chipyard_fault_injection.Magic
use chipyard_fault_injection.Dramsim.{DramApi, Dramsim, construct}
use chipyard_fault_injection.Dramsim

-- The globals that the first call of `memory_init` sets from the arguments.
pub record Settings : Type 0 where
  pub dramsim : Bool
  pub ini_dir : List ℕ
  pub loadmem_addr : ℕ
  pub loadmem_file : List ℕ

abbrev pub defaults : Settings
defaults = record {
  dramsim = false;
  ini_dir = codes "dramsim2_ini";
  loadmem_addr = 0;
  loadmem_file = [];
}

-- `stol(s, NULL, 16)` as `unsigned long`: no digit throws, and so does a value that a `long` does not
-- hold, which for a magnitude is one from `limit` on.
unfoldable pub below : ℕ → ℕ → Result ℕ
below limit v = if ltb v limit then ok v else err out_of_range

abbrev pub starts_hex : List ℕ → Bool
starts_hex [] = false
starts_hex (c ∷ s) = ltb (hex_value c) 16

-- `0x` goes with a digit behind it only; otherwise its 0 is the number.
unfoldable pub skip_prefix : List ℕ → List ℕ
skip_prefix s = if starts_hex (skip_0x s) then skip_0x s else s

unfoldable pub stol_digits : ℕ → List ℕ → Result ℕ
stol_digits limit s = if starts_hex s then below limit (hex_from 0 s) else err invalid_argument

unfoldable pub stol_signed : List ℕ → Result ℕ
unfolding skip_prefix
stol_signed [] = err invalid_argument
stol_signed (c ∷ s) =
    if c == b'-'
    then (do v ← stol_digits (2 ^ 63 + 1) (skip_prefix s); ok ((2 ^ 64 - v) % 2 ^ 64))
    else if c == b'+'
    then stol_digits (2 ^ 63) (skip_prefix s)
    else stol_digits (2 ^ 63) (skip_prefix (c ∷ s))

unfoldable pub stol_hex : List ℕ → Result ℕ
stol_hex s = stol_signed (skip_spaces s)

unfoldable pub set_address : List ℕ → Settings → Result Settings
set_address arg s =
    if starts_with (codes "+loadmem_addr=") arg
    then (do v ← stol_hex (drop 14 arg); ok (record s { loadmem_addr = v }))
    else ok s

-- Lines 32 to 39, one argument.
unfoldable pub read_setting : List ℕ → Settings → Result Settings
read_setting arg s = do
  let s : Settings = if same_text (codes "+dramsim") arg then record s { dramsim = true } else s
  let s : Settings =
      if starts_with (codes "+dramsim_ini_dir=") arg then record s { ini_dir = drop 17 arg } else s
  s ← set_address arg s
  ok (if starts_with (codes "+loadmem=") arg then record s { loadmem_file = drop 9 arg } else s)

unfoldable pub read_settings : List (List ℕ) → Settings → Result Settings
read_settings [] s = ok s
read_settings (arg ∷ args) s = do s ← read_setting arg s; read_settings args s

-- A memory model: the class that `memory_init` makes.
pub data Memory (api : DramApi) : Type 0 where
  magic : Magic → Memory api
  delayed : Dramsim api → Memory api

-- What the constructors leave uninitialised, and what the calls of the system give.
pub record Machine (api : DramApi) : Type 0 where
  pub raw_magic : Magic
  pub raw_dramsim : Dramsim api
  pub mmap : ℕ → Option (ℕ → ℕ)
  pub get_memory_system : List ℕ → ℕ → ℕ → api.State
  pub read_file : List ℕ → Option (List (List ℕ))

module _ (api : DramApi) (machine : Machine api) where
  -- Lines 43 to 48.
  -- The sizes are converted to `int`, and a negative number of ids makes the vectors of the
  -- constructor throw.
  unfoldable pub make : Settings → ℕ → ℕ → ℕ → ℕ → ℕ → Result (Memory api)
  make s mem_size word_size line_size id_bits clock_hz =
      if s.dramsim
      then (do
        ids ← shl_int 1 id_bits
        guard (ltb ids (2 ^ 31)) length_error
        mm ←
            Dramsim.init api (construct api machine.raw_dramsim ids) machine.mmap
              (machine.get_memory_system s.ini_dir clock_hz) mem_size (u32 word_size)
              (u32 line_size)
        ok (delayed mm))
      else (do
        mm ← Magic.init machine.raw_magic machine.mmap mem_size (u32 word_size) (u32 line_size)
        ok (magic mm))

  unfoldable pub load : ℕ → List ℕ → Memory api → Result (Memory api)
  load start file (magic s) = do
    store ← load_mem start (machine.read_file file) s.mm
    ok (magic (record s { mm = store }))
  load start file (delayed s) = do
    store ← load_mem start (machine.read_file file) s.mm
    ok (delayed (record s { mm = store }))

  unfoldable pub get_settings : Option Settings → List (List ℕ) → Result Settings
  get_settings none args = read_settings args defaults
  get_settings (some s) args = ok s

  -- The settings are those of the first call; `args` are the arguments after `argv[0]`.
  unfoldable pub memory_init :
      Option Settings → List (List ℕ) → ℕ → ℕ → ℕ → ℕ → ℕ → Result (Settings × Memory api)
  memory_init global args mem_size word_size line_size id_bits clock_hz = do
    s ← get_settings global args
    mm ← make s mem_size word_size line_size id_bits clock_hz
    mm ← if same_text s.loadmem_file [] then ok mm else load s.loadmem_addr s.loadmem_file mm
    ok (s, mm)
