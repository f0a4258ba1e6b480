-- ===== src/Dram/Tests.antt =====
-- A memory of 64 bytes that is filled from a file, and options of the command line.
use chipyard_fault_injection.Common.{
  ◌≡◌, refl, true, false, none, some, List, [], ◌∷◌, ok, ◌>>=◌, arith,
}
use chipyard_fault_injection.Common.Text.{codes}
use chipyard_fault_injection.Mm.{Mm}
use chipyard_fault_injection.Mm
use chipyard_fault_injection.Mm.Loading.{Line, texts}
use chipyard_fault_injection.Magic.{Magic}
use chipyard_fault_injection.Magic
use chipyard_fault_injection.Dramsim.{DramApi, Dramsim}
use chipyard_fault_injection.Dram.{
  Settings, defaults, magic, Machine, Memory, get_settings, memory_init, read_settings,
}
use chipyard_fault_injection.Dram.Setting.{
  Setting, loadmem_addr, loadmem, plain, settings_texts, read_settings-texts,
}
use chipyard_fault_injection.Magic.Refine.{view}
use chipyard_fault_injection.Dram.Port.{Driven, exchange}
use chipyard_fault_injection.Dram.Port.Requests.{quiet, read_address}
use chipyard_fault_injection.Dram.Port.Boot.{all_shown, ideal_after, holding, KeepsAll, boot_lem}

abbrev arguments : List Setting
arguments = loadmem_addr (codes "3e") ∷ loadmem (codes "a.hex") ∷ plain (codes "a.elf") ∷ []

abbrev settings : Settings
settings = record {
  dramsim = false;
  ini_dir = codes "dramsim2_ini";
  loadmem_addr = 62;
  loadmem_file = codes "a.hex";
}

read_settings-texts_example : read_settings (settings_texts arguments) defaults ≡ ok settings
read_settings-texts_example =
    read_settings-texts arguments defaults
      (((omega arith, (omega arith, tt)), omega arith), (tt, (refl, tt)))

abbrev nothing : DramApi
nothing = record {
  State = Unit {0};
  will_accept = λ m. false;
  add_transaction = λ w a m. m;
  update = λ m. (m, []);
}

abbrev raw : Magic
raw = record {
  mm = record { cells = λ x. 0; size = 0; word_size = 0; line_size = 0 };
  store_inflight = true;
  store_addr = 0;
  store_id = 0;
  store_size = 0;
  store_count = 0;
  dummy_data = [];
  bresp = [];
  rresp = [];
  cycle = 0;
}

abbrev raw_delayed : Dramsim nothing
raw_delayed = record {
  mm = raw.mm;
  mem = tt;
  store_inflight = false;
  store_addr = 0;
  store_id = 0;
  store_size = 0;
  store_count = 0;
  dummy_data = [];
  bresp = [];
  wreq = λ a. [];
  rreq = λ a. [];
  rresp = [];
  read_id_busy = [];
  write_id_busy = [];
  rreq_queue = [];
  cycle = 0;
}

abbrev image : List Line
image = ((b'0', b'a') ∷ (b'1', b'b') ∷ []) ∷ ((b'f', b'f') ∷ []) ∷ []

abbrev machine : Machine nothing
machine = record {
  raw_magic = raw;
  raw_dramsim = raw_delayed;
  mmap = λ n. some (λ x. 0);
  get_memory_system = λ dir hz megabytes. tt;
  read_file = λ name. some (texts image);
}

abbrev fresh : Magic
fresh = record raw {
  mm = record { cells = λ x. 0; size = 64; word_size = 8; line_size = 64 };
  store_inflight = false;
  dummy_data = 0 ∷ 0 ∷ 0 ∷ 0 ∷ 0 ∷ 0 ∷ 0 ∷ 0 ∷ [];
}

init-fresh : Magic.init raw machine.mmap 64 8 64 ≡ ok fresh
unfolding Magic.init Mm.init
init-fresh = refl

-- The first word is read, with the last byte of the image in it, and then taken.
abbrev session : List Driven
session = read_address 0 3 ∷ record quiet { r_ready = true } ∷ []

session-KeepsAll : KeepsAll (holding fresh.mm 62 image) session
session-KeepsAll = (ground arith, (ground arith, tt))

get_settings-arguments : get_settings nothing machine none (settings_texts arguments) ≡ ok settings
unfolding get_settings
get_settings-arguments = read_settings-texts_example

mm-fresh : Mm.init machine.mmap 64 8 64 ≡ ok fresh.mm
unfolding Mm.init
mm-fresh = refl

boot_lem_example :
    (t : Magic) × ((memory_init nothing machine none (settings_texts arguments) 64 8 64 4 0
        >>= (λ (made : Settings × Memory nothing). exchange nothing made.1 session))
      ≡ ok (magic t, all_shown (holding fresh.mm 62 image) session))
    × (view t ≡ ideal_after (holding fresh.mm 62 image) session)
boot_lem_example =
    boot_lem nothing machine none (settings_texts arguments) settings image 64 8 64 4 0 fresh.mm
      session get_settings-arguments refl refl refl mm-fresh (ground arith) refl (omega arith)
      (omega arith) session-KeepsAll
