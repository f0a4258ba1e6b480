-- ===== src/Dram/Port.antt =====
-- SimDRAM.cc: `memory_tick`, the port between the Verilog of the memory channel and a memory model.
pub mod Words
pub mod Exchange
pub mod Delayed
pub mod Requests
pub mod RoundTrip
pub mod Starting
pub mod Boot
mod Tests
use chipyard_fault_injection.Common.{
  ℕ, zero, suc, ◌+◌, ◌*◌, ◌/◌, ◌%◌, Bool, List, [], ◌∷◌, Result, ok, err, ◌>>=◌, out_of_bounds,
  sext32, u32,
}
use chipyard_fault_injection.Axi.{Inputs}
use chipyard_fault_injection.Magic
use chipyard_fault_injection.Dramsim.{DramApi}
use chipyard_fault_injection.Dramsim
use chipyard_fault_injection.Dram.{Memory, magic, delayed}

-- What the Verilog drives. An `int` is its 32-bit pattern, and `w_data` a 64-bit one.
pub record Driven : Type 0 where
  pub reset : Bool
  pub ar_valid : Bool
  pub ar_addr : ℕ
  pub ar_id : ℕ
  pub ar_size : ℕ
  pub ar_len : ℕ
  pub aw_valid : Bool
  pub aw_addr : ℕ
  pub aw_id : ℕ
  pub aw_size : ℕ
  pub aw_len : ℕ
  pub w_valid : Bool
  pub w_strb : ℕ
  pub w_data : ℕ
  pub w_last : Bool
  pub r_ready : Bool
  pub b_ready : Bool

-- What a call drives.
pub record Ports : Type 0 where
  pub ar_ready : Bool
  pub aw_ready : Bool
  pub w_ready : Bool
  pub r_valid : Bool
  pub r_id : ℕ
  pub r_resp : ℕ
  pub r_data : ℕ
  pub r_last : Bool
  pub b_valid : Bool
  pub b_id : ℕ
  pub b_resp : ℕ

-- The lowest `n` bytes of a word in memory, the lowest first.
unfoldable pub bytes_of : ℕ → ℕ → List ℕ
bytes_of zero v = []
bytes_of (suc n) v = v % 256 ∷ bytes_of n (v / 256)

-- A load of `n` bytes from the start of a buffer.
unfoldable pub load_word : ℕ → List ℕ → Result ℕ
load_word zero bytes = ok 0
load_word (suc n) [] = err out_of_bounds
load_word (suc n) (b ∷ bytes) = do high ← load_word n bytes; ok (b + 256 * high)

-- The arguments of `tick`: an `int` becomes a `uint64_t`, and the data goes by its address.
unfoldable pub inputs : Driven → Inputs
inputs q = record {
  reset = q.reset;
  ar_valid = q.ar_valid;
  ar_addr = sext32 q.ar_addr;
  ar_id = sext32 q.ar_id;
  ar_size = sext32 q.ar_size;
  ar_len = sext32 q.ar_len;
  aw_valid = q.aw_valid;
  aw_addr = sext32 q.aw_addr;
  aw_id = sext32 q.aw_id;
  aw_size = sext32 q.aw_size;
  aw_len = sext32 q.aw_len;
  w_valid = q.w_valid;
  w_strb = sext32 q.w_strb;
  w_data = bytes_of 8 q.w_data;
  w_last = q.w_last;
  r_ready = q.r_ready;
  b_ready = q.b_ready;
}

-- Lines 117 to 127, from what the methods of the memory model return.
unfoldable pub drive : Bool → Bool → Bool → Bool → ℕ → List ℕ → Bool → Bool → ℕ → Result Ports
drive ar_ready aw_ready w_ready r_valid r_id r_data r_last b_valid b_id = do
  word ← load_word 8 r_data
  ok (record {
    ar_ready = ar_ready;
    aw_ready = aw_ready;
    w_ready = w_ready;
    r_valid = r_valid;
    r_id = u32 r_id;
    r_resp = 0;
    r_data = word;
    r_last = r_last;
    b_valid = b_valid;
    b_id = u32 b_id;
    b_resp = 0;
  })

module _ (api : DramApi) where
  -- The virtual calls.
  unfoldable pub tick_model : Memory api → Inputs → Result (Memory api)
  tick_model (magic s) x = do s ← Magic.tick s x; ok (magic s)
  tick_model (delayed s) x = do s ← Dramsim.tick api s x; ok (delayed s)

  unfoldable pub drive_model : Memory api → Result Ports
  drive_model (magic s) =
      drive (Magic.ar_ready s) (Magic.aw_ready s) (Magic.w_ready s) (Magic.r_valid s) (Magic.r_id s)
        (Magic.r_data s) (Magic.r_last s) (Magic.b_valid s) (Magic.b_id s)
  drive_model (delayed s) =
      drive (Dramsim.ar_ready api s) (Dramsim.aw_ready api s) (Dramsim.w_ready api s)
        (Dramsim.r_valid api s) (Dramsim.r_id api s) (Dramsim.r_data api s) (Dramsim.r_last api s)
        (Dramsim.b_valid api s) (Dramsim.b_id api s)

  unfoldable pub memory_tick : Memory api → Driven → Result (Memory api × Ports)
  memory_tick mm q = do mm ← tick_model mm (inputs q); ports ← drive_model mm; ok (mm, ports)

  -- The calls of `memory_tick` one after the other.
  unfoldable pub exchange : Memory api → List Driven → Result (Memory api × List Ports)
  exchange mm [] = ok (mm, [])
  exchange mm (q ∷ qs) = do (mm, p) ← memory_tick mm q; (mm, ps) ← exchange mm qs; ok (mm, p ∷ ps)
