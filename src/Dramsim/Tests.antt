-- ===== src/Dramsim/Tests.antt =====
-- The theorems at concrete models and inputs that meet their hypotheses.
use chipyard_fault_injection.Common.{
  ℕ, ◌≡◌, refl, true, false, List, [], ◌∷◌, ok, arith, replicate, some, Gives, ◌>>=◌,
}
use chipyard_fault_injection.Dramsim.Samples.{stack, counts}
use chipyard_fault_injection.Axi.{Inputs}
use chipyard_fault_injection.Dramsim.{Dramsim, Req, construct, init, set_queue}
use chipyard_fault_injection.Dramsim.Starting.{init-Sound}
use chipyard_fault_injection.Mm
use chipyard_fault_injection.Dramsim.Pending.{completions, Inv, length-pushed}
use chipyard_fault_injection.Dramsim.Marking.{Apart}
use chipyard_fault_injection.Dramsim.Ids.{ticks, construct-Apart, reads-Apart}
use chipyard_fault_injection.Dramsim.Exclusive.{push-Exclusive}
use chipyard_fault_injection.Dramsim.Ready.{Known, set_queue-Each}
use chipyard_fault_injection.Dramsim.Returning.{Ready}
use chipyard_fault_injection.Dramsim.Serving.{Sound, ticks_return}
use chipyard_fault_injection.Dramsim.Sized.{Sized}

-- A request of id 1 waits, and one of id 0 is with the memory system.
abbrev model : Dramsim stack
model = record {
  mm = record { cells = λ a. 0; size = 1048576; word_size = 8; line_size = 64 };
  mem = (false, 64) ∷ [];
  store_inflight = true;
  store_addr = 128;
  store_id = 2;
  store_size = 8;
  store_count = 1;
  dummy_data = replicate 8 0;
  bresp = [];
  wreq = λ a. [];
  rreq = set_queue (λ a. []) 64 (record { id = 0; size = 8; len = 1; addr = 64 } ∷ []);
  rresp = [];
  read_id_busy = true ∷ false ∷ false ∷ false ∷ [];
  write_id_busy = false ∷ false ∷ true ∷ false ∷ [];
  rreq_queue = record { id = 1; size = 8; len = 2; addr = 256 } ∷ [];
  cycle = 0;
}

model-Inv : Inv stack counts model
model-Inv = record {
  reads =
      length-pushed (λ b. []) 64 (record { id = 0; size = 8; len = 1; addr = 64 }) (λ b. 0)
        (λ b. completions false b ((false, 64) ∷ [])) (λ b. refl) (λ b. refl);
  writes = λ a. refl;
  narrow = λ e. omega arith;
}

abbrev inputs : Inputs
inputs = record {
  reset = false;
  ar_valid = true;
  ar_addr = 512;
  ar_id = 3;
  ar_size = 3;
  ar_len = 0;
  aw_valid = false;
  aw_addr = 0;
  aw_id = 0;
  aw_size = 3;
  aw_len = 0;
  w_valid = true;
  w_strb = 255;
  w_data = 1 ∷ 2 ∷ 3 ∷ 4 ∷ 5 ∷ 6 ∷ 7 ∷ 8 ∷ [];
  w_last = true;
  r_ready = false;
  b_ready = false;
}

init-Sound_example :
    (t : Dramsim stack) × (init stack
        (construct stack model 4)
        (λ n. some (λ a. 0))
        (λ megabytes. [])
        1048576
        8
        64
      ≡ ok t)
    × Sound stack 4 8 counts t
    × Sized stack t
unfolding Mm.init
init-Sound_example =
    init-Sound stack model 4 counts (λ n. some (λ a. 0)) (λ megabytes. []) 1048576 8 64
      (λ megabytes w a. refl) refl
      (record { cells = λ a. 0; size = 1048576; word_size = 8; line_size = 64 }) refl refl
      (ground arith)

abbrev requests : List Req
requests =
    record { id = 0; size = 8; len = 1; addr = 64 }
    ∷ record { id = 1; size = 8; len = 2; addr = 256 }
    ∷ []

-- A read of one word with an id.
abbrev asking : ℕ → Inputs
asking id = record inputs { ar_id = id; w_valid = false; r_ready = true }

reads-Apart_example : Gives (Apart stack) (
    init stack (construct stack model 4) (λ n. some (λ a. 0)) (λ megabytes. []) 1048576 8 64
    >>= λ s. ticks stack s (asking 1 ∷ asking 1 ∷ asking 2 ∷ []))
reads-Apart_example =
    reads-Apart stack model 4 (λ n. some (λ a. 0)) (λ megabytes. []) 1048576 8 64
      (asking 1 ∷ asking 1 ∷ asking 2 ∷ [])

model-Ready : Ready stack 4 8 model
model-Ready = record {
  store = ground arith;
  width = refl;
  read_flags = refl;
  write_flags = refl;
  waiting = omega arith;
  reads =
      set_queue-Each (Known 4) (λ a. []) 64 (record { id = 0; size = 8; len = 1; addr = 64 } ∷ [])
        (λ a. tt) (omega arith);
  writes = λ a. tt;
  transfer = λ e. omega arith;
  owner = λ e. omega arith;
}

-- Request 0 is pushed on empty queues.
model-Apart : Apart stack model
unfolding construct
model-Apart =
    push-Exclusive (false ∷ false ∷ false ∷ false ∷ []) (λ a. []) (construct-Apart stack model 4)
      (record { id = 0; size = 8; len = 1; addr = 64 }) refl

ticks_return_example :
    (t : Dramsim stack) × (ticks stack model (inputs ∷ []) ≡ ok t) × Sound stack 4 8 counts t
ticks_return_example =
    ticks_return stack 4 8 counts model (inputs ∷ [])
      (record { queues = model-Inv; ready = model-Ready; apart = model-Apart })
      (
        record {
          protocol = record { size_small = omega arith; last_marked = λ busy last. refl };
          wires = ground arith;
        },
        λ t e. tt,
      )
