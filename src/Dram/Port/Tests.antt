-- ===== src/Dram/Port/Tests.antt =====
-- A word that is written to a memory of 64 bytes and read again.
use chipyard_fault_injection.Common.{
  ◌+◌, ◌^◌, ◌%◌, ◌≡◌, refl, true, false, replicate, [], ◌∷◌, ok, arith,
}
use chipyard_fault_injection.Magic.{Magic}
use chipyard_fault_injection.Magic.Ideal
use chipyard_fault_injection.Magic.Refine.{view}
use chipyard_fault_injection.Mm.{Mm}
use chipyard_fault_injection.Dramsim.{DramApi, Dramsim, construct}
use chipyard_fault_injection.Dramsim
use chipyard_fault_injection.Dramsim.Samples.{stack, counts}
use chipyard_fault_injection.Dramsim.Starting.{
  started, started-Inv, started-Ready, started-Apart, started-Sized,
}
use chipyard_fault_injection.Dram.Port.Delayed
use chipyard_fault_injection.Dram.Port.Delayed.{Fit, Driving, memory_tick_returns}
use chipyard_fault_injection.Dram.{magic, delayed}
use chipyard_fault_injection.Dram.Port.{Ports, Driven, inputs, memory_tick, exchange}
use chipyard_fault_injection.Dram.Port.Exchange.{Attached, Wires, shown, memory_tick_lem}
use chipyard_fault_injection.Dram.Port.Requests.{write_address, write_data, read_address}
use chipyard_fault_injection.Dram.Port.RoundTrip.{round_trip}

abbrev nothing : DramApi
nothing = record {
  State = Unit {0};
  will_accept = λ m. false;
  add_transaction = λ w a m. m;
  update = λ m. (m, []);
}

abbrev fresh : Magic
fresh = record {
  mm = record { cells = λ x. x % 256; size = 64; word_size = 8; line_size = 64 };
  store_inflight = false;
  store_addr = 0;
  store_id = 0;
  store_size = 0;
  store_count = 0;
  dummy_data = replicate 8 0;
  bresp = [];
  rresp = [];
  cycle = 0;
}

fresh-Attached : Attached fresh
fresh-Attached = record {
  valid = ground arith;
  sized = record { dummy = refl; replies = tt };
  wide = refl;
}

-- A read and a write in one cycle, at addresses from 2 ^ 31 on.
abbrev both : Driven
both = record (write_address (2 ^ 31 + 8) 5) {
  ar_valid = true;
  ar_addr = 2 ^ 31 + 16;
  ar_id = 3;
  ar_len = 1;
}

both-Wires : Wires fresh both
both-Wires = ground arith

memory_tick_lem_example :
    (t : Magic) × (memory_tick nothing (magic fresh) both
      ≡ ok (magic t, shown (Ideal.step (view fresh) (inputs both))))
    × (view t ≡ Ideal.step (view fresh) (inputs both))
    × Attached t
memory_tick_lem_example = memory_tick_lem nothing fresh both fresh-Attached both-Wires

round_trip_example :
    (t : Magic) × (p1 : Ports) × (p2 : Ports) × (p3 : Ports) × (exchange nothing (magic fresh) (
        write_address 0x80000010 5 ∷ write_data 0x1122334455667788 ∷ read_address 0x80000010 3 ∷ [])
      ≡ ok (magic t, p1 ∷ p2 ∷ p3 ∷ []))
    × (p2.b_valid ≡ true)
    × (p2.b_id ≡ 5)
    × (p3.r_valid ≡ true)
    × (p3.r_id ≡ 3)
    × (p3.r_data ≡ 0x1122334455667788)
    × (p3.r_last ≡ true)
round_trip_example =
    round_trip nothing fresh 0x80000010 5 0x1122334455667788 3 fresh-Attached refl refl refl
      (omega arith) (omega arith) (omega arith) (omega arith) (omega arith)

-- What a constructor may leave.
abbrev raw : Dramsim stack
raw = record {
  mm = fresh.mm;
  mem = [];
  store_inflight = true;
  store_addr = 0;
  store_id = 0;
  store_size = 0;
  store_count = 0;
  dummy_data = [];
  bresp = [];
  wreq = λ a. [];
  rreq = λ a. [];
  rresp = [];
  read_id_busy = [];
  write_id_busy = [];
  rreq_queue = [];
  cycle = 0;
}

abbrev megabyte : Mm
megabyte = record { cells = λ x. x % 256; size = 1048576; word_size = 8; line_size = 64 }

-- The model with the delays of DRAMSim, as `init` leaves it.
abbrev begun : Dramsim stack
begun = started stack raw 4 (λ megabytes. []) megabyte

begun-Fit : Fit stack 4 counts begun
begun-Fit = record {
  sound = record {
    queues = started-Inv stack raw 4 counts (λ megabytes. []) megabyte (λ megabytes w a. refl);
    ready = started-Ready stack raw 4 (λ megabytes. []) megabyte (ground arith);
    apart = started-Apart stack raw 4 (λ megabytes. []) megabyte;
  };
  sized = started-Sized stack raw 4 (λ megabytes. []) megabyte;
}

abbrev asked : Driven
asked = record both { aw_id = 2; w_last = true }

asked-Driving : Driving stack 4 counts begun asked
asked-Driving = record {
  read_id = λ e. omega arith;
  read_size = λ e. omega arith;
  write_id = λ e. omega arith;
  write_size = omega arith;
  last_marked = λ busy last. refl;
}

memory_tick_returns_example :
    (t : Dramsim stack) × (Dramsim.tick stack begun (inputs asked) ≡ ok t)
    × (memory_tick stack (delayed begun) asked ≡ ok (delayed t, Delayed.shown stack 4 counts t))
    × Fit stack 4 counts t
memory_tick_returns_example =
    memory_tick_returns stack 4 counts begun asked (omega arith) begun-Fit asked-Driving
