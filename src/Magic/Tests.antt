-- ===== src/Magic/Tests.antt =====
-- Concrete runs of the magic memory: the theorems at inputs that meet their hypotheses.
use chipyard_fault_injection.Common.{◌%◌, ◌≡◌, refl, true, false, [], ◌∷◌, ◌++◌, ok, arith}
use chipyard_fault_injection.Axi.{Inputs}
use chipyard_fault_injection.Magic.{Magic, tick, aw_ready, w_ready}
use chipyard_fault_injection.Magic.Channels.{Inv, Protocol}
use chipyard_fault_injection.Magic.Ideal
use chipyard_fault_injection.Magic.Refine.{view, tick_refines}
use chipyard_fault_injection.Magic.Run.{run}
use chipyard_fault_injection.Magic.Burst.{write_beats, burst_lem}
use chipyard_fault_injection.Magic.Order.{received, requested, run-order}
use chipyard_fault_injection.Magic.Reset.{burst_survives_reset}

abbrev idle : Magic
idle = record {
  mm = record { cells = λ x. x % 256; size = 64; word_size = 8; line_size = 64 };
  store_inflight = false;
  store_addr = 0;
  store_id = 0;
  store_size = 0;
  store_count = 0;
  dummy_data = 0 ∷ [];
  bresp = [];
  rresp = [];
  cycle = 0;
}

abbrev quiet : Inputs
quiet = record {
  reset = false;
  ar_valid = false;
  ar_addr = 0;
  ar_id = 0;
  ar_size = 0;
  ar_len = 0;
  aw_valid = false;
  aw_addr = 0;
  aw_id = 0;
  aw_size = 0;
  aw_len = 0;
  w_valid = false;
  w_strb = 0;
  w_data = [];
  w_last = false;
  r_ready = false;
  b_ready = false;
}

-- A read of two words and a write of one, in one cycle.
abbrev requests : Inputs
requests = record quiet {
  ar_valid = true;
  ar_addr = 12;
  ar_id = 3;
  ar_len = 1;
  aw_valid = true;
  aw_addr = 16;
  aw_id = 5;
  aw_size = 3;
}

abbrev busy : Magic
busy = record idle {
  store_inflight = true;
  store_addr = 16;
  store_id = 5;
  store_size = 8;
  store_count = 1;
}

abbrev data_beat : Inputs
data_beat = record quiet {
  w_valid = true;
  w_strb = 0xff;
  w_data = 10 ∷ 11 ∷ 12 ∷ 13 ∷ 14 ∷ 15 ∷ 16 ∷ 17 ∷ [];
  w_last = true;
}

idle-Inv : Inv idle
idle-Inv = ground arith

busy-Inv : Inv busy
busy-Inv = omega arith

requests-Protocol : Protocol idle requests
requests-Protocol = ground arith

data_beat-Protocol : Protocol busy data_beat
data_beat-Protocol = ground arith

tick_refines_example :
    (t : Magic) × (tick idle requests ≡ ok t) × (view t ≡ Ideal.step (view idle) requests) × Inv t
tick_refines_example = tick_refines idle requests idle-Inv requests-Protocol

burst_lem_example :
    (t : Magic) × (run busy (data_beat ∷ []) ≡ ok t)
    × (t.store_inflight ≡ false)
    × (t.bresp ≡ 5 ∷ [])
    × (t.mm ≡ write_beats busy.mm 16 8 (data_beat ∷ []))
burst_lem_example =
    burst_lem busy data_beat [] busy-Inv (data_beat-Protocol, λ t e. tt) refl refl
      (refl, refl, refl, tt)

run-order_example :
    (t : Magic) × (run idle (requests ∷ []) ≡ ok t)
    × (received (view idle) (requests ∷ []) ++ t.rresp ≡ requested (view idle) (requests ∷ []))
run-order_example =
    run-order idle (requests ∷ []) idle-Inv (requests-Protocol, λ t e. tt) (refl, tt)

reset-Protocol : Protocol busy (record quiet { reset = true })
reset-Protocol = ground arith

burst_survives_reset_example :
    (t : Magic) × (run busy (record quiet { reset = true } ∷ []) ≡ ok t)
    × (aw_ready t ≡ false)
    × (w_ready t ≡ true)
    × (t.store_id ≡ 5)
    × (t.store_count ≡ 1)
burst_survives_reset_example =
    burst_survives_reset busy (record quiet { reset = true } ∷ []) busy-Inv
      (reset-Protocol, λ t e. tt) refl (refl, tt)

abbrev ready : Inputs
ready = record quiet { r_ready = true }
