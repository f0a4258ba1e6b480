-- ===== src/Dram/Port/Delayed.antt =====
-- `memory_tick` on the memory with the delays of DRAMSim.
use chipyard_fault_injection.Common.{ℕ, ◌^◌, ◌≤◌, ◌<◌, ◌≡◌, true, length, ok, arith, u32, sub_u64}
use chipyard_fault_injection.Dramsim.{DramApi, Dramsim, tick}
use chipyard_fault_injection.Dramsim
use chipyard_fault_injection.Dramsim.Pending.{Counts}
use chipyard_fault_injection.Dramsim.Serving.{Sound, Bus, tick_returns}
use chipyard_fault_injection.Dramsim.Sized.{Sized, tick-keeps_Sized, length-r_data}
use chipyard_fault_injection.Dram.{delayed}
use chipyard_fault_injection.Dram.Port.{
  Driven, Ports, inputs, drive, drive_model, tick_model, memory_tick,
}
use chipyard_fault_injection.Dram.Port.Words.{length-bytes_of, spelled, load_word-ok}
use chipyard_fault_injection.Dram.Port.Exchange.{small_power}

module _ (api : DramApi) (ids : ℕ) (c : Counts api) where
  -- A model behind the port, whose data has 8 bytes.
  pub record Fit (s : Dramsim api) : Type 0 where
    pub sound : Sound api ids 8 c s
    pub sized : Sized api s

  -- Ids that have a flag, sizes of 3 bits, writes of at most a word, and `w_last` with the last beat.
  pub record Driving (s : Dramsim api) (q : Driven) : Type 0 where
    pub read_id : q.ar_valid ≡ true → q.ar_id < ids
    pub read_size : q.ar_valid ≡ true → q.ar_size < 8
    pub write_id : q.aw_valid ≡ true → q.aw_id < ids
    pub write_size : q.aw_size ≤ 3
    pub last_marked : s.store_inflight ≡ true → sub_u64 s.store_count 1 ≡ 0 → q.w_last ≡ true

  Driving-Bus :
      (s : Dramsim api) (q : Driven) → ids ≤ 2 ^ 31 → Driving s q → Bus api ids 8 c s (inputs q)
  unfolding inputs
  Driving-Bus s q few d = record {
    protocol = record { size_small = ground (arith, d.write_size); last_marked = d.last_marked };
    wires = record {
      read_id = λ e. ground (arith, d.read_id e);
      read_size = λ e. ground (arith, d.read_size e);
      write_id = λ e. ground (arith, d.write_id e);
      write_size = λ e. small_power q.aw_size d.write_size;
      data_word = λ e. omega (arith, length-bytes_of 8 q.w_data);
    };
  }

  -- What the ports show of a model.
  abbrev pub shown : Dramsim api → Ports
  shown s = record {
    ar_ready = Dramsim.ar_ready api s;
    aw_ready = Dramsim.aw_ready api s;
    w_ready = Dramsim.w_ready api s;
    r_valid = Dramsim.r_valid api s;
    r_id = u32 (Dramsim.r_id api s);
    r_resp = 0;
    r_data = spelled 8 (Dramsim.r_data api s);
    r_last = Dramsim.r_last api s;
    b_valid = Dramsim.b_valid api s;
    b_id = u32 (Dramsim.b_id api s);
    b_resp = 0;
  }

  drive-shown : (s : Dramsim api) → Fit s → drive_model api (delayed s) ≡ ok (shown s)
  unfolding drive_model drive
  drive-shown s f =
      let long : 8 ≤ length (Dramsim.r_data api s) =
        omega (arith, length-r_data api s f.sized, f.sound.ready.width) in
      rw (load_word-ok 8 (Dramsim.r_data api s) long)

  -- A model fit for the port with at most 2 ^ 31 ids, on wires that keep to the protocol: a call of
  -- `memory_tick` ticks it once on the driven signals and is defined, the load of `r_data` included; the
  -- ports show the new model, which is fit for the port.
  pub memory_tick_returns :
      (s : Dramsim api) (q : Driven)
      → ids ≤ 2 ^ 31
      → Fit s
      → Driving s q
      → (t : Dramsim api) × (tick api s (inputs q) ≡ ok t)
        × (memory_tick api (delayed s) q ≡ ok (delayed t, shown t))
        × Fit t
  unfolding memory_tick tick_model
  memory_tick_returns s q few f d =
      let (t, e, sound) = tick_returns api ids 8 c s (inputs q) f.sound (Driving-Bus s q few d) in
      let fit : Fit t = record {
        sound = sound;
        sized = tick-keeps_Sized api (inputs q) f.sized e;
      } in
      (t, e, rw (e, drive-shown t fit), fit)
