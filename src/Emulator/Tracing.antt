-- ===== src/Emulator/Tracing.antt =====
-- emulator.cc, the build with VM_TRACE: the simulation with its dumps of the waves.
pub mod Same
pub mod Dumped
pub mod Recording
use chipyard_fault_injection.Common.{
  ℕ, zero, suc, ◌+◌, ◌*◌, ◌%◌, ◌^◌, Bool, true, false, Option, none, some, List, [], ◌∷◌, ◌++◌, leb,
  if◌then◌else◌, u64,
}
use chipyard_fault_injection.Emulator.Simulation.{Harness, Sim, goes_on, exit_status, verdict}

module _ (h : Harness) where
  open h use {State, eval}

  -- The simulation, and the calls of `tfp->dump`: the time and the harness at each.
  pub record Traced : Type 0 where
    pub sim : Sim h
    pub dumped : List (ℕ × State)

  -- `if (dump) tfp->dump(time)`.
  unfoldable pub dump_if : Bool → ℕ → State → List (ℕ × State) → List (ℕ × State)
  dump_if dump time tile dumped = if dump then dumped ++ (time, tile) ∷ [] else dumped

  unfoldable pub traced_cycle : ℕ → Bool → Traced → Traced
  traced_cycle start reset s =
      let low : State = eval reset false s.sim.tile in
      let dump : Bool = leb start s.sim.trace_count in
      let dumped = dump_if dump (u64 (s.sim.trace_count * 2)) low s.dumped in
      let high : State = eval reset true low in
      record {
        sim = record s.sim { tile = high; trace_count = u64 (s.sim.trace_count + 1) };
        dumped = dump_if dump (u64 (s.sim.trace_count * 2 + 1)) high dumped;
      }

  unfoldable pub traced_reset_loop : ℕ → ℕ → Traced → Traced
  traced_reset_loop start zero s = s
  traced_reset_loop start (suc n) s = traced_reset_loop start n (traced_cycle start true s)

  unfoldable pub traced_bring_up : ℕ → State → Traced
  traced_bring_up start made =
      let s : Traced = traced_reset_loop start 100 (record {
        sim = record { tile = eval false false made; trace_count = 0; done_reset = false };
        dumped = [];
      }) in
      record s { sim = record s.sim { done_reset = true } }

  unfoldable pub traced_simulate : ℕ → ℕ → ℕ → Traced → Option Traced
  traced_simulate start zero max_cycles s = none
  traced_simulate start (suc fuel) max_cycles s =
      let t = traced_cycle start false s in
      let rest = traced_simulate start fuel max_cycles t in
      if goes_on h max_cycles t.sim then rest else some t

  -- The exit code and the dumps.
  unfoldable pub traced_report : ℕ → Option Traced → Option (ℕ × List (ℕ × State))
  traced_report max_cycles none = none
  traced_report max_cycles (some s) = some (exit_status (verdict h max_cycles s.sim), s.dumped)

  unfoldable pub traced_run : ℕ → ℕ → ℕ → State → Option (ℕ × List (ℕ × State))
  traced_run start fuel max_cycles made =
      traced_report max_cycles (traced_simulate start fuel max_cycles (traced_bring_up start made))

  abbrev pub exit_code : Option (ℕ × List (ℕ × State)) → Option ℕ
  exit_code none = none
  exit_code (some (code, dumped)) = some code
