-- ===== src/Emulator.antt =====
-- emulator.cc: the program that runs the test harness, in the build with VM_TRACE and the one
-- without. Simulation is the simulation of the latter, Tracing that of the former.
pub mod Options
pub mod Simulation
pub mod Tracing
pub mod Capped
pub mod Ending
mod Tests
use chipyard_fault_injection.Common.{
  ℕ, suc, if◌then◌else◌, Option, none, some, List, ◌∷◌, Result, ok, err, null_pointer, ◌>>=◌,
}
use chipyard_fault_injection.Bitbang.{Sockets, init}
use chipyard_fault_injection.Emulator.Options.{
  Names, Script, Launch, launches, returns_early, unsettled, defaults, read_arguments,
}
use chipyard_fault_injection.Emulator.Simulation.{Harness, run}
use chipyard_fault_injection.Emulator.Tracing.{exit_code, traced_run}
use chipyard_fault_injection.Common.{length}

-- The handler of SIGTERM, on the global `dtm`; `stop` is the method of fesvr's `dtm_t`.
unfoldable pub handle_sigterm : {S : Type 0} → (S → S) → Option S → Result S
handle_sigterm stop none = err null_pointer
handle_sigterm stop (some dtm) = ok (stop dtm)

-- `raw` is what the constructor of the JTAG server leaves unset, and `sockets` what its calls give for
-- a port.
module _ (h : Harness) (names : Names) (raw : ℕ) (sockets : ℕ → Sockets) where
  -- The exit code of the simulation, which has fuel for every cycle that is allowed.
  unfoldable pub simulated : ℕ → ℕ → h.State → Option ℕ
  simulated start max_cycles made =
      if names.vm_trace
      then exit_code h (traced_run h start (suc max_cycles) max_cycles made)
      else run h (suc max_cycles) max_cycles made

  -- From line 285 on: the JTAG server is made, and the simulation runs; or an early `return`.
  unfoldable pub conclude : h.State → Launch → Result (Option ℕ)
  unfolding simulated init
  conclude made (launches o) = do
    jtag ← init raw (sockets o.rbb_port)
    ok (simulated o.start o.max_cycles (h.set_jtag jtag made))
  conclude made (returns_early code) = ok (some code)
  conclude made unsettled = ok none

  -- `main`: `made` is the harness after its construction, `seed` the default of `random_seed`.
  unfoldable pub main : ℕ → List ℕ → List (List ℕ) → Script → h.State → Result (Option ℕ)
  unfolding conclude
  main seed program args script made = do
    launch ←
        read_arguments names (suc (length args)) (program ∷ args) script (defaults seed program)
    conclude made launch
