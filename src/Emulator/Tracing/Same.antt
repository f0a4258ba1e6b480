-- ===== src/Emulator/Tracing/Same.antt =====
-- The build that traces simulates what the other build simulates, for any number of cycles.
use chipyard_fault_injection.Common.{
  ℕ, zero, suc, ◌≡◌, refl, ap, ◌∙◌, Bool, true, false, some, [], Bool-cases, inl, inr,
}
use chipyard_fault_injection.Emulator.Simulation.{
  Harness, Sim, cycle, reset_loop, bring_up, goes_on, simulate, exit_status, verdict, report, run,
}
use chipyard_fault_injection.Emulator.Tracing.{
  Traced, traced_cycle, traced_reset_loop, traced_bring_up, traced_simulate, traced_report,
  exit_code, traced_run,
}

module _ (h : Harness) (start : ℕ) where
  open h use {State}

  pub sim-cycle :
      (reset : Bool) (s : Traced h) → (traced_cycle h start reset s).sim ≡ cycle h reset s.sim
  unfolding traced_cycle cycle
  sim-cycle reset s = refl

  pub sim-reset_loop :
      (n : ℕ) (s : Traced h) → (traced_reset_loop h start n s).sim ≡ reset_loop h n s.sim
  unfolding traced_reset_loop reset_loop
  sim-reset_loop zero s = refl
  sim-reset_loop (suc n) s =
      sim-reset_loop n (traced_cycle h start true s) ∙ ap (reset_loop h n) (sim-cycle true s)

  pub sim-bring_up : (made : State) → (traced_bring_up h start made).sim ≡ bring_up h made
  unfolding traced_bring_up bring_up
  sim-bring_up made =
      ap (λ (m : Sim h). record m { done_reset = true })
        (sim-reset_loop 100 (record {
          sim = record { tile = h.eval false false made; trace_count = 0; done_reset = false };
          dumped = [];
        }))

  report-simulate :
      (fuel max_cycles : ℕ) (s : Traced h) (m : Sim h)
      → s.sim ≡ m
      → exit_code h (traced_report h max_cycles (traced_simulate h start fuel max_cycles s))
        ≡ report h max_cycles (simulate h fuel max_cycles m)
  unfolding traced_simulate simulate traced_report report
  report-simulate zero max_cycles s m same = refl
  report-simulate (suc fuel) max_cycles s m same =
      let t = traced_cycle h start false s in
      let same' : t.sim ≡ cycle h false m = sim-cycle false s ∙ ap (cycle h false) same in
      let test : goes_on h max_cycles t.sim ≡ goes_on h max_cycles (cycle h false m) =
        ap (goes_on h max_cycles) same' in
      elim (Bool-cases (goes_on h max_cycles (cycle h false m))) [
        | inl on ↦ rw (on, test ∙ on) (report-simulate fuel max_cycles t (cycle h false m) same')
        | inr off ↦
            rw (off, test ∙ off)
              (ap (λ (e : Sim h). some (exit_status (verdict h max_cycles e))) same')
      ]

  -- The dumps change no exit code.
  pub traced_run-run :
      (fuel max_cycles : ℕ) (made : State)
      → exit_code h (traced_run h start fuel max_cycles made) ≡ run h fuel max_cycles made
  unfolding traced_run run
  traced_run-run fuel max_cycles made =
      report-simulate fuel max_cycles (traced_bring_up h start made) (bring_up h made)
        (sim-bring_up made)
