-- ===== src/Emulator/Tracing/Recording.antt =====
-- What a traced run dumps: the harness in every half cycle from the first one wanted on.
use chipyard_fault_injection.Common.{
  ℕ, zero, suc, ◌+◌, ◌^◌, ◌≤◌, ◌<◌, ◌≡◌, ◌⊎◌, ap, ap₂, sym, ◌∙◌, true, false, some, List, ◌++◌,
  arith, inl, inr,
}
use chipyard_fault_injection.Emulator.Simulation.{
  Harness, Sim, cycle, bring_up, goes_on, simulate, run,
}
use chipyard_fault_injection.Emulator.Simulation.Loop.{
  cycles, EndsAfter, trace_count-bring_up, trace_count-cycle, trace_count-cycles, stops_late,
}
use chipyard_fault_injection.Emulator.Simulation.Exit.{run_lem, verdict_lem}
use chipyard_fault_injection.Emulator.Tracing.{
  Traced, traced_cycle, traced_bring_up, traced_simulate, traced_report, traced_run,
}
use chipyard_fault_injection.Emulator.Tracing.Same.{sim-cycle, sim-bring_up}
use chipyard_fault_injection.Emulator.Tracing.Dumped.{
  half_cycles, since, all_half_cycles, since-append, dumped-cycle, dumped_later, dumped-bring_up,
}

module _ (h : Harness) (start : ℕ) where
  open h use {State, eval}

  -- The main loop takes one cycle, or ends by the count `max_cycles`.
  few_cycles :
      (fuel max_cycles n : ℕ) (m : Sim h)
      → m.trace_count ≡ 100
      → EndsAfter h fuel max_cycles n m
      → (n ≤ 1) ⊎ (100 + n ≤ max_cycles)
  few_cycles fuel max_cycles zero m count ends = inl (omega arith)
  few_cycles fuel max_cycles (suc zero) m count ends = inl (omega arith)
  few_cycles fuel max_cycles (suc (suc n)) m count ends =
      let before = ends.4 (suc n) (omega arith) (omega arith) in
      inr (
        omega (
          arith,
          stops_late h max_cycles (cycles h (suc n) m) before,
          trace_count-cycles h (suc n) m (omega (arith, ends.2)),
        ))

  -- The main loop of the build that traces, where the other one ends after `n` cycles.
  simulate-dumped :
      (fuel max_cycles n : ℕ) (s : Traced h) (m : Sim h)
      → s.sim ≡ m
      → m.trace_count + n < 2 ^ 63
      → EndsAfter h fuel max_cycles n m
      → (t : Traced h) × (traced_simulate h start fuel max_cycles s ≡ some t)
        × (t.sim ≡ cycles h n m)
        × (t.dumped
            ≡ s.dumped ++ since h start (half_cycles h false s.sim.trace_count n s.sim.tile))
  unfolding simulate traced_simulate
  simulate-dumped zero max_cycles n s m same small ends = absurd (cc (ends.0))
  simulate-dumped (suc fuel) max_cycles zero s m same small ends = absurd (omega (arith, ends.1))
  simulate-dumped (suc fuel) max_cycles (suc zero) s m same small ends =
      let t : Traced h = traced_cycle h start false s in
      let same' : t.sim ≡ cycle h false m = sim-cycle h start false s ∙ ap (cycle h false) same in
      let off : goes_on h max_cycles t.sim ≡ false = ap (goes_on h max_cycles) same' ∙ ends.3 in
      (
        t,
        rw off,
        same',
        dumped-cycle h start false s (omega (arith, ap (λ (m : Sim h). m.trace_count) same)),
      )
  simulate-dumped (suc fuel) max_cycles (suc (suc n)) s m same small ends =
      let t : Traced h = traced_cycle h start false s in
      let same' : t.sim ≡ cycle h false m = sim-cycle h start false s ∙ ap (cycle h false) same in
      let on : goes_on h max_cycles (cycle h false m) ≡ true =
        ends.4 1 (omega arith) (omega arith) in
      let on' : goes_on h max_cycles t.sim ≡ true = ap (goes_on h max_cycles) same' ∙ on in
      let count = trace_count-cycle h false m (omega arith) in
      let start_count = ap (λ (m : Sim h). m.trace_count) same in
      let later : EndsAfter h fuel max_cycles (suc n) (cycle h false m) = (
        rw on at (ends.0),
        omega arith,
        omega (arith, ends.2, count),
        ends.3,
        λ k ge lt. ends.4 (suc k) (omega arith) (omega arith),
      ) in
      let (end, e, sim, dumped) =
        simulate-dumped fuel max_cycles (suc n) t (cycle h false m) same' (omega (arith, count))
          later in
      (
        end,
        rw on' e,
        sim,
        dumped_later h start false (suc n) s end.dumped (omega (arith, start_count)) dumped,
      )

  dumped_in_all :
      (n : ℕ) (made : State) (dumped : List (ℕ × State))
      → (let s = traced_bring_up h start made in
          dumped ≡ s.dumped ++ since h start (half_cycles h false s.sim.trace_count n s.sim.tile))
      → dumped ≡ since h start (all_half_cycles h n made)
  unfolding all_half_cycles
  dumped_in_all n made dumped e =
      let s : Traced h = traced_bring_up h start made in
      let same = sim-bring_up h start made in
      let count = ap (λ (m : Sim h). m.trace_count) same ∙ trace_count-bring_up h made in
      let loop = since h start (half_cycles h false 100 n (bring_up h made).tile) in
      e
      ∙ ap₂ (λ (c : ℕ) (x : State). s.dumped ++ since h start (half_cycles h false c n x)) count
          (ap (λ (m : Sim h). m.tile) same)
      ∙ ap (λ (d : List (ℕ × State)). d ++ loop) (dumped-bring_up h start made)
      ∙ sym (
          since-append h start (half_cycles h true 0 100 (eval false false made))
            (half_cycles h false 100 n (bring_up h made).tile))

  -- The build that traces, for a `max_cycles` below 2 ^ 63, and with as much fuel and at least 1: it ends,
  -- after as many cycles and with the same exit code as the other build; its calls of `dump` are, in
  -- order, for the half cycles of the cycles from `start` on, in reset and after it, each with its time
  -- and with the harness as it is then, and there are no others.
  pub traced_run_lem :
      (fuel max_cycles : ℕ) (made : State)
      → max_cycles < 2 ^ 63
      → 1 ≤ fuel
      → max_cycles ≤ fuel
      → (n : ℕ) × (code : ℕ) × EndsAfter h fuel max_cycles n (bring_up h made)
        × (run h fuel max_cycles made ≡ some code)
        × (traced_run h start fuel max_cycles made
            ≡ some (code, since h start (all_half_cycles h n made)))
  unfolding traced_run traced_report
  traced_run_lem fuel max_cycles made small some_fuel enough =
      let count = trace_count-bring_up h made in
      let (n, ends, e) = run_lem h fuel max_cycles made (omega arith) some_fuel enough in
      let same = sim-bring_up h start made in
      let (t, te, sim, dumped) =
        simulate-dumped fuel max_cycles n (traced_bring_up h start made) (bring_up h made) same
          (omega (arith, count, few_cycles fuel max_cycles n (bring_up h made) count ends)) ends in
      let booted : t.dumped ≡ since h start (all_half_cycles h n made) =
        dumped_in_all n made t.dumped dumped in
      (n, _, ends, e, rw (te, sim, booted, verdict_lem h max_cycles (cycles h n (bring_up h made))))
