-- ===== src/Emulator/Simulation/Loop.antt =====
-- The main loop ends, at the first cycle that has a reason to end.
use chipyard_fault_injection.Common.{
  ℕ, zero, suc, ◌+◌, ◌-◌, ◌^◌, ◌≤◌, ◌<◌, ◌≡◌, Bool, true, false, some, arith, Bool-cases, inl, inr,
}
use chipyard_fault_injection.Emulator.Simulation.{
  Harness, Sim, cycle, reset_loop, bring_up, goes_on, simulate,
}

module _ (h : Harness) where
  -- The state `n` cycles later.
  abbrev pub cycles : ℕ → Sim h → Sim h
  cycles zero s = s
  cycles (suc n) s = cycles n (cycle h false s)

  pub trace_count-cycle :
      (reset : Bool) (s : Sim h)
      → s.trace_count + 1 < 2 ^ 64
      → (cycle h reset s).trace_count ≡ s.trace_count + 1
  unfolding cycle
  trace_count-cycle reset s lt = omega arith

  pub trace_count-cycles :
      (n : ℕ) (s : Sim h)
      → s.trace_count + n < 2 ^ 64
      → (cycles n s).trace_count ≡ s.trace_count + n
  trace_count-cycles zero s lt = omega arith
  trace_count-cycles (suc n) s lt =
      let here = trace_count-cycle false s (omega arith) in
      omega (arith, here, trace_count-cycles n (cycle h false s) (omega (arith, here)))

  trace_count-reset_loop :
      (n : ℕ) (s : Sim h)
      → s.trace_count + n < 2 ^ 64
      → (reset_loop h n s).trace_count ≡ s.trace_count + n
  unfolding reset_loop
  trace_count-reset_loop zero s lt = omega arith
  trace_count-reset_loop (suc n) s lt =
      let here = trace_count-cycle true s (omega arith) in
      omega (arith, here, trace_count-reset_loop n (cycle h true s) (omega (arith, here)))

  -- The counter after the reset.
  pub trace_count-bring_up : (made : h.State) → (bring_up h made).trace_count ≡ 100
  unfolding bring_up
  trace_count-bring_up made =
      trace_count-reset_loop 100
        (record { tile = h.eval false false made; trace_count = 0; done_reset = false })
        (omega arith)

  -- No cycle goes on once the count is reached.
  pub stops_late :
      (max_cycles : ℕ) (s : Sim h) → goes_on h max_cycles s ≡ true → s.trace_count < max_cycles
  unfolding goes_on
  stops_late max_cycles s e = ground arith

  -- The loop ends after `n` cycles, the first number of cycles, but at least one, at which it does
  -- not go on.
  abbrev pub EndsAfter : ℕ → ℕ → ℕ → Sim h → Type 0
  EndsAfter fuel max_cycles n s =
      (simulate h fuel max_cycles s ≡ some (cycles n s))
      × (1 ≤ n)
      × (s.trace_count + n < 2 ^ 64)
      × (goes_on h max_cycles (cycles n s) ≡ false)
      × ((k : ℕ) → 1 ≤ k → k < n → goes_on h max_cycles (cycles k s) ≡ true)

  simulate_end :
      (fuel max_cycles : ℕ) (s : Sim h)
      → goes_on h max_cycles (cycle h false s) ≡ false
      → s.trace_count < 2 ^ 64 - 1
      → EndsAfter (suc fuel) max_cycles 1 s
  unfolding simulate
  simulate_end fuel max_cycles s e room =
      (rw e, omega arith, omega arith, e, λ k ge lt. absurd (omega arith))

  simulate_more :
      (fuel max_cycles n : ℕ) (s : Sim h)
      → goes_on h max_cycles (cycle h false s) ≡ true
      → s.trace_count < 2 ^ 64 - 1
      → EndsAfter fuel max_cycles n (cycle h false s)
      → EndsAfter (suc fuel) max_cycles (suc n) s
  unfolding simulate
  simulate_more fuel max_cycles n s e room r = (
    rw e r.0,
    omega arith,
    omega (arith, r.2, trace_count-cycle false s (omega arith)),
    r.3,
    before,
  )
    where
      before : (k : ℕ) → 1 ≤ k → k < suc n → goes_on h max_cycles (cycles k s) ≡ true
      before zero ge lt = absurd (omega arith)
      before (suc zero) ge lt = e
      before (suc (suc k)) ge lt = r.4 (suc k) (omega arith) (omega arith)

  -- For a `max_cycles` below 2 ^ 64 and a count that can be increased, and with fuel for the cycles
  -- that are left to `max_cycles`, but for at least one, the main loop ends:
  -- at the first cycle, but after at least one, in which a front end is done, the harness reports
  -- success or the count reaches `max_cycles`.
  pub simulate_lem :
      (fuel max_cycles : ℕ) (s : Sim h)
      → max_cycles < 2 ^ 64
      → s.trace_count < 2 ^ 64 - 1
      → 1 ≤ fuel
      → max_cycles ≤ s.trace_count + fuel
      → (n : ℕ) × EndsAfter fuel max_cycles n s
  simulate_lem zero max_cycles s small room some_fuel enough = absurd (omega arith)
  simulate_lem (suc fuel) max_cycles s small room some_fuel enough =
      elim (Bool-cases (goes_on h max_cycles (cycle h false s))) [
        | inl e ↦
            let count = trace_count-cycle false s (omega arith) in
            let below = stops_late max_cycles (cycle h false s) e in
            let (n, r) =
              simulate_lem fuel max_cycles (cycle h false s) small (omega (arith, count, below))
                (omega (arith, count, below)) (omega (arith, count)) in
            (suc n, simulate_more fuel max_cycles n s e room r)
        | inr e ↦ (1, simulate_end fuel max_cycles s e room)
      ]
