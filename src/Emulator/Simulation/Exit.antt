-- ===== src/Emulator/Simulation/Exit.antt =====
-- What the exit code says.
use chipyard_fault_injection.Common.{
  ℕ, zero, suc, ◌≤◌, ◌<◌, ◌^◌, ◌≡◌, refl, ap, ◌∙◌, Bool, true, false, not, some, ◌==◌,
  if◌then◌else◌, arith,
}
use chipyard_fault_injection.Emulator.Simulation.{
  Harness, Sim, bring_up, simulate, run, report, verdict, exit_status, code_of, via_dtm, via_tsi,
  via_jtag, timeout, passed,
}
use chipyard_fault_injection.Emulator.Simulation.Loop.{
  cycles, EndsAfter, simulate_lem, trace_count-bring_up,
}

-- The code from the states of the front ends, the first that is not 0, and the count.
abbrev pub first_code : ℕ → ℕ → ℕ → Bool → ℕ
first_code (suc dtm) tsi jtag late = suc dtm
first_code zero (suc tsi) jtag late = suc tsi
first_code zero zero (suc jtag) late = suc jtag
first_code zero zero zero true = 2
first_code zero zero zero false = 0

exit_status-branches :
    (d t j : ℕ) (late : Bool)
    → exit_status (
        if not (d == 0)
        then via_dtm d
        else if not (t == 0)
        then via_tsi t
        else if not (j == 0)
        then via_jtag j
        else if late
        then timeout
        else passed)
      ≡ first_code d t j late
unfolding exit_status
exit_status-branches (suc d) t j late = ground arith
exit_status-branches zero (suc t) j late = ground arith
exit_status-branches zero zero (suc j) late = ground arith
exit_status-branches zero zero zero true = refl
exit_status-branches zero zero zero false = refl

module _ (h : Harness) where
  open h use {State, dtm, tsi, jtag}

  abbrev pub code_at : ℕ → Sim h → ℕ
  code_at max_cycles s =
      first_code (code_of (dtm s.tile)) (code_of (tsi s.tile)) (code_of (jtag s.tile))
        (s.trace_count == max_cycles)

  pub verdict_lem :
      (max_cycles : ℕ) (s : Sim h) → exit_status (verdict h max_cycles s) ≡ code_at max_cycles s
  unfolding verdict
  verdict_lem max_cycles s =
      exit_status-branches (code_of (dtm s.tile)) (code_of (tsi s.tile)) (code_of (jtag s.tile))
        (s.trace_count == max_cycles)

  pub run-simulate :
      (fuel max_cycles : ℕ) (made : State) (s : Sim h)
      → simulate h fuel max_cycles (bring_up h made) ≡ some s
      → run h fuel max_cycles made ≡ some (code_at max_cycles s)
  unfolding run report
  run-simulate fuel max_cycles made s e =
      ap (report h max_cycles) e ∙ ap (λ (c : ℕ). some c) (verdict_lem max_cycles s)

  -- For a `max_cycles` below 2 ^ 64, and with as much fuel and at least 1, the simulation ends. Its
  -- exit code is the first code other than 0 of DTM, TSI and JTAG, in this order, at the first cycle
  -- after the reset with a reason to end; where there is none it is 2 if the count then is
  -- `max_cycles`, else 0.
  pub run_lem :
      (fuel max_cycles : ℕ) (made : State)
      → max_cycles < 2 ^ 64
      → 1 ≤ fuel
      → max_cycles ≤ fuel
      → (n : ℕ) × EndsAfter h fuel max_cycles n (bring_up h made)
        × (run h fuel max_cycles made ≡ some (code_at max_cycles (cycles h n (bring_up h made))))
  run_lem fuel max_cycles made small some_fuel enough =
      let start = trace_count-bring_up h made in
      let (n, ends) =
        simulate_lem h fuel max_cycles (bring_up h made) small (omega (arith, start)) some_fuel
          (omega (arith, start)) in
      (n, ends, run-simulate fuel max_cycles made (cycles h n (bring_up h made)) ends.0)
