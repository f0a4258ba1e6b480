-- ===== src/Emulator/Simulation/Timeout.antt =====
-- A simulation in which nothing ends before the count.
use chipyard_fault_injection.Common.{
  ℕ, zero, suc, ◌+◌, ◌≤◌, ◌<◌, ◌^◌, ◌≡◌, refl, sym, ap, ◌∙◌, Bool, true, false, some, ◌==◌,
  if◌then◌else◌, arith, inl, inr, ◌⊎◌, ltb,
}
use chipyard_fault_injection.Emulator.Simulation.{
  Harness, Sim, bring_up, run, is_running, code_of, goes_on,
}
use chipyard_fault_injection.Emulator.Simulation.Loop.{
  cycles, EndsAfter, trace_count-bring_up, trace_count-cycles,
}
use chipyard_fault_injection.Emulator.Simulation.Exit.{first_code, code_at, run_lem}

first_code-zero : (late : Bool) → first_code 0 0 0 late ≡ (if late then 2 else 0)
first_code-zero true = refl
first_code-zero false = refl

code_by_count :
    (n max_cycles count : ℕ)
    → count ≡ 100 + n
    → 1 ≤ n
    → max_cycles ≤ 100 + n
    → (n ≡ 1) ⊎ (99 + n < max_cycles)
    → ◌≡◌ {A = ℕ} (if count == max_cycles then 2 else 0) (if ltb 100 max_cycles then 2 else 0)
code_by_count n max_cycles count e ge le (inl one) = ground arith
code_by_count n max_cycles count e ge le (inr below) = ground arith

module _ (h : Harness) where
  open h use {State, dtm, tsi, jtag, io_success}

  -- Nothing is done and no code is set.
  pub record Silent (s : Sim h) : Type 0 where
    pub dtm_running : is_running (dtm s.tile) ≡ true
    pub jtag_running : is_running (jtag s.tile) ≡ true
    pub tsi_running : is_running (tsi s.tile) ≡ true
    pub no_success : io_success s.tile ≡ false
    pub dtm_code : code_of (dtm s.tile) ≡ 0
    pub jtag_code : code_of (jtag s.tile) ≡ 0
    pub tsi_code : code_of (tsi s.tile) ≡ 0

  goes_on-Silent :
      (max_cycles : ℕ) (s : Sim h)
      → Silent s
      → goes_on h max_cycles s ≡ ltb s.trace_count max_cycles
  unfolding goes_on
  goes_on-Silent max_cycles s q = rw (q.dtm_running, q.jtag_running, q.tsi_running, q.no_success)

  code_at-Silent :
      (max_cycles : ℕ) (s : Sim h)
      → Silent s
      → code_at h max_cycles s ≡ (if s.trace_count == max_cycles then 2 else 0)
  code_at-Silent max_cycles s q =
      rw (q.dtm_code, q.jtag_code, q.tsi_code) (first_code-zero (s.trace_count == max_cycles))

  count_at :
      (n : ℕ) (made : State)
      → 100 + n < 2 ^ 64
      → (cycles h n (bring_up h made)).trace_count ≡ 100 + n
  count_at n made lt =
      let start = trace_count-bring_up h made in
      omega (arith, start, trace_count-cycles h n (bring_up h made) (omega (arith, start)))

  -- Among silent cycles the loop goes on exactly below the count.
  count-Silent :
      (fuel max_cycles n : ℕ) (made : State)
      → ((k : ℕ) → Silent (cycles h k (bring_up h made)))
      → EndsAfter h fuel max_cycles n (bring_up h made)
      → (max_cycles ≤ 100 + n) × ((n ≡ 1) ⊎ (99 + n < max_cycles)) × (100 + n < 2 ^ 64)
  count-Silent fuel max_cycles zero made quiet ends = absurd (omega (arith, ends.1))
  count-Silent fuel max_cycles (suc zero) made quiet ends =
      let stop =
        sym (goes_on-Silent max_cycles (cycles h 1 (bring_up h made)) (quiet 1)) ∙ ends.3 in
      (ground (arith, stop, count_at 1 made (omega arith)), inl refl, omega arith)
  count-Silent fuel max_cycles (suc (suc k)) made quiet ends =
      let room : 100 + suc (suc k) < 2 ^ 64 = omega (arith, ends.2, trace_count-bring_up h made) in
      let stop =
        sym (
          goes_on-Silent max_cycles (cycles h (suc (suc k)) (bring_up h made))
            (quiet (suc (suc k))))
        ∙ ends.3 in
      let go =
        sym (goes_on-Silent max_cycles (cycles h (suc k) (bring_up h made)) (quiet (suc k)))
        ∙ ends.4 (suc k) (omega arith) (omega arith) in
      (
        ground (arith, stop, count_at (suc (suc k)) made room),
        inr (ground (arith, go, count_at (suc k) made (omega (arith, room)))),
        room,
      )

  -- For a `max_cycles` below 2 ^ 64, and with as much fuel and at least 1: where in no cycle a front
  -- end is done or has a code, or the harness reports success, a `max_cycles` above 100 gives exit
  -- code 2, and one of at most 100, which the reset uses up, gives 0 as for a pass.
  pub timeout_lem :
      (fuel max_cycles : ℕ) (made : State)
      → max_cycles < 2 ^ 64
      → 1 ≤ fuel
      → max_cycles ≤ fuel
      → ((n : ℕ) → Silent (cycles h n (bring_up h made)))
      → run h fuel max_cycles made ≡ some (if ltb 100 max_cycles then 2 else 0)
  timeout_lem fuel max_cycles made small some_fuel enough quiet =
      let (n, ends, e) = run_lem h fuel max_cycles made small some_fuel enough in
      let counts = count-Silent fuel max_cycles n made quiet ends in
      e
      ∙ ap (λ (c : ℕ). some c)
          (code_at-Silent max_cycles (cycles h n (bring_up h made)) (quiet n)
            ∙ code_by_count n max_cycles (cycles h n (bring_up h made)).trace_count
                (count_at n made counts.2) ends.1 counts.0 counts.1)
