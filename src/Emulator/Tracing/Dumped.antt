-- ===== src/Emulator/Tracing/Dumped.antt =====
-- What a cycle and the reset dump, and what the dumps of a run are to be.
use chipyard_fault_injection.Common.{
  ℕ, zero, suc, ◌+◌, ◌*◌, ◌^◌, ◌<◌, ◌≡◌, refl, ap, ap₂, sym, ◌∙◌, Bool, true, false, List, [], ◌∷◌,
  ◌++◌, leb, u64, if◌then◌else◌, arith, Bool-cases, inl, inr, append_assoc, append-nil,
}
use chipyard_fault_injection.Emulator.Simulation.{Harness, Sim, cycle, bring_up}
use chipyard_fault_injection.Emulator.Simulation.Loop.{trace_count-cycle}
use chipyard_fault_injection.Emulator.Tracing.{
  Traced, dump_if, traced_cycle, traced_reset_loop, traced_bring_up,
}
use chipyard_fault_injection.Emulator.Tracing.Same.{sim-cycle}

module _ (h : Harness) where
  open h use {State, eval}

  -- The half cycles of `n` cycles from cycle `k` on: the time and the harness, twice in a cycle.
  unfoldable pub half_cycles : Bool → ℕ → ℕ → State → List (ℕ × State)
  half_cycles reset k zero tile = []
  half_cycles reset k (suc n) tile =
      let low : State = eval reset false tile in
      let high : State = eval reset true low in
      (k * 2, low) ∷ (k * 2 + 1, high) ∷ half_cycles reset (k + 1) n high

  -- Those of the cycles from `start` on.
  unfoldable pub since : ℕ → List (ℕ × State) → List (ℕ × State)
  since start [] = []
  since start ((time, tile) ∷ rest) =
      if leb (start * 2) time then (time, tile) ∷ since start rest else since start rest

  -- All half cycles of a run: 100 cycles of reset, then `n` of the main loop.
  unfoldable pub all_half_cycles : ℕ → State → List (ℕ × State)
  all_half_cycles n made =
      half_cycles true 0 100 (eval false false made)
      ++ half_cycles false 100 n (bring_up h made).tile

module _ (h : Harness) (start : ℕ) where
  open h use {State, eval}

  pub since-append :
      (xs ys : List (ℕ × State)) → since h start (xs ++ ys) ≡ since h start xs ++ since h start ys
  unfolding since
  since-append [] ys = refl
  since-append ((time, tile) ∷ xs) ys = elim (Bool-cases (leb (start * 2) time)) [
    | inl on ↦ rw on (ap (λ (l : List (ℕ × State)). (time, tile) ∷ l) (since-append xs ys))
    | inr off ↦ rw off (since-append xs ys)
  ]

  -- One cycle adds its two half cycles, if they are wanted.
  pub dumped-cycle :
      (reset : Bool) (s : Traced h)
      → s.sim.trace_count < 2 ^ 63
      → (traced_cycle h start reset s).dumped
        ≡ s.dumped ++ since h start (half_cycles h reset s.sim.trace_count 1 s.sim.tile)
  unfolding traced_cycle dump_if since half_cycles
  dumped-cycle reset s small =
      let a : u64 (s.sim.trace_count * 2) ≡ s.sim.trace_count * 2 = omega arith in
      let b : u64 (s.sim.trace_count * 2 + 1) ≡ s.sim.trace_count * 2 + 1 = omega arith in
      elim (Bool-cases (leb start s.sim.trace_count)) [
        | inl on ↦
            let low : leb (start * 2) (s.sim.trace_count * 2) ≡ true = ground (arith, on) in
            let high : leb (start * 2) (s.sim.trace_count * 2 + 1) ≡ true = ground (arith, on) in
            rw (on, a, b, low, high, append_assoc) refl
        | inr off ↦
            let low : leb (start * 2) (s.sim.trace_count * 2) ≡ false = ground (arith, off) in
            let high : leb (start * 2) (s.sim.trace_count * 2 + 1) ≡ false = ground (arith, off) in
            rw (off, low, high) (sym (append-nil s.dumped))
      ]

  half_cycles-suc :
      (reset : Bool) (k n : ℕ) (tile : State)
      → since h start (half_cycles h reset k (suc n) tile)
        ≡ since h start (half_cycles h reset k 1 tile)
          ++ since h start (half_cycles h reset (k + 1) n (eval reset true (eval reset false tile)))
  unfolding half_cycles
  half_cycles-suc reset k n tile =
      since-append (half_cycles h reset k 1 tile)
        (half_cycles h reset (k + 1) n (eval reset true (eval reset false tile)))

  -- What `n` cycles dump, from what one dumps and what the later ones do.
  pub dumped_later :
      (reset : Bool) (n : ℕ) (s : Traced h) (later : List (ℕ × State))
      → s.sim.trace_count < 2 ^ 63
      → (let t = traced_cycle h start reset s in
          later ≡ t.dumped ++ since h start (half_cycles h reset t.sim.trace_count n t.sim.tile))
      → later ≡ s.dumped ++ since h start (half_cycles h reset s.sim.trace_count (suc n) s.sim.tile)
  unfolding cycle
  dumped_later reset n s later small e =
      let t : Traced h = traced_cycle h start reset s in
      let same = sim-cycle h start reset s in
      let count : t.sim.trace_count ≡ s.sim.trace_count + 1 =
        omega (arith, ap (λ (m : Sim h). m.trace_count) same) in
      let tile : t.sim.tile ≡ eval reset true (eval reset false s.sim.tile) =
        ap (λ (m : Sim h). m.tile) same in
      let rest = since h start (
        half_cycles h reset (s.sim.trace_count + 1) n
          (eval reset true (eval reset false s.sim.tile))) in
      let first = since h start (half_cycles h reset s.sim.trace_count 1 s.sim.tile) in
      e
      ∙ ap₂ (λ (c : ℕ) (x : State). t.dumped ++ since h start (half_cycles h reset c n x)) count
          tile
      ∙ ap (λ (d : List (ℕ × State)). d ++ rest) (dumped-cycle reset s small)
      ∙ append_assoc s.dumped first rest
      ∙ ap (λ (d : List (ℕ × State)). s.dumped ++ d)
          (sym (half_cycles-suc reset s.sim.trace_count n s.sim.tile))

  pub since-none :
      (reset : Bool) (k : ℕ) (tile : State) (dumped : List (ℕ × State))
      → dumped ++ since h start (half_cycles h reset k 0 tile) ≡ dumped
  unfolding since half_cycles
  since-none reset k tile dumped = append-nil dumped

  dumped-reset_loop :
      (n : ℕ) (s : Traced h)
      → s.sim.trace_count + n < 2 ^ 63
      → (traced_reset_loop h start n s).dumped
        ≡ s.dumped ++ since h start (half_cycles h true s.sim.trace_count n s.sim.tile)
  unfolding traced_reset_loop
  dumped-reset_loop zero s small = sym (since-none true s.sim.trace_count s.sim.tile s.dumped)
  dumped-reset_loop (suc n) s small =
      let t : Traced h = traced_cycle h start true s in
      let count = trace_count-cycle h true s.sim (omega arith) in
      let same = ap (λ (m : Sim h). m.trace_count) (sim-cycle h start true s) in
      dumped_later true n s (traced_reset_loop h start n t).dumped (omega arith)
        (dumped-reset_loop n t (omega (arith, count, same)))

  pub dumped-bring_up :
      (made : State)
      → (traced_bring_up h start made).dumped
        ≡ since h start (half_cycles h true 0 100 (eval false false made))
  unfolding traced_bring_up
  dumped-bring_up made =
      dumped-reset_loop 100
        (record {
          sim = record { tile = eval false false made; trace_count = 0; done_reset = false };
          dumped = [];
        })
        (omega arith)
