-- ===== src/Emulator/Simulation.antt =====
-- emulator.cc from line 305 on: the reset, the main loop and the exit code.
pub mod Loop
pub mod Exit
pub mod Timeout
use chipyard_fault_injection.Common.{
  ℕ, zero, suc, ◌+◌, Bool, true, false, ◌&&◌, not, Option, none, some, ltb, ◌==◌, if◌then◌else◌,
  u64,
}
use chipyard_fault_injection.Bitbang.{Bitbang}

-- A front end as `main` sees it: `done()` and `exit_code()`.
pub record Peer : Type 0 where
  pub done : Bool
  pub exit_code : ℕ

-- The Verilated `TEST_HARNESS`: `eval` takes the reset and the clock, and drives the front ends
-- through their tick functions. A global that is still null is `none`; `set_jtag` sets the global
-- `jtag`.
pub record Harness : Type 1 where
  pub State : Type 0
  pub eval : Bool → Bool → State → State
  pub dtm : State → Option Peer
  pub jtag : State → Option Peer
  pub set_jtag : Bitbang → State → State
  pub tsi : State → Option Peer
  pub io_success : State → Bool

-- `!peer || !peer->done()`, and `peer && peer->exit_code()` for a code other than 0.
abbrev pub is_running : Option Peer → Bool
is_running none = true
is_running (some p) = not p.done

abbrev pub code_of : Option Peer → ℕ
code_of none = 0
code_of (some p) = p.exit_code

-- The branches from line 363 on.
pub data Verdict : Type 0 where
  via_dtm via_tsi via_jtag : ℕ → Verdict
  timeout passed : Verdict

unfoldable pub exit_status : Verdict → ℕ
exit_status (via_dtm code) = code
exit_status (via_tsi code) = code
exit_status (via_jtag code) = code
exit_status timeout = 2
exit_status passed = 0

module _ (h : Harness) where
  open h use {State, eval, dtm, jtag, tsi, io_success}

  pub record Sim : Type 0 where
    pub tile : State
    pub trace_count : ℕ
    pub done_reset : Bool

  -- One cycle with the reset at `reset`: clock low, clock high.
  unfoldable pub cycle : Bool → Sim → Sim
  cycle reset s = record s {
    tile = eval reset true (eval reset false s.tile);
    trace_count = u64 (s.trace_count + 1);
  }

  unfoldable pub reset_loop : ℕ → Sim → Sim
  reset_loop zero s = s
  reset_loop (suc n) s = reset_loop n (cycle true s)

  -- Lines 307 to 329, from the harness as it was made.
  unfoldable pub bring_up : State → Sim
  bring_up made =
      let s : Sim =
        reset_loop 100
          (record { tile = eval false false made; trace_count = 0; done_reset = false }) in
      record s { done_reset = true }

  unfoldable pub goes_on : ℕ → Sim → Bool
  goes_on max_cycles s =
      is_running (dtm s.tile)
      && (is_running (jtag s.tile)
          && (is_running (tsi s.tile) && (not (io_success s.tile) && ltb s.trace_count max_cycles)))

  -- The do-while loop, on fuel: `none` if the fuel runs out.
  unfoldable pub simulate : ℕ → ℕ → Sim → Option Sim
  simulate zero max_cycles s = none
  simulate (suc fuel) max_cycles s =
      let t = cycle false s in
      let rest = simulate fuel max_cycles t in if goes_on max_cycles t then rest else some t

  unfoldable pub verdict : ℕ → Sim → Verdict
  verdict max_cycles s =
      if not (code_of (dtm s.tile) == 0)
      then via_dtm (code_of (dtm s.tile))
      else if not (code_of (tsi s.tile) == 0)
      then via_tsi (code_of (tsi s.tile))
      else if not (code_of (jtag s.tile) == 0)
      then via_jtag (code_of (jtag s.tile))
      else if s.trace_count == max_cycles
      then timeout
      else passed

  unfoldable pub report : ℕ → Option Sim → Option ℕ
  report max_cycles none = none
  report max_cycles (some s) = some (exit_status (verdict max_cycles s))

  unfoldable pub run : ℕ → ℕ → State → Option ℕ
  run fuel max_cycles made = report max_cycles (simulate fuel max_cycles (bring_up made))
