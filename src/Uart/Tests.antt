-- ===== src/Uart/Tests.antt =====
-- A typed line with an interrupt: the theorems at inputs that meet their hypotheses.
use chipyard_fault_injection.Common.{ℕ, ◌≡◌, refl, List, [], ◌∷◌, ◌++◌, none, some, true, false, ok}
use chipyard_fault_injection.Uart.{Uart, Console, tick, read_key, next_input, offer, uart_tick}
use chipyard_fault_injection.Uart.Stream.{Cycle, run, pending, run-pending}
use chipyard_fault_injection.Uart.Interrupt.{Event, interrupt, play, interrupt_lem}

abbrev uart0 : Uart
uart0 = record { print_file = false; inputfd = 0; outputfd = 1 }

abbrev typing : Console
typing = record { specialchar = 3; typed = none ∷ some b'l' ∷ some b's' ∷ []; written = [] }

abbrev cycle : Cycle
cycle = record { out_valid = true; out_bits = b'$'; in_ready = true }

run-pending_example :
    (d : Console) × (got : List ℕ) × (run uart0 typing 0 (cycle ∷ cycle ∷ []) ≡ ok (d, got))
    × (got ++ pending d ≡ 3 ∷ b'l' ∷ b's' ∷ [])
    × (d.written ≡ (1, b'$') ∷ (1, b'$') ∷ [])
run-pending_example = run-pending uart0 typing 0 (cycle ∷ cycle ∷ [])

-- Two signals and a cycle that is not ready, then two that are.
abbrev idle_cycle : Cycle
idle_cycle = record { out_valid = true; out_bits = b'^'; in_ready = false }

interrupt_lem_example :
    play uart0 typing 0 (
      interrupt ∷ (Event.cycle idle_cycle ∷ interrupt ∷ [])
      ++ Event.cycle cycle ∷ Event.cycle cycle ∷ [])
    ≡ ok (
      record typing {
        specialchar = 0;
        typed = some b'l' ∷ some b's' ∷ [];
        written = (1, b'^') ∷ (1, b'$') ∷ (1, b'$') ∷ [];
      },
      3 ∷ [],
    )
unfolding play tick read_key next_input offer uart_tick
interrupt_lem_example =
    interrupt_lem uart0 typing 0 (Event.cycle idle_cycle ∷ interrupt ∷ []) cycle
      (Event.cycle cycle ∷ []) (refl, tt) refl
