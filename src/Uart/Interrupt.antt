-- ===== src/Uart/Interrupt.antt =====
-- Ctrl-C while a UART runs.
use chipyard_fault_injection.Common.{
  ℕ, ◌≡◌, refl, sym, ap, ◌∙◌, true, false, some, List, [], ◌∷◌, ◌++◌, if◌then◌else◌, Result, ok,
  ◌>>=◌, arith, append-nil, append_assoc,
}
use chipyard_fault_injection.Uart.{Uart, Console, sighand, tick, next_input, offer, uart_tick}
use chipyard_fault_injection.Uart.Stream.{Cycle}

-- What happens to the simulator: a cycle, or the signal of Ctrl-C.
pub data Event : Type 0 where
  cycle : Cycle → Event
  interrupt : Event

-- Events whose writes succeed: the console at the end, and the bytes handed to the target.
unfoldable pub play : Uart → Console → ℕ → List Event → Result (Console × List ℕ)
play u c in_bits [] = ok (c, [])
play u c in_bits (interrupt ∷ xs) = play u (sighand 2 c) in_bits xs
play u c in_bits (cycle x ∷ xs) = do
  (c, ports) ← uart_tick (some u) c x.out_valid x.out_bits x.in_ready in_bits true
  (c, rest) ← play u c ports.in_bits xs
  ok (c, (if ports.in_valid then ports.in_bits ∷ rest else rest))

-- No cycle is ready.
abbrev pub NoneReady : List Event → Type 0
NoneReady [] = Unit {0}
NoneReady (cycle x ∷ xs) = (x.in_ready ≡ false) × NoneReady xs
NoneReady (interrupt ∷ xs) = NoneReady xs

-- What the target sends in a cycle, and in many.
abbrev pub sent_in : Uart → Cycle → List (ℕ × ℕ)
sent_in u x = if x.out_valid then (u.outputfd, x.out_bits) ∷ [] else []

abbrev pub sent_over : Uart → List Event → List (ℕ × ℕ)
sent_over u [] = []
sent_over u (cycle x ∷ xs) = sent_in u x ++ sent_over u xs
sent_over u (interrupt ∷ xs) = sent_over u xs

-- The console with a special character pending, and more written.
abbrev pub later : Console → ℕ → List (ℕ × ℕ) → Console
later c special bytes = record c { specialchar = special; written = c.written ++ bytes }

-- The bytes of a run with one in front.
abbrev pub handed : ℕ → Result (Console × List ℕ) → Result (Console × List ℕ)
handed key r = do (c, rest) ← r; ok (c, key ∷ rest)

idle_cycle :
    (u : Uart) (c : Console) (x : Cycle) (in_bits : ℕ) (xs : List Event)
    → x.in_ready ≡ false
    → play u c in_bits (cycle x ∷ xs) ≡ play u (later c c.specialchar (sent_in u x)) in_bits xs
unfolding play uart_tick tick offer
idle_cycle u c x in_bits xs idle = ground (arith, idle, append-nil c.written)

ready_cycle :
    (u : Uart) (c : Console) (x : Cycle) (in_bits : ℕ) (xs : List Event)
    → c.specialchar ≡ 3
    → x.in_ready ≡ true
    → play u c in_bits (cycle x ∷ xs) ≡ handed 3 (play u (later c 0 (sent_in u x)) 3 xs)
unfolding play uart_tick tick next_input offer
ready_cycle u c x in_bits xs special ready = ground (arith, special, ready, append-nil c.written)

later-later :
    (c : Console) (special : ℕ) (bytes bytes' : List (ℕ × ℕ))
    → later (later c special bytes) 0 bytes' ≡ later c 0 (bytes ++ bytes')
later-later c special bytes bytes' =
    ap (λ (w : List (ℕ × ℕ)). record c { specialchar = 0; written = w })
      (append_assoc c.written bytes bytes')

waiting_interrupt :
    (u : Uart) (c : Console) (in_bits : ℕ) (before : List Event) (x : Cycle) (after : List Event)
    → c.specialchar ≡ 3
    → NoneReady before
    → x.in_ready ≡ true
    → play u c in_bits (before ++ cycle x ∷ after)
      ≡ handed 3 (play u (later c 0 (sent_over u before ++ sent_in u x)) 3 after)
unfolding sighand play
waiting_interrupt u c in_bits [] x after special idle ready =
    ready_cycle u c x in_bits after special ready
waiting_interrupt u c in_bits (interrupt ∷ before) x after special idle ready =
    waiting_interrupt u (sighand 2 c) in_bits before x after refl idle ready
waiting_interrupt u c in_bits (cycle y ∷ before) x after special idle ready =
    let sent : List (ℕ × ℕ) = sent_over u before ++ sent_in u x in
    idle_cycle u c y in_bits (before ++ cycle x ∷ after) idle.0
    ∙ waiting_interrupt u (later c c.specialchar (sent_in u y)) in_bits before x after special
        idle.1 ready
    ∙ ap (λ (d : Console). handed 3 (play u d 3 after))
        (later-later c c.specialchar (sent_in u y) sent
          ∙ ap (later c 0) (sym (append_assoc (sent_in u y) (sent_over u before) (sent_in u x))))

-- Ctrl-C in a run of any UART whose writes succeed, with any cycles that are not ready and any further
-- signals behind it, and then a cycle that is ready: the first byte that the target gets is the 3 in that
-- cycle, once; no typed byte is used up, no special character is left, and the bytes that the target
-- sends on the way are written in order; the rest of the run goes on from there.
pub interrupt_lem :
    (u : Uart) (c : Console) (in_bits : ℕ) (before : List Event) (x : Cycle) (after : List Event)
    → NoneReady before
    → x.in_ready ≡ true
    → play u c in_bits (interrupt ∷ before ++ cycle x ∷ after)
      ≡ handed 3 (
          play u
            (record c {
              specialchar = 0;
              written = c.written ++ (sent_over u before ++ sent_in u x);
            })
            3
            after)
unfolding sighand play
interrupt_lem u c in_bits before x after idle ready =
    waiting_interrupt u (sighand 2 c) in_bits before x after refl idle ready
