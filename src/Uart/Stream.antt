-- ===== src/Uart/Stream.antt =====
-- Many cycles of one UART: what reaches the target and what reaches the console.
use chipyard_fault_injection.Common.{
  ℕ, ◌≡◌, refl, sym, ap, ◌∙◌, Bool, true, false, Option, none, some, List, [], ◌∷◌, ◌++◌, ◌==◌,
  if◌then◌else◌, Result, ok, ◌>>=◌, arith, append-nil, append_assoc, Bool-cases, inl, inr,
}
use chipyard_fault_injection.Uart.{Uart, Console, tick, next_input, read_key, offer, uart_tick}

-- The inputs of one cycle.
pub record Cycle : Type 0 where
  pub out_valid : Bool
  pub out_bits : ℕ
  pub in_ready : Bool

-- Cycles in which every write succeeds: the console at the end, and the bytes handed to the target.
pub run : Uart → Console → ℕ → List Cycle → Result (Console × List ℕ)
run u c in_bits [] = ok (c, [])
run u c in_bits (x ∷ xs) = do
  (c, ports) ← uart_tick (some u) c x.out_valid x.out_bits x.in_ready in_bits true
  (c, rest) ← run u c ports.in_bits xs
  ok (c, (if ports.in_valid then ports.in_bits ∷ rest else rest))

abbrev pub sent : Uart → List Cycle → List (ℕ × ℕ)
sent u [] = []
sent u (x ∷ xs) = if x.out_valid then (u.outputfd, x.out_bits) ∷ sent u xs else sent u xs

-- The bytes that a script of reads brings.
abbrev pub keys : List (Option ℕ) → List ℕ
keys [] = []
keys (none ∷ rest) = keys rest
keys (some k ∷ rest) = k ∷ keys rest

-- What the target is to receive: a pending special character, then the typed bytes.
abbrev pub pending : Console → List ℕ
pending c = if c.specialchar == 0 then keys c.typed else c.specialchar ∷ keys c.typed

abbrev key_list : Option ℕ → List ℕ
key_list none = []
key_list (some k) = k ∷ []

record Brings (c : Console) (r : Option ℕ × Console) : Type 0 where
  order : key_list r.0 ++ pending r.1 ≡ pending c
  kept : r.1.written ≡ c.written

script-Brings :
    (c : Console) (typed : List (Option ℕ))
    → c.typed ≡ typed
    → c.specialchar ≡ 0
    → Brings c (read_key c)
unfolding read_key
script-Brings c [] t e = ground arith
script-Brings c (none ∷ rest) t e = ground arith
script-Brings c (some k ∷ rest) t e = ground arith

next_input-Brings : (c : Console) → Brings c (next_input c)
unfolding next_input
next_input-Brings c = elim (Bool-cases (c.specialchar == 0)) [
  | inl e ↦ simp e (script-Brings c c.typed refl (ground arith))
  | inr e ↦ ground arith
]

input : Console → Bool → Option ℕ × Console
input c in_ready = if in_ready then next_input c else (none, c)

input-Brings : (c : Console) (in_ready : Bool) → Brings c (input c in_ready)
unfolding input
input-Brings c true = next_input-Brings c
input-Brings c false = record { order = refl; kept = refl }

output : Uart → Console → Cycle → Console
output u c x = record c {
  written = c.written ++ (if x.out_valid then (u.outputfd, x.out_bits) ∷ [] else []);
}

offer-ready : (in_bits : ℕ) (key : Option ℕ) → (offer in_bits key).out_ready ≡ true
unfolding offer
offer-ready in_bits none = refl
offer-ready in_bits (some k) = refl

tick_lem :
    (u : Uart) (c : Console) (x : Cycle) (in_bits : ℕ)
    → tick u c x.out_valid x.out_bits x.in_ready in_bits true
      ≡ ok (output u (input c x.in_ready).1 x, offer in_bits (input c x.in_ready).0)
unfolding tick input output
tick_lem u c x in_bits =
    ground
      (arith, offer-ready in_bits (input c x.in_ready).0, append-nil (input c x.in_ready).1.written)

got : Option ℕ → ℕ → List ℕ → List ℕ
got key in_bits rest =
    if (offer in_bits key).in_valid then (offer in_bits key).in_bits ∷ rest else rest

got-append :
    (key : Option ℕ) (in_bits : ℕ) (rest : List ℕ) → got key in_bits rest ≡ key_list key ++ rest
unfolding got offer
got-append none in_bits rest = refl
got-append (some k) in_bits rest = refl

sent-cons :
    (u : Uart) (x : Cycle) (xs : List Cycle)
    → (if x.out_valid then (u.outputfd, x.out_bits) ∷ [] else []) ++ sent u xs ≡ sent u (x ∷ xs)
sent-cons u x xs = ground arith

-- While no signal comes and every write succeeds, the bytes handed to the target, followed by those still pending, are those
-- pending at the start: the special character once, then what was typed, in order. The bytes written
-- are those of the valid cycles, in order, all to the UART's own descriptor.
pub run-pending :
    (u : Uart) (c : Console) (in_bits : ℕ) (xs : List Cycle)
    → (d : Console) × (keys_got : List ℕ) × (run u c in_bits xs ≡ ok (d, keys_got))
      × (keys_got ++ pending d ≡ pending c)
      × (d.written ≡ c.written ++ sent u xs)
unfolding run uart_tick got output
run-pending u c in_bits [] = (c, [], refl, refl, sym (append-nil c.written))
run-pending u c in_bits (x ∷ xs) =
    let r = input c x.in_ready in
    let brings = input-Brings c x.in_ready in
    let (d, rest, e, order, out) = run-pending u (output u r.1 x) (offer in_bits r.0).in_bits xs in
    (
      d,
      got r.0 in_bits rest,
      rw (tick_lem u c x in_bits, e),
      ap (λ (q : List ℕ). q ++ pending d) (got-append r.0 in_bits rest)
          ∙ append_assoc (key_list r.0) rest (pending d)
          ∙ ap (λ (q : List ℕ). key_list r.0 ++ q) order
          ∙ brings.order,
      out
          ∙ append_assoc r.1.written (if x.out_valid then (u.outputfd, x.out_bits) ∷ [] else [])
              (sent u xs)
          ∙ ap (λ (q : List (ℕ × ℕ)). r.1.written ++ q) (sent-cons u x xs)
          ∙ ap (λ (q : List (ℕ × ℕ)). q ++ sent u (x ∷ xs)) brings.kept,
    )
