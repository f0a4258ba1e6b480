-- ===== src/Dramsim/Callbacks.antt =====
-- The assertions of the callbacks never fail.
use chipyard_fault_injection.Common.{
  Ends-bind, Ends-map, ℕ, zero, suc, ◌+◌, ◌*◌, ◌%◌, ◌≡◌, refl, sym, ap, ◌∙◌, Bool, true, false,
  List, [], ◌∷◌, length, u64, div_u64, arith, mod_u64,
}
use chipyard_fault_injection.Axi.{Rresp}
use chipyard_fault_injection.Mm.{Mm, read, read_bytes, load_byte}
use chipyard_fault_injection.Dramsim.{
  DramApi, Dramsim, Req, mark, push_beats, read_complete, write_complete, read_front, write_front,
  complete, callbacks, advance,
}
use chipyard_fault_injection.Dramsim.Pending.{
  NoAssertion, Holds, Fine, is_same, one_if, completions, Counts, Due, Inv, length-popped,
}

pub mark-Fine : (flags : List Bool) (id : ℕ) (b : Bool) → Fine (mark flags id b)
unfolding mark
mark-Fine flags id b = ground arith

pub div-Fine : (a b : ℕ) → Fine (div_u64 a b)
unfolding div_u64
div-Fine a b = ground arith

read_bytes-Fine : (limit : ℕ) (cells : ℕ → ℕ) (base n : ℕ) → Fine (read_bytes limit cells base n)
unfolding read_bytes load_byte
read_bytes-Fine limit cells base zero = tt
read_bytes-Fine limit cells base (suc n) = ground (arith, read_bytes-Fine limit cells (base + 1) n)

read-Fine : (m : Mm) (a : ℕ) → Fine (read m a)
unfolding read mod_u64
read-Fine m a = ground (arith, read_bytes-Fine m.size m.cells (a % m.size) m.word_size)

push_beats-Fine :
    (m : Mm) (start : ℕ) (req : Req) (i n : ℕ) (queue : List Rresp)
    → Fine (push_beats m start req i n queue)
unfolding push_beats
push_beats-Fine m start req i zero queue = tt
push_beats-Fine m start req i (suc n) queue =
    Ends-bind NoAssertion (λ x. Unit {0}) (λ x. Unit {0}) (read m (u64 (start + i * m.word_size))) _
      (read-Fine m _) (λ dat u. push_beats-Fine m start req (i + 1) n _)

module _ (api : DramApi) (c : Counts api) where
  -- One completion is due at an address, and then it is not.
  abbrev Step : Bool → ℕ → (Bool → ℕ → ℕ) → (Bool → ℕ → ℕ) → Type 0
  Step w address due due' =
      (w' : Bool) (a : ℕ) → due w' a ≡ one_if (is_same w' a w address) + due' w' a

  read_front-Due :
      (m : api.State) (address : ℕ) (s : Dramsim api) (due due' : Bool → ℕ → ℕ) (queue : List Req)
      → s.rreq address ≡ queue
      → Due api c m due s
      → Step false address due due'
      → Holds (Due api c m due') (read_front api queue address s)
  unfolding read_front
  read_front-Due m address s due due' [] e match step =
      absurd (ground (arith, ap length e, match.0 address, step false address))
  read_front-Due m address s due due' (req ∷ rest) e match step =
      Ends-bind NoAssertion (λ x. Unit {0}) (Due api c m due') (div_u64 req.addr s.word_size) _
        (div-Fine _ _)
        (λ word u.
          Ends-bind NoAssertion (λ x. Unit {0}) (Due api c m due')
            (push_beats s.mm (u64 (word * s.word_size)) req 0 req.len s.rresp) _
            (push_beats-Fine s.mm (u64 (word * s.word_size)) req 0 req.len s.rresp)
            (λ queue u.
              Ends-bind NoAssertion (λ x. Unit {0}) (Due api c m due')
                (mark s.read_id_busy req.id false) _ (mark-Fine s.read_id_busy req.id false)
                (λ flags u. (
                  length-popped s.rreq address req (due false) (due' false) rest e match.0
                      (step false),
                  λ a. ground (arith, match.1 a, step true a),
                  match.2,
                  match.3,
                ))))

  write_front-Due :
      (m : api.State) (address : ℕ) (s : Dramsim api) (due due' : Bool → ℕ → ℕ) (queue : List ℕ)
      → s.wreq address ≡ queue
      → Due api c m due s
      → Step true address due due'
      → Holds (Due api c m due') (write_front api queue address s)
  unfolding write_front
  write_front-Due m address s due due' [] e match step =
      absurd (ground (arith, ap length e, match.1 address, step true address))
  write_front-Due m address s due due' (b_id ∷ rest) e match step =
      Ends-bind NoAssertion (λ x. Unit {0}) (Due api c m due') (mark s.write_id_busy b_id false) _
        (mark-Fine s.write_id_busy b_id false)
        (λ flags u. (
          λ a. ground (arith, match.0 a, step false a),
          length-popped s.wreq address b_id (due true) (due' true) rest e match.1 (step true),
          match.2,
          match.3,
        ))

  complete-Due :
      (m : api.State) (w : Bool) (address : ℕ) (s : Dramsim api) (due due' : Bool → ℕ → ℕ)
      → Due api c m due s
      → Step w address due due'
      → Holds (Due api c m due') (complete api w address s)
  unfolding complete read_complete write_complete
  complete-Due m true address s due due' match step =
      write_front-Due m address s due due' (s.wreq address) refl match step
  complete-Due m false address s due due' match step =
      read_front-Due m address s due due' (s.rreq address) refl match step

  callbacks-Due :
      (m : api.State) (done : List (Bool × ℕ)) (s : Dramsim api) (left : Bool → ℕ → ℕ)
      → Due api c m (λ w a. completions w a done + left w a) s
      → Holds (Due api c m left) (callbacks api done s)
  unfolding callbacks
  callbacks-Due m [] s left match =
      (λ a. omega (arith, match.0 a), λ a. omega (arith, match.1 a), match.2, match.3)
  callbacks-Due m ((w, address) ∷ rest) s left match =
      Ends-bind NoAssertion (Due api c m (λ w a. completions w a rest + left w a))
        (Due api c m left) (complete api w address s) _
        (complete-Due m w address s (λ w' a. completions w' a ((w, address) ∷ rest) + left w' a)
          (λ w' a. completions w' a rest + left w' a) match (λ w' a. omega arith))
        (λ t match'. callbacks-Due m rest t left match')

  relabel : (m : api.State) (t : Dramsim api) → Due api c m (λ w a. c.pending w a m) t → Inv api c t
  relabel m t due = record {
    reads = λ a. due.0 a ∙ ap (c.pending false a) (sym due.2);
    writes = λ a. due.1 a ∙ ap (c.pending true a) (sym due.2);
    narrow = due.3;
  }

  -- The assertions of the callbacks hold in every `update`, and the queues go on to match what is
  -- pending.
  pub advance-Inv : (s : Dramsim api) → Inv api c s → Holds (Inv api c) (advance api s)
  unfolding advance
  advance-Inv s match =
      Ends-map NoAssertion (Due api c m (λ w a. c.pending w a m)) (Inv api c)
        (callbacks api (api.update s.mem).1 (record s { mem = m }))
        (callbacks-Due m (api.update s.mem).1 (record s { mem = m }) (λ w a. c.pending w a m)
          (
            λ a. match.reads a ∙ c.pending_update false a s.mem,
            λ a. match.writes a ∙ c.pending_update true a s.mem,
            refl,
            match.narrow,
          ))
        (relabel m)
    where
      m : api.State
      m = (api.update s.mem).0
