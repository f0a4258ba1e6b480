-- ===== src/Dramsim/Returning.antt =====
-- A tick of a model whose ids, addresses and transfers are in range returns.
use chipyard_fault_injection.Common.{
  ℕ, ◌*◌, ◌/◌, ◌≤◌, ◌<◌, ◌≡◌, Bool, true, false, List, [], ◌∷◌, length, Ends, Ends-bind, u64, arith,
  Any,
}
use chipyard_fault_injection.Mm.Masks.{IsValid, div_u64-ok}
use chipyard_fault_injection.Dramsim.{
  DramApi, Dramsim, Req, mark, push_beats, read_front, read_complete, write_front, write_complete,
  complete, callbacks, finish,
}
use chipyard_fault_injection.Dramsim.Ready.{
  OnlyAssertion, Each, set_queue-Each, Known, mark-Ends, push_beats-Ends,
}

module _ (api : DramApi) (ids w : ℕ) where
  -- A valid store with words of `w` bytes, `ids` flags, and ids and a transfer within these.
  pub record Ready (s : Dramsim api) : Type 0 where
    pub store : IsValid s.mm
    pub width : s.word_size ≡ w
    pub read_flags : length s.read_id_busy ≡ ids
    pub write_flags : length s.write_id_busy ≡ ids
    pub waiting : Each (Known ids) s.rreq_queue
    pub reads : (a : ℕ) → Each (Known ids) (s.rreq a)
    pub writes : (a : ℕ) → Each (λ id. id < ids) (s.wreq a)
    pub transfer : s.store_inflight ≡ true → s.store_size ≤ w
    pub owner : s.store_inflight ≡ true → s.store_id < ids

  read_front-Ready :
      (queue : List Req) (address : ℕ) (s : Dramsim api)
      → Each (Known ids) queue
      → Ready s
      → Ends OnlyAssertion Ready (read_front api queue address s)
  unfolding read_front
  read_front-Ready [] address s known v = tt
  read_front-Ready (req ∷ rest) address s known v =
      rw (div_u64-ok req.addr s.word_size v.store.word_pos) (
        Ends-bind OnlyAssertion Any Ready
          (push_beats s.mm (u64 (req.addr / s.word_size * s.word_size)) req 0 req.len s.rresp) _
          (push_beats-Ends s.mm (req.addr / s.word_size) req 0 req.len s.rresp v.store)
          (λ queue u.
            Ends-bind OnlyAssertion (λ (f : List Bool). length f ≡ ids) Ready
              (mark s.read_id_busy req.id false) _
              (mark-Ends ids s.read_id_busy req.id false v.read_flags known.0)
              (λ flags e. record {
                store = v.store;
                width = v.width;
                read_flags = e;
                write_flags = v.write_flags;
                waiting = v.waiting;
                reads = set_queue-Each (Known ids) s.rreq address rest v.reads known.1;
                writes = v.writes;
                transfer = v.transfer;
                owner = v.owner;
              })))

  write_front-Ready :
      (queue : List ℕ) (address : ℕ) (s : Dramsim api)
      → Each (λ id. id < ids) queue
      → Ready s
      → Ends OnlyAssertion Ready (write_front api queue address s)
  unfolding write_front
  write_front-Ready [] address s known v = tt
  write_front-Ready (id ∷ rest) address s known v =
      Ends-bind OnlyAssertion (λ (f : List Bool). length f ≡ ids) Ready
        (mark s.write_id_busy id false) _
        (mark-Ends ids s.write_id_busy id false v.write_flags known.0)
        (λ flags e. record {
          store = v.store;
          width = v.width;
          read_flags = v.read_flags;
          write_flags = e;
          waiting = v.waiting;
          reads = v.reads;
          writes = set_queue-Each (λ id. id < ids) s.wreq address rest v.writes known.1;
          transfer = v.transfer;
          owner = v.owner;
        })

  complete-Ready :
      (is_write : Bool) (address : ℕ) (s : Dramsim api)
      → Ready s
      → Ends OnlyAssertion Ready (complete api is_write address s)
  unfolding complete read_complete write_complete
  complete-Ready true address s v =
      write_front-Ready (s.wreq address) address s (v.writes address) v
  complete-Ready false address s v = read_front-Ready (s.rreq address) address s (v.reads address) v

  pub callbacks-Ready :
      (done : List (Bool × ℕ)) (s : Dramsim api)
      → Ready s
      → Ends OnlyAssertion Ready (callbacks api done s)
  unfolding callbacks
  callbacks-Ready [] s v = v
  callbacks-Ready ((is_write, address) ∷ rest) s v =
      Ends-bind OnlyAssertion Ready Ready (complete api is_write address s)
        (λ (t : Dramsim api). callbacks api rest t) (complete-Ready is_write address s v)
        (callbacks-Ready rest)

  pub finish-Ready : (reset : Bool) (s : Dramsim api) → Ready s → Ready (finish api reset s)
  unfolding finish
  finish-Ready true s v = ground arith
  finish-Ready false s v = ground arith
