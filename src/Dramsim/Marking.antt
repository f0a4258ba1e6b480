-- ===== src/Dramsim/Marking.antt =====
-- The handlers of a tick keep the reads with DRAMSim apart.
use chipyard_fault_injection.Common.{
  ℕ, ◌*◌, ◌≡◌, refl, ap, Bool, true, false, Option, none, some, List, [], ◌∷◌, ◌++◌, ltb, ◌==◌,
  get_elem?, set, length, ok, err, assertion, out_of_bounds, subst, sym, ◌∙◌, Ends-bind, Ends-guard,
  AnyFault, Gives, Any, Any-Gives, if-elim, if-both, u64, sub_u64, div_u64, shl_int,
}
use chipyard_fault_injection.Axi.{Inputs}
use chipyard_fault_injection.Mm.{write}
use chipyard_fault_injection.Dramsim.{
  DramApi, Dramsim, Req, is_busy, mark, pick, behind, push_beats, read_front, read_complete,
  write_front, write_complete, complete, callbacks, issue_picked, issue, accept_read,
  accept_address, accept_data, finish, set_queue,
}
use chipyard_fault_injection.Dramsim.Exclusive.{Exclusive, push-Exclusive, pop-Exclusive}

-- A request that may be issued.
abbrev Issuable : List Bool → Option (Req × List Req) → Type 0
Issuable flags none = Unit {0}
Issuable flags (some (r, rest)) = get_elem? flags r.id ≡ some false

is_busy-Gives :
    (flags : List Bool) (id : ℕ)
    → Gives (λ (b : Bool). get_elem? flags id ≡ some b) (is_busy flags id)
unfolding is_busy
is_busy-Gives flags id = go (get_elem? flags id)
  where
    go :
        (o : Option Bool)
        → Gives (λ (b : Bool). o ≡ some b) (elim o [ none ↦ err out_of_bounds | some b ↦ ok b ])
    go none = tt
    go (some b) = refl

behind-Issuable :
    (flags : List Bool) (r : Req) (p : Option (Req × List Req))
    → Issuable flags p
    → Issuable flags (behind r p)
unfolding behind
behind-Issuable flags r none k = tt
behind-Issuable flags r (some (picked, rest)) k = k

pick-Issuable : (flags : List Bool) (queue : List Req) → Gives (Issuable flags) (pick flags queue)
unfolding pick behind
pick-Issuable flags [] = tt
pick-Issuable flags (r ∷ rs) =
    Ends-bind AnyFault (λ (b : Bool). get_elem? flags r.id ≡ some b) (Issuable flags)
      (is_busy flags r.id) _ (is_busy-Gives flags r.id)
      (λ b e.
        if-elim (Gives (Issuable flags)) b
          (λ busy.
            Ends-bind AnyFault (Issuable flags) (Issuable flags) (pick flags rs) _
              (pick-Issuable flags rs) (behind-Issuable flags r))
          (λ idle. e ∙ ap some idle))

mark-Gives :
    (flags : List Bool) (id : ℕ) (b : Bool)
    → Gives (λ (next : List Bool). next ≡ set flags id b) (mark flags id b)
unfolding mark
mark-Gives flags id b =
    if-both (Gives (λ (next : List Bool). next ≡ set flags id b)) (ltb id (length flags)) refl tt

module _ (api : DramApi) where
  -- The reads that are with DRAMSim.
  abbrev pub Apart : Dramsim api → Type 0
  Apart s = Exclusive s.read_id_busy s.rreq

  read_front-Apart :
      (queue : List Req) (address : ℕ) (s : Dramsim api)
      → s.rreq address ≡ queue
      → Apart s
      → Gives Apart (read_front api queue address s)
  unfolding read_front
  read_front-Apart [] address s e v = tt
  read_front-Apart (req ∷ rest) address s e v =
      Ends-bind AnyFault Any Apart (div_u64 req.addr s.word_size) _
        (Any-Gives (div_u64 req.addr s.word_size))
        (λ word u.
          Ends-bind AnyFault Any Apart
            (push_beats s.mm (u64 (word * s.word_size)) req 0 req.len s.rresp) _
            (Any-Gives (push_beats s.mm (u64 (word * s.word_size)) req 0 req.len s.rresp))
            (λ queue u.
              Ends-bind AnyFault (λ (f : List Bool). f ≡ set s.read_id_busy req.id false) Apart
                (mark s.read_id_busy req.id false) _ (mark-Gives s.read_id_busy req.id false)
                (λ flags f.
                  subst (λ (l : List Bool). Exclusive l (set_queue s.rreq address rest)) (sym f)
                    (pop-Exclusive s.read_id_busy s.rreq v address req rest e))))

  write_front-Apart :
      (queue : List ℕ) (address : ℕ) (s : Dramsim api)
      → Apart s
      → Gives Apart (write_front api queue address s)
  unfolding write_front
  write_front-Apart [] address s v = tt
  write_front-Apart (id ∷ rest) address s v =
      Ends-bind AnyFault Any Apart (mark s.write_id_busy id false) _
        (Any-Gives (mark s.write_id_busy id false)) (λ flags u. v)

  complete-Apart :
      (w : Bool) (address : ℕ) (s : Dramsim api) → Apart s → Gives Apart (complete api w address s)
  unfolding complete read_complete write_complete
  complete-Apart true address s v = write_front-Apart (s.wreq address) address s v
  complete-Apart false address s v = read_front-Apart (s.rreq address) address s refl v

  pub callbacks-Apart :
      (done : List (Bool × ℕ)) (s : Dramsim api) → Apart s → Gives Apart (callbacks api done s)
  unfolding callbacks
  callbacks-Apart [] s v = v
  callbacks-Apart ((w, address) ∷ rest) s v =
      Ends-bind AnyFault Apart Apart (complete api w address s)
        (λ (t : Dramsim api). callbacks api rest t) (complete-Apart w address s v)
        (callbacks-Apart rest)

  issue_picked-Apart :
      (p : Option (Req × List Req)) (s : Dramsim api)
      → Issuable s.read_id_busy p
      → Apart s
      → Gives Apart (issue_picked api p s)
  unfolding issue_picked
  issue_picked-Apart none s free v = v
  issue_picked-Apart (some (req, rest)) s free v =
      Ends-bind AnyFault (λ (f : List Bool). f ≡ set s.read_id_busy req.id true) Apart
        (mark s.read_id_busy req.id true) _ (mark-Gives s.read_id_busy req.id true)
        (λ flags f.
          subst
            (λ (l : List Bool).
              Exclusive l (set_queue s.rreq req.addr (s.rreq req.addr ++ req ∷ [])))
            (sym f) (push-Exclusive s.read_id_busy s.rreq v req free))

  pub issue-Apart : (s : Dramsim api) → Apart s → Gives Apart (issue api s)
  unfolding issue
  issue-Apart s v =
      if-both (Gives Apart) (api.will_accept s.mem)
        (Ends-bind AnyFault (Issuable s.read_id_busy) Apart (pick s.read_id_busy s.rreq_queue) _
          (pick-Issuable s.read_id_busy s.rreq_queue) (λ p free. issue_picked-Apart p s free v))
        v

  pub accept_read-Apart :
      (s : Dramsim api) (x : Inputs) → Apart s → Gives Apart (accept_read api s x)
  unfolding accept_read
  accept_read-Apart s x v =
      Ends-bind AnyFault Any Apart (shl_int 1 x.ar_size) _ (Any-Gives (shl_int 1 x.ar_size))
        (λ b u. v)

  pub accept_address-Apart :
      (s : Dramsim api) (x : Inputs) → Apart s → Gives Apart (accept_address api s x)
  unfolding accept_address
  accept_address-Apart s x v =
      Ends-bind AnyFault Any Apart (shl_int 1 x.aw_size) _ (Any-Gives (shl_int 1 x.aw_size))
        (λ b u. v)

  pub accept_data-Apart :
      (s : Dramsim api) (x : Inputs) → Apart s → Gives Apart (accept_data api s x)
  unfolding accept_data
  accept_data-Apart s x v =
      Ends-bind AnyFault Any Apart (write s.mm s.store_addr x.w_data x.w_strb s.store_size) _
        (Any-Gives (write s.mm s.store_addr x.w_data x.w_strb s.store_size))
        (λ store u.
          if-both (Gives Apart) (sub_u64 s.store_count 1 == 0)
            (Ends-guard AnyFault Apart x.w_last assertion _ tt v) v)

  pub finish-Apart : (reset : Bool) (s : Dramsim api) → Apart s → Apart (finish api reset s)
  unfolding finish
  finish-Apart true s v = v
  finish-Apart false s v = v
