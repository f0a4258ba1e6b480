-- ===== src/Dramsim/Ticking.antt =====
-- A whole tick: no assertion of the model fails on a bus that keeps to the protocol.
use chipyard_fault_injection.Common.{
  Any, Ends-bind, Ends-map, ◌+◌, ◌≤◌, ◌≡◌, refl, ◌∙◌, Bool, true, false, ◌&&◌, not, Option, none,
  some, List, ◌==◌, if◌then◌else◌, ok, ◌>>◌, guard, assertion, u64, sub_u64, sext32, shl_int, arith,
  if-elim,
}
use chipyard_fault_injection.Axi.{Inputs}
use chipyard_fault_injection.Mm.{write}
use chipyard_fault_injection.Dramsim.{
  DramApi, Dramsim, Req, mark, pick, issue, issue_picked, accept_read, accept_address, accept_data,
  advance, finish, tick, w_ready, aw_ready, ar_ready,
}
use chipyard_fault_injection.Dramsim.Pending.{NoAssertion, Holds, Counts, Inv, length-pushed}
use chipyard_fault_injection.Dramsim.Callbacks.{mark-Fine, advance-Inv}
use chipyard_fault_injection.Dramsim.Faults.{write-Fine, pick-Fine, small_shift, shl-Fine}

guard-Holds :
    {A : Type 0} (P : A → Type 0) (b : Bool) (y : A)
    → b ≡ true
    → P y
    → Holds P (guard b assertion >> ok y)
guard-Holds P true y e holds = holds
guard-Holds P false y e holds = absurd (ground (arith, e))

module _ (api : DramApi) (c : Counts api) where
  abbrev Valid : Dramsim api → Type 0
  Valid s = Inv api c s

  -- The write channel is as in `s`.
  abbrev Keeps : Dramsim api → Dramsim api → Type 0
  Keeps s t = Valid t × (t.store_inflight ≡ s.store_inflight) × (t.store_count ≡ s.store_count)

  issue_picked-Keeps :
      (p : Option (Req × List Req)) (s : Dramsim api)
      → Valid s
      → Holds (Keeps s) (issue_picked api p s)
  unfolding issue_picked
  issue_picked-Keeps none s v = (v, refl, refl)
  issue_picked-Keeps (some (req, rest)) s v =
      Ends-bind NoAssertion Any (Keeps s) (mark s.read_id_busy req.id true) _
        (mark-Fine s.read_id_busy req.id true)
        (λ flags u. (
          record {
            reads =
                length-pushed s.rreq req.addr req (λ a. c.pending false a s.mem)
                  (λ a. c.pending false a (api.add_transaction false req.addr s.mem)) v.reads
                  (λ a. c.pending_add false a false req.addr s.mem);
            writes = λ a. omega (arith, v.writes a, c.pending_add true a false req.addr s.mem);
            narrow = v.narrow;
          },
          refl,
          refl,
        ))

  issue-Keeps : (s : Dramsim api) → Valid s → Holds (Keeps s) (issue api s)
  unfolding issue
  issue-Keeps s v =
      if-elim (Holds (Keeps s)) (api.will_accept s.mem)
        (λ e.
          Ends-bind NoAssertion Any (Keeps s) (pick s.read_id_busy s.rreq_queue) _
            (pick-Fine s.read_id_busy s.rreq_queue) (λ p u. issue_picked-Keeps p s v))
        (λ e. (v, refl, refl))

  accept_read-Keeps :
      (s : Dramsim api) (x : Inputs) → Valid s → Holds (Keeps s) (accept_read api s x)
  unfolding accept_read
  accept_read-Keeps s x v =
      Ends-bind NoAssertion Any (Keeps s) (shl_int 1 x.ar_size) _ (shl-Fine 1 x.ar_size)
        (λ bytes u. (record { reads = v.reads; writes = v.writes; narrow = v.narrow }, refl, refl))

  accept_address-Inv :
      (s : Dramsim api) (x : Inputs)
      → Valid s
      → x.aw_size ≤ 6
      → Holds Valid (accept_address api s x)
  unfolding accept_address
  accept_address-Inv s x v le =
      Ends-bind NoAssertion (λ b. sext32 b ≤ 64) Valid (shl_int 1 x.aw_size) _
        (small_shift x.aw_size le)
        (λ bytes small. record { reads = v.reads; writes = v.writes; narrow = λ e. small })

  accept_data-Inv :
      (s : Dramsim api) (x : Inputs)
      → Valid s
      → s.store_inflight ≡ true
      → (sub_u64 s.store_count 1 ≡ 0 → x.w_last ≡ true)
      → Holds Valid (accept_data api s x)
  unfolding accept_data
  accept_data-Inv s x v busy final =
      Ends-bind NoAssertion Any Valid (write s.mm s.store_addr x.w_data x.w_strb s.store_size) _
        (write-Fine s.mm s.store_addr x.w_data x.w_strb s.store_size (v.narrow busy))
        (λ store u.
          if-elim (Holds Valid) (sub_u64 s.store_count 1 == 0)
            (λ e. guard-Holds Valid x.w_last _ (final (ground (arith, e))) (record {
              reads = λ a. omega (
                arith,
                v.reads a,
                c.pending_add false a true (u64 (s.store_addr + s.store_size)) s.mem,
              );
              writes =
                  length-pushed s.wreq (u64 (s.store_addr + s.store_size)) s.store_id
                    (λ a. c.pending true a s.mem)
                    (λ a.
                      c.pending true a
                        (api.add_transaction true (u64 (s.store_addr + s.store_size)) s.mem))
                    v.writes
                    (λ a. c.pending_add true a true (u64 (s.store_addr + s.store_size)) s.mem);
              narrow = λ e. absurd (ground (arith, e));
            }))
            (λ e. record { reads = v.reads; writes = v.writes; narrow = v.narrow }))

  -- The popped responses and the end of the tick change neither the queues nor the store.
  finish-Inv : (reset : Bool) (s : Dramsim api) → Valid s → Valid (finish api reset s)
  unfolding finish
  finish-Inv true s v = record { reads = v.reads; writes = v.writes; narrow = v.narrow }
  finish-Inv false s v = record { reads = v.reads; writes = v.writes; narrow = v.narrow }

  -- A bus that keeps to the protocol: transfers of at most 64 bytes, and `w_last` on the last beat.
  pub record Protocol (s : Dramsim api) (x : Inputs) : Type 0 where
    pub size_small : x.aw_size ≤ 6
    pub last_marked : s.store_inflight ≡ true → sub_u64 s.store_count 1 ≡ 0 → x.w_last ≡ true

  -- From a state with the invariant and on a bus that keeps to the protocol no assertion fails in a tick, those of the callbacks
  -- included, and the queues go on to match what DRAMSim has pending.
  pub tick-Holds :
      (s : Dramsim api) (x : Inputs) → Valid s → Protocol s x → Holds Valid (tick api s x)
  unfolding tick w_ready aw_ready
  tick-Holds s x v protocol =
      Ends-bind NoAssertion (Keeps s) Valid (issue api s) _ (issue-Keeps s v) (λ s1 k1.
        Ends-bind NoAssertion (Keeps s) Valid
          (if not x.reset && x.ar_valid && ar_ready api s then accept_read api s1 x else ok s1) _
          (if-elim (Holds (Keeps s)) (not x.reset && x.ar_valid && ar_ready api s)
            (λ e.
              Ends-map NoAssertion (Keeps s1) (Keeps s) (accept_read api s1 x)
                (accept_read-Keeps s1 x k1.0) (λ t k. (k.0, k.1 ∙ k1.1, k.2 ∙ k1.2)))
            (λ e. k1))
          (λ s2 k2.
            Ends-bind NoAssertion
              (λ t. Valid t × (not x.reset && x.w_valid && s.store_inflight ≡ true → Keeps s t))
              Valid
              (if not x.reset && x.aw_valid && (api.will_accept s.mem && not s.store_inflight)
                then accept_address api s2 x
                else ok s2)
              _
              (if-elim
                (Holds (λ t.
                  Valid t × (not x.reset && x.w_valid && s.store_inflight ≡ true → Keeps s t)))
                (not x.reset && x.aw_valid && (api.will_accept s.mem && not s.store_inflight))
                (λ e.
                  Ends-map NoAssertion Valid _ (accept_address api s2 x)
                    (accept_address-Inv s2 x k2.0 protocol.size_small)
                    (λ t u. (u, λ fires. absurd (ground (arith, e, fires)))))
                (λ e. (k2.0, λ fires. k2)))
              (λ s3 k3.
                Ends-bind NoAssertion Valid Valid
                  (if not x.reset && x.w_valid && s.store_inflight
                    then accept_data api s3 x
                    else ok s3)
                  _
                  (if-elim (Holds Valid) (not x.reset && x.w_valid && s.store_inflight)
                    (λ fires.
                      accept_data-Inv s3 x k3.0 ((k3.1 fires).1 ∙ ground (arith, fires)) (λ last.
                        protocol.last_marked (ground (arith, fires)) (rw ((k3.1 fires).2) at last)))
                    (λ e. k3.0))
                  (λ s4 v4.
                    Ends-bind NoAssertion Valid Valid (advance api _) _
                      (advance-Inv api c _
                        (record { reads = v4.reads; writes = v4.writes; narrow = v4.narrow }))
                      (λ s5 v5. finish-Inv x.reset s5 v5)))))
