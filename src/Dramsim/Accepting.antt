-- ===== src/Dramsim/Accepting.antt =====
-- The handlers of a tick on a model whose ids, addresses and transfers are in range.
use chipyard_fault_injection.Common.{
  ℕ, ◌%◌, ◌^◌, ◌≤◌, ◌<◌, ◌≡◌, refl, Bool, true, Option, none, some, List, [], ◌∷◌, ◌++◌, ◌==◌,
  length, assertion, Ends, Ends-bind, Ends-guard, if-both, sub_u64, shl_int, arith,
}
use chipyard_fault_injection.Axi.{Inputs}
use chipyard_fault_injection.Mm.Write.{write_lem}
use chipyard_fault_injection.Mm.Read.{after_write-IsValid}
use chipyard_fault_injection.Dramsim.{
  DramApi, Dramsim, Req, mark, pick, issue_picked, issue, accept_read, accept_address, accept_data,
}
use chipyard_fault_injection.Magic.Channels.{shl_int-one}
use chipyard_fault_injection.Dramsim.Ready.{
  OnlyAssertion, Each-push, set_queue-Each, Known, PickKnown, mark-Ends, pick-Ends,
}
use chipyard_fault_injection.Dramsim.Returning.{Ready}

module _ (api : DramApi) (ids w : ℕ) where
  abbrev R : Dramsim api → Type 0
  R = Ready api ids w

  -- As in `s` on the write channel.
  abbrev pub Held : Dramsim api → Dramsim api → Type 0
  Held s t = R t × (t.store_inflight ≡ s.store_inflight)

  issue_picked-Held :
      (p : Option (Req × List Req)) (s : Dramsim api)
      → PickKnown ids p
      → R s
      → Ends OnlyAssertion (Held s) (issue_picked api p s)
  unfolding issue_picked
  issue_picked-Held none s known v = (v, refl)
  issue_picked-Held (some (req, rest)) s known v =
      Ends-bind OnlyAssertion (λ (f : List Bool). length f ≡ ids) (Held s)
        (mark s.read_id_busy req.id true) _
        (mark-Ends ids s.read_id_busy req.id true v.read_flags known.0)
        (λ flags e. (
          record {
            store = v.store;
            width = v.width;
            read_flags = e;
            write_flags = v.write_flags;
            waiting = known.1;
            reads =
                set_queue-Each (Known ids) s.rreq req.addr (s.rreq req.addr ++ req ∷ []) v.reads
                  (Each-push (Known ids) (s.rreq req.addr) req (v.reads req.addr) known.0);
            writes = v.writes;
            transfer = v.transfer;
            owner = v.owner;
          },
          refl,
        ))

  pub issue-Held : (s : Dramsim api) → R s → Ends OnlyAssertion (Held s) (issue api s)
  unfolding issue
  issue-Held s v =
      if-both (Ends OnlyAssertion (Held s)) (api.will_accept s.mem)
        (Ends-bind OnlyAssertion (PickKnown ids) (Held s) (pick s.read_id_busy s.rreq_queue) _
          (pick-Ends ids s.read_id_busy s.rreq_queue v.read_flags v.waiting)
          (λ p known. issue_picked-Held p s known v))
        (v, refl)

  shl_int-Ends : (k : ℕ) → k < 32 → Ends OnlyAssertion (λ b. b ≡ 2 ^ k % 2 ^ 32) (shl_int 1 k)
  unfolding shl_int
  shl_int-Ends k lt = ground (arith, lt)

  pub accept_read-Held :
      (s : Dramsim api) (x : Inputs)
      → x.ar_size < 32
      → x.ar_id < ids
      → R s
      → Ends OnlyAssertion (Held s) (accept_read api s x)
  unfolding accept_read
  accept_read-Held s x small known v =
      Ends-bind OnlyAssertion (λ b. b ≡ 2 ^ x.ar_size % 2 ^ 32) (Held s) (shl_int 1 x.ar_size) _
        (shl_int-Ends x.ar_size small)
        (λ bytes e. (
          record {
            store = v.store;
            width = v.width;
            read_flags = v.read_flags;
            write_flags = v.write_flags;
            waiting = Each-push (Known ids) s.rreq_queue _ v.waiting known;
            reads = v.reads;
            writes = v.writes;
            transfer = v.transfer;
            owner = v.owner;
          },
          refl,
        ))

  pub accept_address-Ready :
      (s : Dramsim api) (x : Inputs)
      → 2 ^ x.aw_size ≤ w
      → x.aw_id < ids
      → R s
      → Ends OnlyAssertion R (accept_address api s x)
  unfolding accept_address
  accept_address-Ready s x fits known v =
      rw (shl_int-one x.aw_size (omega (arith, v.store.narrow, v.width))) (record {
        store = v.store;
        width = v.width;
        read_flags = v.read_flags;
        write_flags = v.write_flags;
        waiting = v.waiting;
        reads = v.reads;
        writes = v.writes;
        transfer = λ e. ground (arith, fits, v.store.narrow, v.width);
        owner = λ e. known;
      })

  pub accept_data-Ready :
      (s : Dramsim api) (x : Inputs)
      → s.store_inflight ≡ true
      → w ≤ length x.w_data
      → R s
      → Ends OnlyAssertion R (accept_data api s x)
  unfolding accept_data
  accept_data-Ready s x busy long v =
      rw
        (write_lem s.mm s.store_addr x.w_data x.w_strb s.store_size v.store
          (omega (arith, v.transfer busy, v.width)) (omega (arith, v.width)))
        (if-both (Ends OnlyAssertion R) (sub_u64 s.store_count 1 == 0)
          (Ends-guard OnlyAssertion R x.w_last assertion _ tt (record {
            store = after_write-IsValid _ v.store;
            width = v.width;
            read_flags = v.read_flags;
            write_flags = v.write_flags;
            waiting = v.waiting;
            reads = v.reads;
            writes =
                set_queue-Each (λ id. id < ids) s.wreq _ _ v.writes
                  (Each-push (λ id. id < ids) _ s.store_id (v.writes _) (v.owner busy));
            transfer = λ e. absurd (ground (arith, e));
            owner = λ e. absurd (ground (arith, e));
          }))
          (record {
            store = after_write-IsValid _ v.store;
            width = v.width;
            read_flags = v.read_flags;
            write_flags = v.write_flags;
            waiting = v.waiting;
            reads = v.reads;
            writes = v.writes;
            transfer = v.transfer;
            owner = v.owner;
          }))
