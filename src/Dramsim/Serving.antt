-- ===== src/Dramsim/Serving.antt =====
-- A whole tick returns, on a bus that keeps to the protocol.
use chipyard_fault_injection.Common.{
  ℕ, ◌^◌, ◌≤◌, ◌<◌, ◌≡◌, refl, ◌∙◌, true, ◌&&◌, not, List, [], ◌∷◌, Gives, subst, if◌then◌else◌,
  length, Fault, assertion, ok, Ends, Ends-bind, Ends-map, Ends-meet, returns, if-elim, arith,
}
use chipyard_fault_injection.Axi.{Inputs}
use chipyard_fault_injection.Dramsim.{
  DramApi, Dramsim, issue, accept_read, accept_address, accept_data, advance, callbacks, finish,
  tick, ar_ready, aw_ready, w_ready,
}
use chipyard_fault_injection.Dramsim.Pending.{NoAssertion, Counts, Inv}
use chipyard_fault_injection.Dramsim.Ready.{OnlyAssertion}
use chipyard_fault_injection.Dramsim.Returning.{Ready, callbacks-Ready, finish-Ready}
use chipyard_fault_injection.Dramsim.Accepting.{
  Held, issue-Held, accept_read-Held, accept_address-Ready, accept_data-Ready,
}
use chipyard_fault_injection.Dramsim.Marking.{Apart}
use chipyard_fault_injection.Dramsim.Ids.{ticks, tick-Apart}
use chipyard_fault_injection.Dramsim.Ticking
use chipyard_fault_injection.Dramsim.Ticking.{tick-Holds}

-- Ids that have a flag, shifts that are defined, transfers of at most a word, and a whole word of data.
pub record Wires (ids w : ℕ) (x : Inputs) : Type 0 where
  pub read_id : x.ar_valid ≡ true → x.ar_id < ids
  pub read_size : x.ar_valid ≡ true → x.ar_size < 32
  pub write_id : x.aw_valid ≡ true → x.aw_id < ids
  pub write_size : x.aw_valid ≡ true → 2 ^ x.aw_size ≤ w
  pub data_word : x.w_valid ≡ true → w ≤ length x.w_data

only-NoAssertion : (fault : Fault) → ¬ (OnlyAssertion fault × NoAssertion fault)
only-NoAssertion assertion both = both.1
only-NoAssertion fault both = both.0

module _ (api : DramApi) (ids w : ℕ) where
  -- The stages of a tick on the state before it, `s`: the read request, the write address, the data.
  module _ (s : Dramsim api) (x : Inputs) (q : Wires ids w x) where
    abbrev R : Dramsim api → Type 0
    R = Ready api ids w

    -- A beat of data finds a transfer in flight.
    abbrev Opened : Dramsim api → Type 0
    Opened t = R t × (not x.reset && x.w_valid && s.store_inflight ≡ true → t.store_inflight ≡ true)

    read_stage :
        (t : Dramsim api)
        → Held api ids w s t
        → Ends OnlyAssertion
            (Held api ids w s)
            (if not x.reset && x.ar_valid && ar_ready api s then accept_read api t x else ok t)
    read_stage t k =
        if-elim (Ends OnlyAssertion (Held api ids w s))
          (not x.reset && x.ar_valid && ar_ready api s)
          (λ e.
            Ends-map OnlyAssertion (Held api ids w t) (Held api ids w s) (accept_read api t x)
              (accept_read-Held api ids w t x (q.read_size (ground (arith, e)))
                (q.read_id (ground (arith, e))) k.0)
              (λ u h. (h.0, h.1 ∙ k.1)))
          (λ e. k)

    address_stage :
        (t : Dramsim api)
        → Held api ids w s t
        → Ends OnlyAssertion Opened (
            if not x.reset && x.aw_valid && (api.will_accept s.mem && not s.store_inflight)
            then accept_address api t x
            else ok t)
    address_stage t k =
        if-elim (Ends OnlyAssertion Opened)
          (not x.reset && x.aw_valid && (api.will_accept s.mem && not s.store_inflight))
          (λ e.
            Ends-map OnlyAssertion R Opened (accept_address api t x)
              (accept_address-Ready api ids w t x (q.write_size (ground (arith, e)))
                (q.write_id (ground (arith, e))) k.0)
              (λ u h. (h, λ fires. absurd (ground (arith, e, fires)))))
          (λ e. (k.0, λ fires. k.1 ∙ ground (arith, fires)))

    data_stage :
        (t : Dramsim api)
        → Opened t
        → Ends OnlyAssertion R
            (if not x.reset && x.w_valid && s.store_inflight then accept_data api t x else ok t)
    data_stage t k =
        if-elim (Ends OnlyAssertion R) (not x.reset && x.w_valid && s.store_inflight)
          (λ fires.
            accept_data-Ready api ids w t x (k.1 fires) (q.data_word (ground (arith, fires))) k.0)
          (λ e. k.0)

    tick-Ready : R s → Ends OnlyAssertion R (tick api s x)
    unfolding tick advance aw_ready w_ready
    tick-Ready v =
        Ends-bind OnlyAssertion (Held api ids w s) R (issue api s) _ (issue-Held api ids w s v)
          (λ s1 k1.
            Ends-bind OnlyAssertion (Held api ids w s) R
              (if not x.reset && x.ar_valid && ar_ready api s then accept_read api s1 x else ok s1)
              _ (read_stage s1 k1)
              (λ s2 k2.
                Ends-bind OnlyAssertion Opened R
                  (if not x.reset && x.aw_valid && (api.will_accept s.mem && not s.store_inflight)
                    then accept_address api s2 x
                    else ok s2)
                  _ (address_stage s2 k2)
                  (λ s3 k3.
                    Ends-bind OnlyAssertion R R
                      (if not x.reset && x.w_valid && s.store_inflight
                        then accept_data api s3 x
                        else ok s3)
                      _ (data_stage s3 k3)
                      (λ s4 v4.
                        Ends-bind OnlyAssertion R R (callbacks api _ _)
                          (λ (t : Dramsim api). ok (finish api x.reset t))
                          (callbacks-Ready api ids w _ _ (ground arith))
                          (λ t u. finish-Ready api ids w x.reset t u)))))

  module _ (c : Counts api) where
    -- What holds between two ticks.
    pub record Sound (s : Dramsim api) : Type 0 where
      pub queues : Inv api c s
      pub ready : Ready api ids w s
      pub apart : Apart api s

    -- What the bus owes in a cycle: ids, sizes and data within the ports, and `w_last` with the last beat.
    pub record Bus (s : Dramsim api) (x : Inputs) : Type 0 where
      pub protocol : Ticking.Protocol api c s x
      pub wires : Wires ids w x

    pub tick_returns :
        (s : Dramsim api) (x : Inputs)
        → Sound s
        → Bus s x
        → (t : Dramsim api) × (tick api s x ≡ ok t) × Sound t
    tick_returns s x v b =
        let (t, e, both) = returns _ _ (tick api s x) only-NoAssertion (
          Ends-meet OnlyAssertion NoAssertion (Ready api ids w) (Inv api c) (tick api s x)
            (tick-Ready s x b.wires v.ready) (tick-Holds api c s x v.queues b.protocol)) in
        (
          t,
          e,
          record {
            queues = both.1;
            ready = both.0;
            apart = subst (Gives (Apart api)) e (tick-Apart api s x v.apart);
          },
        )

    -- The bus keeps to the protocol in every cycle of the run.
    abbrev pub Follows : Dramsim api → List Inputs → Type 0
    Follows s [] = Unit {0}
    Follows s (x ∷ xs) = Bus s x × ((t : Dramsim api) → tick api s x ≡ ok t → Follows t xs)

    -- From a sound state and on a bus that keeps to the protocol every tick of a run returns: no assertion
    -- fails and nothing is undefined. The state is sound again: the queues match what DRAMSim has pending,
    -- ids and transfers are in range, and the reads with DRAMSim have different ids, which are marked
    -- busy.
    pub ticks_return :
        (s : Dramsim api) (xs : List Inputs)
        → Sound s
        → Follows s xs
        → (t : Dramsim api) × (ticks api s xs ≡ ok t) × Sound t
    unfolding ticks
    ticks_return s [] v f = (s, refl, v)
    ticks_return s (x ∷ xs) v f =
        let (t, e, u) = tick_returns s x v f.0 in
        let (z, e', u') = ticks_return t xs u (f.1 t e) in (z, rw e e', u')
