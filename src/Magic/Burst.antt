-- ===== src/Magic/Burst.antt =====
-- A write burst from its address to its acknowledgement.
use chipyard_fault_injection.Common.{
  ℕ, suc, ◌+◌, ◌-◌, ◌≡◌, true, false, List, [], ◌∷◌, ◌++◌, ok, ap, ◌∙◌, arith, length, u64, some,
  none, ◌≢◌,
}
use chipyard_fault_injection.Axi.{Inputs}
use chipyard_fault_injection.Mm.{Mm}
use chipyard_fault_injection.Mm.Write.{merged}
use chipyard_fault_injection.Magic.{Magic}
use chipyard_fault_injection.Magic.Channels.{Inv}
use chipyard_fault_injection.Magic.Ideal
use chipyard_fault_injection.Magic.Ideal.{Ideal, Burst}
use chipyard_fault_injection.Magic.Refine.{view}
use chipyard_fault_injection.Magic.Run.{run, Follows, ideal_run, run_refines}

-- The beats of the burst stored one after the other.
pub write_beats : Mm → ℕ → ℕ → List Inputs → Mm
write_beats m addr bytes [] = m
write_beats m addr bytes (x ∷ xs) =
    write_beats (record m { cells = merged m addr x.w_data x.w_strb bytes }) (u64 (addr + bytes))
      bytes xs

free_of_view : (t : Magic) → (view t).burst ≡ none → t.store_inflight ≡ false
free_of_view t e = ground arith

-- Cycles that carry data and take no acknowledgement.
abbrev pub AllData : List Inputs → Type 0
AllData [] = Unit {0}
AllData (x ∷ xs) = (x.reset ≡ false) × (x.w_valid ≡ true) × (x.b_ready ≡ false) × AllData xs

-- The ideal memory over the beats of an open burst.
record Ends (i : Ideal) (b : Burst) (store : Mm) (j : Ideal) : Type 0 where
  closed : j.burst ≡ none
  acked : j.acks ≡ i.acks ++ b.id ∷ []
  kept : j.store ≡ store

module _ (i : Ideal) (b : Burst) (x : Inputs) (e : i.burst ≡ some b) (d : AllData (x ∷ [])) where
  -- One beat that is not the last.
  beat_step :
      b.left ≢ 1
      → let j = Ideal.step i x in
        (j.burst ≡ some (record b { addr = u64 (b.addr + b.bytes); left = b.left - 1 }))
        × (j.acks ≡ i.acks)
        × (j.store ≡ record i.store { cells = merged i.store b.addr x.w_data x.w_strb b.bytes })
  beat_step ne = ground arith

  -- The last beat.
  beat_last : b.left ≡ 1 → Ends i b (write_beats i.store b.addr b.bytes (x ∷ [])) (Ideal.step i x)
  unfolding write_beats
  beat_last l = ground arith

beats-Ends :
    (i : Ideal) (b : Burst) (x : Inputs) (xs : List Inputs)
    → i.burst ≡ some b
    → b.left ≡ suc (length xs)
    → AllData (x ∷ xs)
    → Ends i b (write_beats i.store b.addr b.bytes (x ∷ xs)) (ideal_run i (x ∷ xs))
unfolding write_beats
beats-Ends i b x [] e l d = beat_last i b x e (d.0, d.1, d.2, tt) l
beats-Ends i b x (y ∷ ys) e l d =
    let (opened, acks, store) = beat_step i b x e (d.0, d.1, d.2, tt) (omega arith) in
    let rest = beats-Ends (Ideal.step i x) _ y ys opened (omega arith) d.3 in
    record {
      closed = rest.closed;
      acked = rest.acked ∙ ap (λ (q : List ℕ). q ++ b.id ∷ []) acks;
      kept =
          rest.kept
          ∙ ap (λ (m : Mm). write_beats m (u64 (b.addr + b.bytes)) b.bytes (y ∷ ys)) store;
    }

-- A burst in flight whose remaining beats all arrive, one in each cycle, with no reset and no
-- acknowledgement taken meanwhile, ends: its beats are stored in order at consecutive addresses, the model is free for the
-- next address, and one acknowledgement with the burst's id stands behind the earlier ones.
pub burst_lem :
    (s : Magic) (x : Inputs) (xs : List Inputs)
    → Inv s
    → Follows s (x ∷ xs)
    → s.store_inflight ≡ true
    → s.store_count ≡ length (x ∷ xs)
    → AllData (x ∷ xs)
    → (t : Magic) × (run s (x ∷ xs) ≡ ok t)
      × (t.store_inflight ≡ false)
      × (t.bresp ≡ s.bresp ++ s.store_id ∷ [])
      × (t.mm ≡ write_beats s.mm s.store_addr s.store_size (x ∷ xs))
burst_lem s x xs v f busy count d =
    let (t, e, sees, w) = run_refines s (x ∷ xs) v f in
    let open_burst : Burst = record {
      addr = s.store_addr;
      id = s.store_id;
      bytes = s.store_size;
      left = s.store_count;
    } in
    let ends = beats-Ends (view s) open_burst x xs (rw busy) count d in
    (
      t,
      e,
      free_of_view t (ap (λ (i : Ideal). i.burst) sees ∙ ends.closed),
      ap (λ (i : Ideal). i.acks) sees ∙ ends.acked,
      ap (λ (i : Ideal). i.store) sees ∙ ends.kept,
    )
