-- ===== src/Magic/Reset.antt =====
-- A reset in the middle of a write burst.
use chipyard_fault_injection.Common.{◌≡◌, true, false, List, [], ◌∷◌, ok, ap, ◌∙◌, arith, some}
use chipyard_fault_injection.Axi.{Inputs}
use chipyard_fault_injection.Magic.{Magic, aw_ready, w_ready}
use chipyard_fault_injection.Magic.Channels.{Inv}
use chipyard_fault_injection.Magic.Ideal
use chipyard_fault_injection.Magic.Ideal.{Ideal, Burst}
use chipyard_fault_injection.Magic.Refine.{view}
use chipyard_fault_injection.Magic.Run.{run, Follows, ideal_run, run_refines}

-- Cycles, with a reset or without, that carry no write data.
abbrev pub NoData : List Inputs → Type 0
NoData [] = Unit {0}
NoData (x ∷ xs) = (x.w_valid ≡ false) × NoData xs

idle_step :
    (i : Ideal) (x : Inputs) (b : Burst)
    → i.burst ≡ some b
    → x.w_valid ≡ false
    → (Ideal.step i x).burst ≡ some b
idle_step i x b e d = ground arith

idle_run :
    (i : Ideal) (xs : List Inputs) (b : Burst)
    → i.burst ≡ some b
    → NoData xs
    → (ideal_run i xs).burst ≡ some b
idle_run i [] b e d = e
idle_run i (x ∷ xs) b e d = idle_run (Ideal.step i x) xs b (idle_step i x b e d.0) d.1

busy_of_view :
    (t : Magic) (b : Burst)
    → (view t).burst ≡ some b
    → (t.store_inflight ≡ true) × (t.store_id ≡ b.id) × (t.store_count ≡ b.left)
busy_of_view t b e = ground arith

-- A burst in flight stays in flight, with its id and its count, through any number of cycles without
-- write data, also those that assert reset; all the while the model refuses a new address.
pub burst_survives_reset :
    (s : Magic) (xs : List Inputs)
    → Inv s
    → Follows s xs
    → s.store_inflight ≡ true
    → NoData xs
    → (t : Magic) × (run s xs ≡ ok t)
      × (aw_ready t ≡ false)
      × (w_ready t ≡ true)
      × (t.store_id ≡ s.store_id)
      × (t.store_count ≡ s.store_count)
unfolding aw_ready w_ready
burst_survives_reset s xs v f busy d =
    let (t, e, sees, w) = run_refines s xs v f in
    let open_burst : Burst = record {
      addr = s.store_addr;
      id = s.store_id;
      bytes = s.store_size;
      left = s.store_count;
    } in
    let kept =
      busy_of_view t open_burst
        (ap (λ (i : Ideal). i.burst) sees ∙ idle_run (view s) xs open_burst (simp busy) d) in
    (t, e, simp kept.0, kept.0, kept.1, kept.2)
