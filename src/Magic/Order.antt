-- ===== src/Magic/Order.antt =====
-- Read responses reach the bus in the order of the requests, none lost and none made up.
use chipyard_fault_injection.Common.{
  ◌≡◌, refl, Bool, true, false, List, [], ◌∷◌, ◌++◌, ok, ap, ◌∙◌, sym, arith, if◌then◌else◌,
  append_assoc, append-nil, Option, none, some, tail,
}
use chipyard_fault_injection.Axi.{Inputs, Rresp}
use chipyard_fault_injection.Magic.{Magic}
use chipyard_fault_injection.Magic.Channels.{Inv, replies_of}
use chipyard_fault_injection.Magic.Ideal
use chipyard_fault_injection.Magic.Ideal.{Ideal, Burst}
use chipyard_fault_injection.Magic.Refine.{view}
use chipyard_fault_injection.Magic.Run.{run, Follows, ideal_run, run_refines}

-- The beat that the bus takes in a cycle, if any.
abbrev pub front : List Rresp → List Rresp
front [] = []
front (r ∷ rs) = r ∷ []

abbrev pub received : Ideal → List Inputs → List Rresp
received i [] = []
received i (x ∷ xs) = (if x.r_ready then front i.replies else []) ++ received (Ideal.step i x) xs

-- The beats that the accepted read requests ask for.
abbrev pub requested : Ideal → List Inputs → List Rresp
requested i [] = []
requested i (x ∷ xs) =
    (if x.ar_valid then replies_of i.store x else []) ++ requested (Ideal.step i x) xs

abbrev pub NoReset : List Inputs → Type 0
NoReset [] = Unit {0}
NoReset (x ∷ xs) = (x.reset ≡ false) × NoReset xs

front-tail :
    (ready : Bool) (q new : List Rresp)
    → (if ready then front q else []) ++ ((if ready then tail q else q) ++ new) ≡ q ++ new
front-tail true [] new = refl
front-tail true (r ∷ rs) new = refl
front-tail false q new = refl

write_step-replies :
    (i : Ideal) (x : Inputs) (b : Option Burst) → (Ideal.write_step i x b).replies ≡ i.replies
write_step-replies i x none = ground arith
write_step-replies i x (some b) = ground arith

pub queued :
    (i : Ideal) (x : Inputs)
    → x.reset ≡ false
    → (Ideal.step i x).replies
      ≡ (if x.r_ready then tail i.replies else i.replies)
        ++ (if x.ar_valid then replies_of i.store x else [])
queued i x r = simp (r, write_step-replies)

pub step-replies :
    (i : Ideal) (x : Inputs)
    → x.reset ≡ false
    → (if x.r_ready then front i.replies else []) ++ (Ideal.step i x).replies
      ≡ i.replies ++ (if x.ar_valid then replies_of i.store x else [])
step-replies i x r =
    ap (λ (q : List Rresp). (if x.r_ready then front i.replies else []) ++ q) (queued i x r)
    ∙ front-tail x.r_ready i.replies (if x.ar_valid then replies_of i.store x else [])

ideal_order :
    (i : Ideal) (xs : List Inputs)
    → NoReset xs
    → received i xs ++ (ideal_run i xs).replies ≡ i.replies ++ requested i xs
ideal_order i [] n = sym (append-nil i.replies)
ideal_order i (x ∷ xs) n =
    append_assoc taken (received j xs) (ideal_run j xs).replies
    ∙ ap (λ (q : List Rresp). taken ++ q) (ideal_order j xs n.1)
    ∙ sym (append_assoc taken j.replies (requested j xs))
    ∙ ap (λ (q : List Rresp). q ++ requested j xs) (step-replies i x n.0)
    ∙ append_assoc i.replies asked (requested j xs)
  where
    j : Ideal
    j = Ideal.step i x

    taken : List Rresp
    taken = if x.r_ready then front i.replies else []

    asked : List Rresp
    asked = if x.ar_valid then replies_of i.store x else []

-- Over a run with no reset, the beats that the bus took, followed by those still queued, are those
-- queued at the start followed by the beats of the accepted requests, in order.
pub run-order :
    (s : Magic) (xs : List Inputs)
    → Inv s
    → Follows s xs
    → NoReset xs
    → (t : Magic) × (run s xs ≡ ok t)
      × (received (view s) xs ++ t.rresp ≡ s.rresp ++ requested (view s) xs)
run-order s xs v f n =
    let (t, e, sees, w) = run_refines s xs v f in
    (
      t,
      e,
      ap (λ (q : List Rresp). received (view s) xs ++ q) (ap (λ (i : Ideal). i.replies) sees)
          ∙ ideal_order (view s) xs n,
    )
