-- ===== src/Magic/Run.antt =====
-- Sequences of calls of `mm_magic_t::tick`.
use chipyard_fault_injection.Common.{◌≡◌, refl, List, [], ◌∷◌, Result, ok, ◌>>=◌, ap, ◌∙◌}
use chipyard_fault_injection.Axi.{Inputs}
use chipyard_fault_injection.Magic.{Magic, tick}
use chipyard_fault_injection.Magic.Channels.{Inv, Protocol}
use chipyard_fault_injection.Magic.Ideal
use chipyard_fault_injection.Magic.Ideal.{Ideal}
use chipyard_fault_injection.Magic.Refine.{view, tick_refines}

pub run : Magic → List Inputs → Result Magic
run s [] = ok s
run s (x ∷ xs) = do t ← tick s x; run t xs

-- The bus keeps to the protocol in every cycle of the run.
abbrev pub Follows : Magic → List Inputs → Type 0
Follows s [] = Unit {0}
Follows s (x ∷ xs) = Protocol s x × ((t : Magic) → tick s x ≡ ok t → Follows t xs)

abbrev pub ideal_run : Ideal → List Inputs → Ideal
ideal_run i [] = i
ideal_run i (x ∷ xs) = ideal_run (Ideal.step i x) xs

-- Any run from a valid state on a bus that keeps to the protocol is defined, ends in a valid state,
-- and is a run of the ideal memory.
pub run_refines :
    (s : Magic) (xs : List Inputs)
    → Inv s
    → Follows s xs
    → (t : Magic) × (run s xs ≡ ok t) × (view t ≡ ideal_run (view s) xs) × Inv t
unfolding run
run_refines s [] v f = (s, refl, refl, v)
run_refines s (x ∷ xs) v f =
    let (t, e, sees, w) = tick_refines s x v f.0 in
    let (u, e', sees', w') = run_refines t xs w (f.1 t e) in
    (u, rw e e', sees' ∙ ap (λ (i : Ideal). ideal_run i xs) sees, w')
