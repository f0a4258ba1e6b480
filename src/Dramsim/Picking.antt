-- ===== src/Dramsim/Picking.antt =====
-- Which request is issued.
use chipyard_fault_injection.Common.{
  ℕ, zero, suc, ◌<◌, ◌≡◌, refl, ap, Bool, true, false, none, some, List, [], ◌∷◌, ◌++◌, length,
  get_elem?, ok, arith, inl, inr, ◌⊎◌,
}
use chipyard_fault_injection.Dramsim.{Req, is_busy, pick, behind}

abbrev pub InRange : List Bool → List Req → Type 0
InRange flags [] = Unit {0}
InRange flags (r ∷ rs) = (r.id < length flags) × InRange flags rs

abbrev pub AllBusy : List Bool → List Req → Type 0
AllBusy flags [] = Unit {0}
AllBusy flags (r ∷ rs) = (get_elem? flags r.id ≡ some true) × AllBusy flags rs

get_elem?-flag :
    (flags : List Bool) (i : ℕ)
    → i < length flags
    → (get_elem? flags i ≡ some true) ⊎ (get_elem? flags i ≡ some false)
get_elem?-flag [] i lt = absurd (omega arith)
get_elem?-flag (true ∷ flags) zero lt = inl refl
get_elem?-flag (false ∷ flags) zero lt = inr refl
get_elem?-flag (b ∷ flags) (suc i) lt = get_elem?-flag flags i (omega arith)

-- The outcome of `pick`.
abbrev Picked : List Bool → List Req → Type 0
Picked flags queue =
    ((pick flags queue ≡ ok none) × AllBusy flags queue)
    ⊎ ((before : List Req) × (r : Req) × (later : List Req) × (queue ≡ before ++ r ∷ later)
        × AllBusy flags before
        × (get_elem? flags r.id ≡ some false)
        × (pick flags queue ≡ ok (some (r, before ++ later))))

is_busy-some :
    (flags : List Bool) (id : ℕ) (b : Bool) → get_elem? flags id ≡ some b → is_busy flags id ≡ ok b
unfolding is_busy
is_busy-some flags id b e = rw (is_busy, e)

skip_busy :
    (flags : List Bool) (r : Req) (rs : List Req)
    → get_elem? flags r.id ≡ some true
    → Picked flags rs
    → Picked flags (r ∷ rs)
unfolding pick behind
skip_busy flags r rs busy (inl (e, all)) =
    inl (rw (is_busy-some flags r.id true busy, e), (busy, all))
skip_busy flags r rs busy (inr (before, p, later, split, all, idle, e)) = inr (
  r ∷ before,
  p,
  later,
  ap (λ (q : List Req). r ∷ q) split,
  (busy, all),
  idle,
  rw (is_busy-some flags r.id true busy, e),
)

take_idle :
    (flags : List Bool) (r : Req) (rs : List Req)
    → get_elem? flags r.id ≡ some false
    → Picked flags (r ∷ rs)
unfolding pick
take_idle flags r rs idle = inr ([], r, rs, refl, tt, idle, rw (is_busy-some flags r.id false idle))

-- Where the ids have a flag, the oldest request whose id is not busy is picked and the others keep
-- their order; only where all ids are busy none is.
pub pick_lem :
    (flags : List Bool) (queue : List Req)
    → InRange flags queue
    → ((pick flags queue ≡ ok none) × AllBusy flags queue)
      ⊎ ((before : List Req) × (r : Req) × (later : List Req) × (queue ≡ before ++ r ∷ later)
          × AllBusy flags before
          × (get_elem? flags r.id ≡ some false)
          × (pick flags queue ≡ ok (some (r, before ++ later))))
unfolding pick
pick_lem flags [] range = inl (refl, tt)
pick_lem flags (r ∷ rs) range = elim (get_elem?-flag flags r.id range.0) [
  | inl busy ↦ skip_busy flags r rs busy (pick_lem flags rs range.1)
  | inr idle ↦ take_idle flags r rs idle
]
