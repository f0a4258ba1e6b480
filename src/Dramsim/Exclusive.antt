-- ===== src/Dramsim/Exclusive.antt =====
-- Reads with one id follow one another: at most one of them is with DRAMSim.
use mathlib.Core.Option.{some-injective, none-ne-some}
use chipyard_fault_injection.Common.{
  ℕ, zero, suc, ◌≡◌, ◌≢◌, refl, sym, ap, ◌∙◌, subst, Bool, true, false, some, List, [], ◌∷◌, ◌++◌,
  get_elem?, set, length, ◌⊎◌, inl, inr, arith, ℕ_discrete,
}
use chipyard_fault_injection.Dramsim.{Req, set_queue}

-- Requests of different entries have different ids, and the id of each is busy.
pub record Exclusive (flags : List Bool) (queues : ℕ → List Req) : Type 0 where
  pub busy :
      (a i : ℕ) (r : Req) → get_elem? (queues a) i ≡ some r → get_elem? flags r.id ≡ some true
  pub one :
      (a i b j : ℕ) (r q : Req)
      → get_elem? (queues a) i ≡ some r
      → get_elem? (queues b) j ≡ some q
      → r.id ≡ q.id
      → (a ≡ b) × (i ≡ j)

set_same :
    (flags : List Bool) (i : ℕ) (v w : Bool)
    → get_elem? flags i ≡ some v
    → get_elem? (set flags i w) i ≡ some w
set_same [] i v w e = absurd (none-ne-some _ e)
set_same (x ∷ flags) zero v w e = refl
set_same (x ∷ flags) (suc i) v w e = set_same flags i v w e

set_other :
    (flags : List Bool) (i j : ℕ) (w : Bool)
    → i ≢ j
    → get_elem? (set flags i w) j ≡ get_elem? flags j
set_other [] i j w ne = refl
set_other (x ∷ flags) zero zero w ne = absurd (ne refl)
set_other (x ∷ flags) zero (suc j) w ne = refl
set_other (x ∷ flags) (suc i) zero w ne = refl
set_other (x ∷ flags) (suc i) (suc j) w ne = set_other flags i j w (λ e. ne (ap suc e))

append_at :
    (xs : List Req) (x y : Req) (i : ℕ)
    → get_elem? (xs ++ x ∷ []) i ≡ some y
    → (get_elem? xs i ≡ some y) ⊎ ((i ≡ length xs) × (x ≡ y))
append_at [] x y zero e = inr (refl, some-injective x y e)
append_at [] x y (suc i) e = absurd (none-ne-some _ e)
append_at (z ∷ xs) x y zero e = inl e
append_at (z ∷ xs) x y (suc i) e = elim (append_at xs x y i e) [
  | inl old ↦ inl old
  | inr new ↦ inr (ap suc new.0, new.1)
]

module _ (queues : ℕ → List Req) (address : ℕ) (queue : List Req) where
  queue_here : (a : ℕ) → a ≡ address → set_queue queues address queue a ≡ queue
  queue_here a here = ground (arith, here)

  queue_there : (a : ℕ) → a ≢ address → set_queue queues address queue a ≡ queues a
  queue_there a there = ground (arith, there)

-- Where an entry stands after a push, and after a pop.
pushed_at :
    (queues : ℕ → List Req) (address : ℕ) (r : Req) (a i : ℕ) (y : Req)
    → get_elem? (set_queue queues address (queues address ++ r ∷ []) a) i ≡ some y
    → (get_elem? (queues a) i ≡ some y) ⊎ ((a ≡ address) × (i ≡ length (queues address)) × (r ≡ y))
pushed_at queues address r a i y e = elim (ℕ_discrete a address) [
  | yes here ↦
      let e' =
        sym (
          ap (λ (l : List Req). get_elem? l i)
            (queue_here queues address (queues address ++ r ∷ []) a here))
        ∙ e in
      elim (append_at (queues address) r y i e') [
        | inl old ↦ inl (ap (λ (b : ℕ). get_elem? (queues b) i) here ∙ old)
        | inr new ↦ inr (here, new.0, new.1)
      ]
  | no there ↦ inl (
      sym (
        ap (λ (l : List Req). get_elem? l i)
          (queue_there queues address (queues address ++ r ∷ []) a there))
      ∙ e)
]

popped_at :
    (queues : ℕ → List Req) (address : ℕ) (h : Req) (rest : List Req) (a i : ℕ) (y : Req)
    → queues address ≡ h ∷ rest
    → get_elem? (set_queue queues address rest a) i ≡ some y
    → ((a ≡ address) × (get_elem? (queues address) (suc i) ≡ some y))
      ⊎ ((a ≢ address) × (get_elem? (queues a) i ≡ some y))
popped_at queues address h rest a i y split e = elim (ℕ_discrete a address) [
  | yes here ↦ inl (
    here,
    ap (λ (l : List Req). get_elem? l (suc i)) split
        ∙ sym (ap (λ (l : List Req). get_elem? l i) (queue_here queues address rest a here))
        ∙ e,
  )
  | no there ↦ inr (
    there,
    sym (ap (λ (l : List Req). get_elem? l i) (queue_there queues address rest a there)) ∙ e,
  )
]

module _ (flags : List Bool) (queues : ℕ → List Req) (v : Exclusive flags queues) where
  -- A request whose id is not busy is pushed, and its id marked.
  pub push-Exclusive :
      (r : Req)
      → get_elem? flags r.id ≡ some false
      → Exclusive (set flags r.id true) (set_queue queues r.addr (queues r.addr ++ r ∷ []))
  push-Exclusive r free = record {
    busy = λ a i y e. elim (pushed_at queues r.addr r a i y e) [
      | inl old ↦ set_other flags r.id y.id true (λ same. fresh a i y old same) ∙ v.busy a i y old
      | inr new ↦
          subst (λ (z : Req). get_elem? (set flags r.id true) z.id ≡ some true) new.2
            (set_same flags r.id false true free)
    ];
    one = λ a i b j y q e f same. elim (pushed_at queues r.addr r a i y e) [
      | inl old ↦ elim (pushed_at queues r.addr r b j q f) [
        | inl old' ↦ v.one a i b j y q old old' same
        | inr new' ↦ absurd (fresh a i y old (ap (λ (z : Req). z.id) new'.2 ∙ sym same))
      ]
      | inr new ↦ elim (pushed_at queues r.addr r b j q f) [
        | inl old' ↦ absurd (fresh b j q old' (ap (λ (z : Req). z.id) new.2 ∙ same))
        | inr new' ↦ (new.0 ∙ sym new'.0, new.1 ∙ sym new'.1)
      ]
    ];
  }
    where
      fresh : (a i : ℕ) (y : Req) → get_elem? (queues a) i ≡ some y → r.id ≢ y.id
      fresh a i y old same = absurd (
          ground (
            arith,
            some-injective false true (sym free ∙ ap (get_elem? flags) same ∙ v.busy a i y old),
          ))

  -- The request at the front is answered, and its id is free again.
  pub pop-Exclusive :
      (address : ℕ) (h : Req) (rest : List Req)
      → queues address ≡ h ∷ rest
      → Exclusive (set flags h.id false) (set_queue queues address rest)
  pop-Exclusive address h rest split = record {
    busy = λ a i y e. elim (popped_at queues address h rest a i y split e) [
      | inl here ↦
          set_other flags h.id y.id false (λ same.
            absurd (ground (arith, (v.one address 0 address (suc i) h y front here.1 same).1)))
          ∙ v.busy address (suc i) y here.1
      | inr there ↦
          set_other flags h.id y.id false
            (λ same. there.0 (sym (v.one address 0 a i h y front there.1 same).0))
          ∙ v.busy a i y there.1
    ];
    one = λ a i b j y q e f same. elim (popped_at queues address h rest a i y split e) [
      | inl here ↦ elim (popped_at queues address h rest b j q split f) [
        | inl here' ↦ (
          here.0 ∙ sym here'.0,
          omega (arith, (v.one address (suc i) address (suc j) y q here.1 here'.1 same).1),
        )
        | inr there' ↦
            absurd (there'.0 (sym (v.one address (suc i) b j y q here.1 there'.1 same).0))
      ]
      | inr there ↦ elim (popped_at queues address h rest b j q split f) [
        | inl here' ↦ absurd (there.0 (v.one a i address (suc j) y q there.1 here'.1 same).0)
        | inr there' ↦ v.one a i b j y q there.1 there'.1 same
      ]
    ];
  }
    where
      front : get_elem? (queues address) 0 ≡ some h
      front = ap (λ (l : List Req). get_elem? l 0) split
