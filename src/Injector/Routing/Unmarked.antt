-- ===== src/Injector/Routing/Unmarked.antt =====
-- A tree in which no fault is marked yet.
use chipyard_fault_injection.Common.Text.{same_text}
use chipyard_fault_injection.Common.{
  Bool, true, false, ◌&&◌, Bool-cases, arith, ℕ, ◌≡◌, ap, sym, ◌∙◌, Option, none, some, List, [],
  ◌∷◌, ◌++◌, inl, inr, Option-cases,
}
use chipyard_fault_injection.Injector.Instances.{
  Instance, Instances, module_instance, end, child, name_of,
}
use chipyard_fault_injection.Injector.Instances.Lookup.{below, find_child}
use chipyard_fault_injection.Injector.Instances.Marking.{faults_of, faults_at}
use chipyard_fault_injection.Injector.Routing.Agreement.{Consistent}

-- No fault is marked yet.
abbrev pub no_path : List (List ℕ) → Bool
no_path [] = true
no_path (path ∷ paths) = false

unfoldable mutual
  pub is_unmarked : Instance → Bool
  is_unmarked (module_instance m name faults children) = no_path faults && all_unmarked children

  pub all_unmarked : Instances → Bool
  all_unmarked end = true
  all_unmarked (child c cs) = is_unmarked c && all_unmarked cs

unmarked_child :
    (name : List ℕ) (cs : Instances) (c : Instance)
    → all_unmarked cs ≡ true
    → find_child name cs ≡ some c
    → is_unmarked c ≡ true
unfolding is_unmarked
unmarked_child name end c clean found = absurd (cc)
unmarked_child name (child d cs) c clean found = elim (Bool-cases (same_text (name_of d) name)) [
  | inl here ↦
      let found' : some d ≡ some c = rw here at found in
      let same : d ≡ c = cc in ap is_unmarked (sym same) ∙ ground (arith, clean)
  | inr later ↦ unmarked_child name cs c (ground (arith, clean)) (rw later at found)
]

unmarked_below :
    (p : List (List ℕ)) (t : Instance) (fs : List (List ℕ))
    → is_unmarked t ≡ true
    → faults_at p t ≡ some fs
    → fs ≡ []
unfolding is_unmarked
unmarked_below [] (module_instance m name [] children) fs clean e = sym (cc)
unmarked_below [] (module_instance m name (path ∷ faults) children) fs clean e =
    absurd (ground (arith, clean))
unmarked_below (q ∷ p) (module_instance m name faults children) fs clean e =
    elim (Option-cases (find_child q children)) [
      | inl lost ↦
          let clash : ◌≡◌ {A = Option (List (List ℕ))} none (some fs) =
            ap (λ (o : Option Instance). faults_of (below p o)) (sym lost) ∙ e in
          absurd (cc)
      | inr (c, found) ↦
          unmarked_below p c fs (unmarked_child q children c (ground (arith, clean)) found)
            (ap (λ (o : Option Instance). faults_of (below p o)) (sym found) ∙ e)
    ]

pub unmarked-Consistent : (t : Instance) → is_unmarked t ≡ true → Consistent t
unmarked-Consistent t clean = record {
  agree = λ p name fs gs at_p at_child.
      rw (unmarked_below p t fs clean at_p, unmarked_below (p ++ name ∷ []) t gs clean at_child);
  named = λ p fs at_p. rw (unmarked_below p t fs clean at_p) tt;
}
