-- ===== src/Injector/Traversal/Visits.antt =====
-- The loop of `inject_faults` on any tree: it ends, and passes over the children of an instance whose
-- name it has met before.
use chipyard_fault_injection.Common.{
  ℕ, zero, suc, ◌≡◌, ap, sym, ◌∙◌, true, List, [], ◌∷◌, ◌++◌, if◌then◌else◌, ok, arith,
  append_assoc, append-nil, Bool-cases, inl, inr,
}
use chipyard_fault_injection.Injector.Instances.{
  Instance, Instances, module_instance, end, child, name_of, children_of,
}
use chipyard_fault_injection.Injector.Instances.Lookup.{same_text_self}
use chipyard_fault_injection.Injector.Traversal.{
  contains_text, push_children, inject_loop, two_rounds, two_rounds_all, inject_order,
}
use chipyard_fault_injection.Injector.Traversal.Order.{first_visit, second_visit, inject_loop-empty}

-- The names that were met after an instance, and the instances that are injected at it.
unfoldable mutual
  pub met_at : List (List ℕ) → Instance → List (List ℕ)
  met_at met (module_instance m name faults children) =
      if contains_text met name then met else met_at_all (name ∷ met) children

  pub met_at_all : List (List ℕ) → Instances → List (List ℕ)
  met_at_all met end = met
  met_at_all met (child c cs) = met_at (met_at_all met cs) c

unfoldable mutual
  pub injected_at : List (List ℕ) → Instance → List Instance
  injected_at met (module_instance m name faults children) =
      let t : Instance = module_instance m name faults children in
      if contains_text met name then t ∷ [] else injected_at_all (name ∷ met) children ++ t ∷ []

  pub injected_at_all : List (List ℕ) → Instances → List Instance
  injected_at_all met end = []
  injected_at_all met (child c cs) = injected_at_all met cs ++ injected_at (met_at_all met cs) c

mutual
  unfolding met_at

  still_met :
      (t : Instance) (met : List (List ℕ)) (x : List ℕ)
      → contains_text met x ≡ true
      → contains_text (met_at met t) x ≡ true
  still_met (module_instance m name faults children) met x e =
      elim (Bool-cases (contains_text met name)) [
        | inl again ↦ rw again e
        | inr new ↦ rw new (all_still_met children (name ∷ met) x (ground (arith, e)))
      ]

  all_still_met :
      (cs : Instances) (met : List (List ℕ)) (x : List ℕ)
      → contains_text met x ≡ true
      → contains_text (met_at_all met cs) x ≡ true
  all_still_met end met x e = e
  all_still_met (child c cs) met x e = still_met c (met_at_all met cs) x (all_still_met cs met x e)

no_fuel :
    (t : Instance) (stack : List Instance) (met : List (List ℕ)) (injected r : List Instance)
    → inject_loop zero (t ∷ stack) met injected ≡ ok r
    → ⊥
unfolding inject_loop
no_fuel t stack met injected r e = cc

-- More fuel changes no result.
one_more :
    (fuel : ℕ) (stack : List Instance) (met : List (List ℕ)) (injected r : List Instance)
    → inject_loop fuel stack met injected ≡ ok r
    → inject_loop (suc fuel) stack met injected ≡ ok r
one_more fuel [] met injected r e =
    inject_loop-empty (suc fuel) met injected ∙ sym (inject_loop-empty fuel met injected) ∙ e
one_more zero (t ∷ stack) met injected r e = absurd (no_fuel t stack met injected r e)
one_more (suc fuel) (t ∷ stack) met injected r e =
    elim (Bool-cases (contains_text met (name_of t))) [
      | inl again ↦
          second_visit t (suc fuel) stack met injected again
          ∙ one_more fuel stack met (injected ++ t ∷ []) r
              (sym (second_visit t fuel stack met injected again) ∙ e)
      | inr new ↦
          first_visit t (suc fuel) stack met injected new
          ∙ one_more fuel (push_children (children_of t) (t ∷ stack)) (name_of t ∷ met) injected r
              (sym (first_visit t fuel stack met injected new) ∙ e)
    ]

mutual
  unfolding two_rounds

  more :
      (t : Instance) (fuel : ℕ) (stack : List Instance) (met : List (List ℕ))
      (injected r : List Instance)
      → inject_loop fuel stack met injected ≡ ok r
      → inject_loop (two_rounds t fuel) stack met injected ≡ ok r
  more (module_instance m name faults children) fuel stack met injected r e =
      one_more (two_rounds_all children (suc fuel)) stack met injected r
        (all_more children (suc fuel) stack met injected r (one_more fuel stack met injected r e))

  all_more :
      (cs : Instances) (fuel : ℕ) (stack : List Instance) (met : List (List ℕ))
      (injected r : List Instance)
      → inject_loop fuel stack met injected ≡ ok r
      → inject_loop (two_rounds_all cs fuel) stack met injected ≡ ok r
  all_more end fuel stack met injected r e = e
  all_more (child c cs) fuel stack met injected r e =
      all_more cs (two_rounds c fuel) stack met injected r (more c fuel stack met injected r e)

mutual
  unfolding two_rounds met_at injected_at

  visit :
      (t : Instance) (fuel : ℕ) (stack : List Instance) (met : List (List ℕ))
      (injected r : List Instance)
      → inject_loop fuel stack (met_at met t) (injected ++ injected_at met t) ≡ ok r
      → inject_loop (two_rounds t fuel) (t ∷ stack) met injected ≡ ok r
  visit (module_instance m name faults children) fuel stack met injected r e =
      let t : Instance = module_instance m name faults children in
      elim (Bool-cases (contains_text met name)) [
        | inl again ↦
            second_visit t (two_rounds_all children (suc fuel)) stack met injected again
            ∙ all_more children (suc fuel) stack met (injected ++ t ∷ []) r
                (one_more fuel stack met (injected ++ t ∷ []) r (rw again at e))
        | inr new ↦
            let met' = met_at_all (name ∷ met) children in
            let done = injected_at_all (name ∷ met) children in
            let known : contains_text (name ∷ met) name ≡ true = rw (same_text_self name) in
            first_visit t (two_rounds_all children (suc fuel)) stack met injected new
            ∙ visit_all children (suc fuel) (t ∷ stack) (name ∷ met) injected r (
                second_visit t fuel stack met' (injected ++ done)
                  (all_still_met children (name ∷ met) name known)
                ∙ ap (inject_loop fuel stack met') (append_assoc injected done (t ∷ []))
                ∙ (rw new at e))
      ]

  visit_all :
      (cs : Instances) (fuel : ℕ) (stack : List Instance) (met : List (List ℕ))
      (injected r : List Instance)
      → inject_loop fuel stack (met_at_all met cs) (injected ++ injected_at_all met cs) ≡ ok r
      → inject_loop (two_rounds_all cs fuel) (push_children cs stack) met injected ≡ ok r
  visit_all end fuel stack met injected r e =
      ap (inject_loop fuel stack met) (sym (append-nil injected)) ∙ e
  visit_all (child c cs) fuel stack met injected r e =
      let met' = met_at_all met cs in
      visit_all cs (two_rounds c fuel) (c ∷ stack) met injected r (
        visit c fuel stack met' (injected ++ injected_at_all met cs) r (
          ap (inject_loop fuel stack (met_at met' c))
            (append_assoc injected (injected_at_all met cs) (injected_at met' c))
          ∙ e))

-- On every tree the loop of `inject_faults` ends. It comes to the last child first, and to the children of an
-- instance before the instance; but at an instance whose name it has met before, it passes over the
-- children.
pub inject_order_any :
    (root : Instance) → inject_order root ≡ ok (injected_at_all [] (children_of root))
unfolding inject_order
inject_order_any root =
    visit_all (children_of root) zero [] [] [] (injected_at_all [] (children_of root)) (
      inject_loop-empty zero (met_at_all [] (children_of root))
        (injected_at_all [] (children_of root)))
