-- ===== src/Injector/Instances/Lost.antt =====
-- A fault path that leads to no instance.
use chipyard_fault_injection.Common.{
  ℕ, suc, ◌≡◌, ◌⊎◌, refl, ap, ◌∙◌, true, Option, none, some, List, [], ◌∷◌, ltb, err, exited,
  Bool-cases, inl, inr, arith, length,
}
use chipyard_fault_injection.Common.Text.{same_text}
use chipyard_fault_injection.Injector.Paths.{path_remainder}
use chipyard_fault_injection.Injector.Paths.Rendered.{
  AllNames, IsTarget, rendered, path_parts-rendered, path_remainder-rendered,
}
use chipyard_fault_injection.Injector.Instances.{
  Instance, Instances, module_instance, end, child, name_of, children_of, mark_fault, mark_child,
}
use chipyard_fault_injection.Injector.Instances.Lookup.{find_child, below, mark_child_lost}

below-lost :
    (n : List ℕ) (ns : List (List ℕ)) (t : Instance)
    → below (n ∷ ns) (some t) ≡ none
    → (find_child n (children_of t) ≡ none)
      ⊎ ((c : Instance) × (find_child n (children_of t) ≡ some c) × (below ns (some c) ≡ none))
below-lost n ns t e = go (find_child n (children_of t)) refl e
  where
    go :
        (o : Option Instance)
        → find_child n (children_of t) ≡ o
        → below ns o ≡ none
        → (find_child n (children_of t) ≡ none)
          ⊎ ((c : Instance) × (find_child n (children_of t) ≡ some c) × (below ns (some c) ≡ none))
    go none found e' = inl found
    go (some c) found e' = inr (c, found, e')

mark_child_fails :
    (name path rest : List ℕ) (cs : Instances) (c : Instance)
    → find_child name cs ≡ some c
    → path_remainder path ≡ some rest
    → mark_fault c rest ≡ err (exited 1)
    → mark_child name path cs ≡ err (exited 1)
unfolding mark_child
mark_child_fails name path rest end c found remains fails = absurd (cc)
mark_child_fails name path rest (child d cs) c found remains fails =
    elim (Bool-cases (same_text (name_of d) name)) [
      | inl here ↦
          let found' : some d ≡ some c = rw here at found in
          let same : d ≡ c = cc in
          rw (here, remains, ap (λ (t : Instance). mark_fault t rest) same ∙ fails)
      | inr later ↦
          rw (later, mark_child_fails name path rest cs c (rw later at found) remains fails)
    ]

inner_fails :
    (root n : List ℕ) (ns : List (List ℕ)) (tail : List ℕ) (t : Instance)
    → AllNames (root ∷ n ∷ ns)
    → IsTarget tail
    → mark_child n (rendered (root ∷ n ∷ ns) tail) (children_of t) ≡ err (exited 1)
    → mark_fault t (rendered (root ∷ n ∷ ns) tail) ≡ err (exited 1)
unfolding mark_fault
inner_fails root n ns tail (module_instance m name faults children) names target fails =
    let two : ltb 1 (suc (suc (length ns))) ≡ true = ground arith in
    rw (path_parts-rendered (root ∷ n ∷ ns) tail names target, two, fails)

-- A fault path whose names lead to no instance ends the script.
pub mark_fault-lost :
    (root : List ℕ) (ns : List (List ℕ)) (tail : List ℕ) (t : Instance)
    → AllNames (root ∷ ns)
    → IsTarget tail
    → below ns (some t) ≡ none
    → mark_fault t (rendered (root ∷ ns) tail) ≡ err (exited 1)
mark_fault-lost root [] tail t names target e = absurd (cc)
mark_fault-lost root (n ∷ ns) tail t names target e =
    let path : List ℕ = rendered (root ∷ n ∷ ns) tail in
    inner_fails root n ns tail t names target (elim (below-lost n ns t e) [
      | inl lost ↦ mark_child_lost n path (children_of t) lost
      | inr (c, found, further) ↦
          mark_child_fails n path (rendered (n ∷ ns) tail) (children_of t) c found
            (path_remainder-rendered root n ns tail names target)
            (mark_fault-lost n ns tail c names.1 target further)
    ])
