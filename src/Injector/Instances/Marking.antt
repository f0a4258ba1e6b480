-- ===== src/Injector/Instances/Marking.antt =====
-- What `mark_fault` leaves in the tree.
use chipyard_fault_injection.Common.{
  if_true, if_false, ℕ, suc, ◌≡◌, refl, ap, ap₂, sym, ◌∙◌, true, Option, none, some, List, [], ◌∷◌,
  ◌++◌, ltb, if◌then◌else◌, ok, Bool-cases, inl, inr, arith, length,
}
use chipyard_fault_injection.Common.Text.{same_text}
use chipyard_fault_injection.Injector.Paths.Rendered.{
  AllNames, IsTarget, rendered, path_parts-rendered, path_remainder-rendered,
}
use chipyard_fault_injection.Injector.Instances.{
  Module, Instance, Instances, module_instance, name_of, children_of, faulty_child_paths,
  mark_fault, mark_child,
}
use chipyard_fault_injection.Injector.Instances.Lookup.{
  same_text-eq, find_child, below, replace_child, mark_child_found, name_of-find_child,
  find_child-replace_child,
}

abbrev pub faults_of : Option Instance → Option (List (List ℕ))
faults_of none = none
faults_of (some t) = some (faulty_child_paths t)

-- The fault paths at the instance that `names` lead to.
abbrev pub faults_at : List (List ℕ) → Instance → Option (List (List ℕ))
faults_at names t = faults_of (below names (some t))

-- What a fault path leaves at the instance that `p` leads to: the part of the path from there on,
-- where the path passes it.
abbrev pub left_at : List (List ℕ) → List ℕ → List (List ℕ) → List ℕ → Option (List ℕ)
left_at [] root ns tail = some (rendered (root ∷ ns) tail)
left_at (q ∷ p) root [] tail = none
left_at (q ∷ p) root (n ∷ ns) tail = if same_text n q then left_at p n ns tail else none

abbrev pub appended : Option (List ℕ) → Option (List (List ℕ)) → Option (List (List ℕ))
appended none faults = faults
appended (some path) none = none
appended (some path) (some faults) = some (faults ++ path ∷ [])

-- The tree after a fault was marked.
abbrev pub Marked : List ℕ → List (List ℕ) → List ℕ → Instance → Instance → Type 0
Marked root ns tail t t' =
    (name_of t' ≡ name_of t)
    × ((p : List (List ℕ)) → faults_at p t' ≡ appended (left_at p root ns tail) (faults_at p t))

mark_fault-inner :
    (root n : List ℕ) (ns : List (List ℕ)) (tail : List ℕ) (t : Instance) (cs : Instances)
    → AllNames (root ∷ n ∷ ns)
    → IsTarget tail
    → mark_child n (rendered (root ∷ n ∷ ns) tail) (children_of t) ≡ ok cs
    → (t' : Instance) × (mark_fault t (rendered (root ∷ n ∷ ns) tail) ≡ ok t')
      × (name_of t' ≡ name_of t)
      × (faulty_child_paths t' ≡ faulty_child_paths t ++ rendered (root ∷ n ∷ ns) tail ∷ [])
      × (children_of t' ≡ cs)
unfolding mark_fault
mark_fault-inner root n ns tail (module_instance m name faults children) cs names target marked =
    let two : ltb 1 (suc (suc (length ns))) ≡ true = ground arith in
    (
      module_instance m name (faults ++ rendered (root ∷ n ∷ ns) tail ∷ []) cs,
      rw (path_parts-rendered (root ∷ n ∷ ns) tail names target, two, marked),
      refl,
      refl,
      refl,
    )

marks_here :
    (root tail : List ℕ) (m : Module) (name : List ℕ) (faults : List (List ℕ))
    (children : Instances) (p : List (List ℕ))
    → faults_at p (module_instance m name (faults ++ rendered (root ∷ []) tail ∷ []) children)
      ≡ appended (left_at p root [] tail) (faults_at p (module_instance m name faults children))
marks_here root tail m name faults children [] = refl
marks_here root tail m name faults children (q ∷ p) = refl

mark_fault-last :
    (root tail : List ℕ) (t : Instance)
    → AllNames (root ∷ [])
    → IsTarget tail
    → (t' : Instance) × (mark_fault t (rendered (root ∷ []) tail) ≡ ok t')
      × Marked root [] tail t t'
unfolding mark_fault
mark_fault-last root tail (module_instance m name faults children) names target =
    let t : Instance = module_instance m name faults children in
    let t' : Instance =
      module_instance m name (faults ++ rendered (root ∷ []) tail ∷ []) children in
    (
      t',
      rw (path_parts-rendered (root ∷ []) tail names target),
      (refl, marks_here root tail m name faults children),
    )

-- The names reach an instance through a first child.
below-child :
    (n : List ℕ) (ns : List (List ℕ)) (t u : Instance)
    → below (n ∷ ns) (some t) ≡ some u
    → (c : Instance) × (find_child n (children_of t) ≡ some c) × (below ns (some c) ≡ some u)
below-child n ns t u e = go (find_child n (children_of t)) refl e
  where
    go :
        (o : Option Instance)
        → find_child n (children_of t) ≡ o
        → below ns o ≡ some u
        → (c : Instance) × (find_child n (children_of t) ≡ some c) × (below ns (some c) ≡ some u)
    go none found e' = absurd (ground arith)
    go (some c) found e' = (c, found, e')

marks_below :
    (root n : List ℕ) (ns : List (List ℕ)) (tail : List ℕ) (t t' c c' : Instance)
    → find_child n (children_of t) ≡ some c
    → faulty_child_paths t' ≡ faulty_child_paths t ++ rendered (root ∷ n ∷ ns) tail ∷ []
    → ((q : List ℕ)
        → find_child q (children_of t')
          ≡ (if same_text n q then some c' else find_child q (children_of t)))
    → ((p : List (List ℕ)) → faults_at p c' ≡ appended (left_at p n ns tail) (faults_at p c))
    → (p : List (List ℕ)) → faults_at p t' ≡ appended (left_at p root (n ∷ ns) tail) (faults_at p t)
marks_below root n ns tail t t' c c' found faults_t replaced at_c [] =
    ap (λ (l : List (List ℕ)). some l) faults_t
marks_below root n ns tail t t' c c' found faults_t replaced at_c (q ∷ p) =
    let seen = λ (o : Option Instance). faults_of (below p o) in
    elim (Bool-cases (same_text n q)) [
      | inl here ↦
          let there : find_child q (children_of t) ≡ some c =
            ap (λ (x : List ℕ). find_child x (children_of t)) (sym (same_text-eq n q here))
            ∙ found in
          let marked : find_child q (children_of t') ≡ some c' =
            replaced q ∙ if_true here (some c') (find_child q (children_of t)) in
          ap seen marked
          ∙ at_c p
          ∙ ap₂ appended (sym (if_true here (left_at p n ns tail) none)) (sym (ap seen there))
      | inr aside ↦
          ap seen (replaced q ∙ if_false aside (some c') (find_child q (children_of t)))
          ∙ ap (λ (mark : Option (List ℕ)). appended mark (faults_at (q ∷ p) t))
              (sym (if_false aside (left_at p n ns tail) none))
    ]

-- A fault path whose names below the root lead to an instance is marked: every instance on the way,
-- and no other, gets the part of the path from itself on behind the fault paths that it had.
pub mark_fault-marks :
    (root : List ℕ) (ns : List (List ℕ)) (tail : List ℕ) (t u : Instance)
    → AllNames (root ∷ ns)
    → IsTarget tail
    → below ns (some t) ≡ some u
    → (t' : Instance) × (mark_fault t (rendered (root ∷ ns) tail) ≡ ok t')
      × Marked root ns tail t t'
mark_fault-marks root [] tail t u names target e = mark_fault-last root tail t names target
mark_fault-marks root (n ∷ ns) tail t u names target e =
    let (c, found, further) = below-child n ns t u e in
    let (c', marked, (named, at_c)) = mark_fault-marks n ns tail c u names.1 target further in
    let path : List ℕ = rendered (root ∷ n ∷ ns) tail in
    let remains = path_remainder-rendered root n ns tail names target in
    let (t', et, name_t, faults_t, children_t) =
      mark_fault-inner root n ns tail t (replace_child n c' (children_of t)) names target (
        mark_child_found n path (rendered (n ∷ ns) tail) (children_of t) c c' found remains
          marked) in
    let replaced = λ (q : List ℕ).
      ap (find_child q) children_t
      ∙ find_child-replace_child n q (children_of t) c c' found
          (named ∙ name_of-find_child n (children_of t) c found) in
    (t', et, (name_t, marks_below root n ns tail t t' c c' found faults_t replaced at_c))
