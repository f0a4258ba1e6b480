-- ===== src/Injector/Routing/Numbers.antt =====
-- The numbers that `inject_faults` collects for a child are those of the paths that go to it.
use chipyard_fault_injection.Common.{
  ℕ, ◌+◌, ◌≡◌, refl, ap, sym, ◌∙◌, true, false, Option, none, some, List, [], ◌∷◌, ◌++◌, map, ◌==◌,
  if◌then◌else◌, ok, Bool-cases, inl, inr, arith, length, get_elem?, append_assoc, append-nil,
  length-append,
}
use chipyard_fault_injection.Common.Text.{same_text}
use chipyard_fault_injection.Injector.Paths.{path_parts, path_remainder}
use chipyard_fault_injection.Injector.Instances.Lookup.{same_text-eq, different}
use chipyard_fault_injection.Injector.Routing.{
  ChildFaults, add_fault, group_fault, group_faults, child_faults,
}
use chipyard_fault_injection.Injector.Routing.Agreement.{second_is, handed, has_name, AllNamed}

-- The numbers that stand for a child, and those of the paths that go to it, counted from `i` on.
abbrev pub numbers_for : List ℕ → ChildFaults → List ℕ
numbers_for name [] = []
numbers_for name ((n, numbers) ∷ faults) =
    if same_text n name then numbers else numbers_for name faults

abbrev pub numbers_of : List ℕ → ℕ → List (List ℕ) → List ℕ
numbers_of name i [] = []
numbers_of name i (path ∷ paths) =
    if second_is name (path_parts path)
    then i ∷ numbers_of name (i + 1) paths
    else numbers_of name (i + 1) paths

numbers_for-add_fault :
    (name b : List ℕ) (i : ℕ) (d : ChildFaults)
    → numbers_for name (add_fault b i d)
      ≡ (if same_text b name then numbers_for name d ++ i ∷ [] else numbers_for name d)
unfolding add_fault
numbers_for-add_fault name b i [] = refl
numbers_for-add_fault name b i ((n, numbers) ∷ d) = elim (Bool-cases (same_text n b)) [
  | inl e ↦
      let same : n ≡ b = same_text-eq n b e in
      rw (e, same) (elim (Bool-cases (same_text b name)) [ inl f ↦ rw f refl | inr f ↦ rw f refl ])
  | inr e ↦ elim (Bool-cases (same_text n name)) [
    | inl f ↦
        let apart : same_text b name ≡ false = rw (same_text-eq n name f) at (different n b e) in
        rw (e, f, apart)
    | inr f ↦ rw (e, f) (numbers_for-add_fault name b i d)
  ]
]

abbrev grouped_by : List (List ℕ) → ℕ → ChildFaults → ChildFaults
grouped_by [] i d = d
grouped_by (a ∷ []) i d = d
grouped_by (a ∷ b ∷ parts) i d = add_fault b i d

group_fault-ok :
    (path : List ℕ) (i : ℕ) (d : ChildFaults) (parts : List (List ℕ))
    → path_parts path ≡ parts
    → has_name parts ≡ true
    → group_fault path i d ≡ ok (grouped_by parts i d)
unfolding group_fault
group_fault-ok path i d [] e h = absurd (cc)
group_fault-ok path i d (a ∷ []) e h = rw e
group_fault-ok path i d (a ∷ b ∷ parts) e h =
    let more : length (a ∷ b ∷ parts) == 1 ≡ false = ground arith in rw (e, more)

numbers_for-grouped_by :
    (name : List ℕ) (parts : List (List ℕ)) (i : ℕ) (d : ChildFaults)
    → numbers_for name (grouped_by parts i d)
      ≡ numbers_for name d ++ (if second_is name parts then i ∷ [] else [])
numbers_for-grouped_by name [] i d = sym (append-nil (numbers_for name d))
numbers_for-grouped_by name (a ∷ []) i d = sym (append-nil (numbers_for name d))
numbers_for-grouped_by name (a ∷ b ∷ parts) i d =
    numbers_for-add_fault name b i d ∙ elim (Bool-cases (same_text b name)) [
      | inl e ↦ rw e refl
      | inr e ↦ rw e (sym (append-nil (numbers_for name d)))
    ]

-- The loop returns, and adds for every child the numbers of the paths that go to it.
group_faults-numbers :
    (paths : List (List ℕ)) (i : ℕ) (d : ChildFaults)
    → AllNamed paths
    → (d' : ChildFaults) × (group_faults i paths d ≡ ok d')
      × ((name : List ℕ) → numbers_for name d' ≡ numbers_for name d ++ numbers_of name i paths)
unfolding group_faults
group_faults-numbers [] i d named = (d, refl, λ name. sym (append-nil (numbers_for name d)))
group_faults-numbers (path ∷ paths) i d named =
    let parts = path_parts path in
    let next = grouped_by parts i d in
    let (d', e, adds) = group_faults-numbers paths (i + 1) next named.1 in
    (
      d',
      rw (group_fault-ok path i d parts refl named.0) e,
      λ name.
          adds name
          ∙ ap (λ (l : List ℕ). l ++ numbers_of name (i + 1) paths)
              (numbers_for-grouped_by name parts i d)
          ∙ append_assoc (numbers_for name d) (if second_is name parts then i ∷ [] else [])
              (numbers_of name (i + 1) paths)
          ∙ ap (λ (l : List ℕ). numbers_for name d ++ l)
              (elim (Bool-cases (second_is name parts)) [ inl f ↦ rw f refl | inr f ↦ rw f refl ]),
    )

pub child_faults-numbers :
    (paths : List (List ℕ))
    → AllNamed paths
    → (d : ChildFaults) × (child_faults paths ≡ ok d)
      × ((name : List ℕ) → numbers_for name d ≡ numbers_of name 0 paths)
unfolding child_faults
child_faults-numbers paths named = group_faults-numbers paths 0 [] named

-- What is left of the path of a number.
abbrev pub left_of : Option (List ℕ) → Option (List ℕ)
left_of none = none
left_of (some path) = path_remainder path

get_elem?-behind :
    (xs : List (List ℕ)) (x : List ℕ) (ys : List (List ℕ))
    → get_elem? (xs ++ x ∷ ys) (length xs) ≡ some x
get_elem?-behind [] x ys = refl
get_elem?-behind (y ∷ xs) x ys = get_elem?-behind xs x ys

left_of-numbers :
    (name : List ℕ) (before paths : List (List ℕ))
    → map
        (λ (i : ℕ). left_of (get_elem? (before ++ paths) i))
        (numbers_of name (length before) paths)
      ≡ handed name paths
left_of-numbers name before [] = refl
left_of-numbers name before (path ∷ paths) =
    let whole : (before ++ path ∷ []) ++ paths ≡ before ++ path ∷ paths =
      append_assoc before (path ∷ []) paths in
    let more : length (before ++ path ∷ []) ≡ length before + 1 =
      length-append before (path ∷ []) ∙ omega arith in
    let rest = rw (whole, more) at (left_of-numbers name (before ++ path ∷ []) paths) in
    elim (Bool-cases (second_is name (path_parts path))) [
      | inl e ↦
          rw (e, get_elem?-behind before path paths)
            (ap (λ (l : List (Option (List ℕ))). path_remainder path ∷ l) rest)
      | inr e ↦ rw e rest
    ]

pub left_of-child_faults :
    (name : List ℕ) (paths : List (List ℕ))
    → map (λ (i : ℕ). left_of (get_elem? paths i)) (numbers_of name 0 paths) ≡ handed name paths
left_of-child_faults name paths = left_of-numbers name [] paths
