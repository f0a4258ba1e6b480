-- ===== src/Injector/Building/Built.antt =====
-- The tree that `setup_tree` builds.
use chipyard_fault_injection.Common.{
  ℕ, zero, suc, ◌≡◌, refl, ap₂, true, Option, none, some, List, [], ◌∷◌, ltb, leb, Result, ok,
  arith,
}
use chipyard_fault_injection.Common.Text.{codes}
use chipyard_fault_injection.Injector.Instances.{
  Module, Instance, Instances, module_instance, end, child, module_of, name_of,
}
use chipyard_fault_injection.Injector.Building.{
  possible_children, add_child, add_known, find_children, setup_tree,
}

-- The modules and names of instances.
abbrev pub entry : Instance → Module × List ℕ
entry c = (module_of c, name_of c)

abbrev pub entries : Instances → List (Module × List ℕ)
entries end = []
entries (child c cs) = entry c ∷ entries cs

abbrev pub keep : Option Module → List ℕ → List (Module × List ℕ) → List (Module × List ℕ)
keep none name known = known
keep (some m) name known = (m, name) ∷ known

module _ (all_modules : List ℕ → Option Module) where
  -- The children in a text, less those whose type is no module.
  abbrev pub known : List (List ℕ × List ℕ) → List (Module × List ℕ)
  known [] = []
  known ((type, name) ∷ pcs) = keep (all_modules type) name (known pcs)

  -- At every instance no fault is marked, and the children are those in the text of its module.
  unfoldable mutual
    pub IsBuilt : Instance → Type 0
    IsBuilt (module_instance m name faults children) =
        (faults ≡ []) × (entries children ≡ known (possible_children m)) × AllBuilt children

    pub AllBuilt : Instances → Type 0
    AllBuilt end = Unit {0}
    AllBuilt (child c cs) = IsBuilt c × AllBuilt cs

  -- The modules have a rank that falls from a module to those that it instantiates: no module
  -- instantiates itself, directly or by others.
  module _ (rank : Module → ℕ) where
    abbrev pub AllBelow : ℕ → List (Module × List ℕ) → Type 0
    AllBelow r [] = Unit {0}
    AllBelow r ((m, name) ∷ ms) = (ltb (rank m) r ≡ true) × AllBelow r ms

    abbrev pub Falls : Module → Type 0
    Falls m = AllBelow (rank m) (known (possible_children m))

    abbrev Builds : ℕ → Module → List ℕ → Type 0
    Builds depth m name =
        (t : Instance) × (find_children all_modules depth m name ≡ ok t)
        × (entry t ≡ (m, name))
        × IsBuilt t

    abbrev Adds : Result Instances → List (Module × List ℕ) → Type 0
    Adds added ms = (cs : Instances) × (added ≡ ok cs) × (entries cs ≡ ms) × AllBuilt cs

    add_child-Adds :
        (depth r : ℕ) (o : Option Module) (name : List ℕ) (later : Result Instances)
        (ms : List (Module × List ℕ))
        → ((m : Module) → o ≡ some m → ltb (rank m) depth ≡ true → Builds depth m name)
        → AllBelow r (keep o name ms)
        → leb r depth ≡ true
        → Adds later ms
        → Adds
            (add_child all_modules (find_children all_modules depth) o name later)
            (keep o name ms)
    unfolding add_child AllBuilt
    add_child-Adds depth r none name later ms builds falls deep adds = adds
    add_child-Adds depth r (some m) name later ms builds falls deep (cs, e, same, built) =
        let (t, e', same', built') = builds m refl (ground (arith, falls.0, deep)) in
        (
          child t cs,
          rw (e', e) refl,
          ap₂ (λ (x : Module × List ℕ) (xs : List (Module × List ℕ)). x ∷ xs) same' same,
          (built', built),
        )

    later_below :
        (r : ℕ) (o : Option Module) (name : List ℕ) (ms : List (Module × List ℕ))
        → AllBelow r (keep o name ms)
        → AllBelow r ms
    later_below r none name ms falls = falls
    later_below r (some m) name ms falls = falls.1

    add_known-Adds :
        (depth r : ℕ) (pcs : List (List ℕ × List ℕ))
        → ((type : List ℕ) (m : Module) (name : List ℕ)
            → all_modules type ≡ some m
            → ltb (rank m) depth ≡ true
            → Builds depth m name)
        → AllBelow r (known pcs)
        → leb r depth ≡ true
        → Adds (add_known all_modules (find_children all_modules depth) pcs) (known pcs)
    unfolding add_known AllBuilt
    add_known-Adds depth r [] builds falls deep = (end, refl, refl, tt)
    add_known-Adds depth r ((type, name) ∷ pcs) builds falls deep =
        add_child-Adds depth r (all_modules type) name
          (add_known all_modules (find_children all_modules depth) pcs) (known pcs)
          (λ m e below. builds type m name e below) falls deep
          (add_known-Adds depth r pcs builds
            (later_below r (all_modules type) name (known pcs) falls) deep)

    find_children-Builds :
        (depth : ℕ)
        → ((type : List ℕ) (m : Module) → all_modules type ≡ some m → Falls m)
        → (m : Module) (name : List ℕ) → Falls m
        → ltb (rank m) depth ≡ true
        → Builds depth m name
    unfolding find_children IsBuilt
    find_children-Builds zero all m name falls deep = absurd (ground (arith, deep))
    find_children-Builds (suc depth) all m name falls deep =
        let (cs, e, same, built) =
          add_known-Adds depth (rank m) (possible_children m)
            (λ type m name e below. find_children-Builds depth all m name (all type m e) below)
            falls (ground (arith, deep)) in
        (module_instance m name [] cs, rw e refl, refl, (refl, same, built))

    -- Where no module instantiates itself, directly or by others: setup_tree ends, within a depth of
    -- calls above the rank of the root. Its tree has the root at the top and no marked fault, and at
    -- every instance the children are those that the text of its module instantiates, in their order
    -- and with their names, less those whose type is no module.
    pub setup_tree_lem :
        (depth : ℕ) (root : Module)
        → ((type : List ℕ) (m : Module) → all_modules type ≡ some m → Falls m)
        → Falls root
        → ltb (rank root) depth ≡ true
        → (t : Instance) × (setup_tree all_modules depth root ≡ ok t)
          × (entry t ≡ (root, codes "Root"))
          × IsBuilt t
    unfolding setup_tree
    setup_tree_lem depth root all falls deep =
        find_children-Builds depth all root (codes "Root") falls deep
