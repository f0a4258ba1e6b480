-- ===== src/Injector/Traversal/Order.antt =====
-- In which order `inject_faults` comes to the instances.
use chipyard_fault_injection.Common.{
  ℕ, zero, suc, ◌≡◌, refl, ap, sym, ◌∙◌, true, false, List, [], ◌∷◌, ◌++◌, ok, arith, append_assoc,
  append-nil,
}
use chipyard_fault_injection.Injector.Instances.{
  Instance, Instances, module_instance, end, child, name_of, children_of,
}
use chipyard_fault_injection.Injector.Instances.Lookup.{same_text_self}
use chipyard_fault_injection.Injector.Traversal.{
  contains_text, push_children, inject_loop, two_rounds, two_rounds_all, inject_order,
}

-- Every instance below the root once, the children before their parent.
unfoldable mutual
  pub upwards : Instance → List Instance
  upwards (module_instance m name faults children) =
      upwards_all children ++ module_instance m name faults children ∷ []

  pub upwards_all : Instances → List Instance
  upwards_all end = []
  upwards_all (child c cs) = upwards_all cs ++ upwards c

-- The names of the instances, in front of others.
unfoldable mutual
  pub names_onto : Instance → List (List ℕ) → List (List ℕ)
  names_onto (module_instance m name faults children) names = all_names_onto children (name ∷ names)

  pub all_names_onto : Instances → List (List ℕ) → List (List ℕ)
  all_names_onto end names = names
  all_names_onto (child c cs) names = names_onto c (all_names_onto cs names)

abbrev pub Distinct : List (List ℕ) → Type 0
Distinct [] = Unit {0}
Distinct (x ∷ xs) = (contains_text xs x ≡ false) × Distinct xs

mutual
  unfolding names_onto

  -- A name that is there stays there.
  kept :
      (t : Instance) (names : List (List ℕ)) (x : List ℕ)
      → contains_text names x ≡ true
      → contains_text (names_onto t names) x ≡ true
  kept (module_instance m name faults children) names x e =
      all_kept children (name ∷ names) x (ground (arith, e))

  all_kept :
      (cs : Instances) (names : List (List ℕ)) (x : List ℕ)
      → contains_text names x ≡ true
      → contains_text (all_names_onto cs names) x ≡ true
  all_kept end names x e = e
  all_kept (child c cs) names x e = kept c (all_names_onto cs names) x (all_kept cs names x e)

mutual
  unfolding names_onto

  others_Distinct :
      (t : Instance) (names : List (List ℕ)) → Distinct (names_onto t names) → Distinct names
  others_Distinct (module_instance m name faults children) names d =
      (others_all_Distinct children (name ∷ names) d).1

  others_all_Distinct :
      (cs : Instances) (names : List (List ℕ)) → Distinct (all_names_onto cs names) → Distinct names
  others_all_Distinct end names d = d
  others_all_Distinct (child c cs) names d =
      others_all_Distinct cs names (others_Distinct c (all_names_onto cs names) d)

pub first_visit :
    (t : Instance) (fuel : ℕ) (stack : List Instance) (visited : List (List ℕ))
    (injected : List Instance)
    → contains_text visited (name_of t) ≡ false
    → inject_loop (suc fuel) (t ∷ stack) visited injected
      ≡ inject_loop fuel (push_children (children_of t) (t ∷ stack)) (name_of t ∷ visited) injected
unfolding inject_loop
first_visit t fuel stack visited injected e = rw e

pub second_visit :
    (t : Instance) (fuel : ℕ) (stack : List Instance) (visited : List (List ℕ))
    (injected : List Instance)
    → contains_text visited (name_of t) ≡ true
    → inject_loop (suc fuel) (t ∷ stack) visited injected
      ≡ inject_loop fuel stack visited (injected ++ t ∷ [])
unfolding inject_loop
second_visit t fuel stack visited injected e = rw e

mutual
  unfolding names_onto upwards two_rounds

  walk :
      (t : Instance) (fuel : ℕ) (stack : List Instance) (visited : List (List ℕ))
      (injected : List Instance)
      → Distinct (names_onto t visited)
      → inject_loop (two_rounds t fuel) (t ∷ stack) visited injected
        ≡ inject_loop fuel stack (names_onto t visited) (injected ++ upwards t)
  walk (module_instance m name faults children) fuel stack visited injected d =
      let t : Instance = module_instance m name faults children in
      let inside : List (List ℕ) = all_names_onto children (name ∷ visited) in
      let known : contains_text (name ∷ visited) name ≡ true = rw (same_text_self name) in
      first_visit t (two_rounds_all children (suc fuel)) stack visited injected
        (others_all_Distinct children (name ∷ visited) d).0
      ∙ walk_all children (suc fuel) (t ∷ stack) (name ∷ visited) injected d
      ∙ second_visit t fuel stack inside (injected ++ upwards_all children)
          (all_kept children (name ∷ visited) name known)
      ∙ ap (inject_loop fuel stack inside) (append_assoc injected (upwards_all children) (t ∷ []))

  walk_all :
      (cs : Instances) (fuel : ℕ) (stack : List Instance) (visited : List (List ℕ))
      (injected : List Instance)
      → Distinct (all_names_onto cs visited)
      → inject_loop (two_rounds_all cs fuel) (push_children cs stack) visited injected
        ≡ inject_loop fuel stack (all_names_onto cs visited) (injected ++ upwards_all cs)
  walk_all end fuel stack visited injected d =
      ap (inject_loop fuel stack visited) (sym (append-nil injected))
  walk_all (child c cs) fuel stack visited injected d =
      let visited' = all_names_onto cs visited in
      walk_all cs (two_rounds c fuel) (c ∷ stack) visited injected (others_Distinct c visited' d)
      ∙ walk c fuel stack visited' (injected ++ upwards_all cs) d
      ∙ ap (inject_loop fuel stack (all_names_onto (child c cs) visited))
          (append_assoc injected (upwards_all cs) (upwards c))

-- The names of the instances below the root.
abbrev pub names_below : Instance → List (List ℕ)
names_below root = all_names_onto (children_of root) []

pub inject_loop-empty :
    (fuel : ℕ) (visited : List (List ℕ)) (injected : List Instance)
    → inject_loop fuel [] visited injected ≡ ok injected
unfolding inject_loop
inject_loop-empty zero visited injected = refl
inject_loop-empty (suc fuel) visited injected = refl

-- Where the instances below the root have different names, the loop of `inject_faults` ends, and comes to
-- each of them once, to the children before their parent.
pub inject_order_lem :
    (root : Instance)
    → Distinct (names_below root)
    → inject_order root ≡ ok (upwards_all (children_of root))
unfolding inject_order
inject_order_lem root d =
    walk_all (children_of root) zero [] [] [] d
    ∙ inject_loop-empty zero (names_below root) (upwards_all (children_of root))
