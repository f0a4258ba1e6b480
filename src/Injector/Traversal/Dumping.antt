-- ===== src/Injector/Traversal/Dumping.antt =====
-- What `dump` writes.
use chipyard_fault_injection.Common.{
  ℕ, zero, suc, ◌≡◌, refl, ap, ap₂, sym, ◌∙◌, true, List, [], ◌∷◌, ◌++◌, ok, append_assoc,
  append-nil, Bool-cases, inl, inr,
}
use chipyard_fault_injection.Injector.Instances.{
  Module, Instance, Instances, module_instance, end, child, module_of, children_of,
}
use chipyard_fault_injection.Injector.Traversal.{
  contains_text, push_children, dump_loop, one_round, one_round_all, dump,
}
use chipyard_fault_injection.Injector.Traversal.Order.{Distinct}
use chipyard_fault_injection.Injector.Traversal.Firsts.{
  firsts, seen_after, file_of, seen_after-append, grown, types, IsIn, firsts-Distinct, firsts_cover,
}

-- The modules of the instances, a parent before its children, the last child first.
unfoldable mutual
  pub downwards : Instance → List Module
  downwards (module_instance m name faults children) = m ∷ downwards_all children

  pub downwards_all : Instances → List Module
  downwards_all end = []
  downwards_all (child c cs) = downwards_all cs ++ downwards c

-- One round of the loop.
round_lem :
    (t : Instance) (fuel : ℕ) (stack : List Instance) (written : List (List ℕ)) (text : List ℕ)
    → dump_loop (suc fuel) (t ∷ stack) written text
      ≡ dump_loop fuel
          (push_children (children_of t) stack)
          (seen_after written (module_of t ∷ []))
          (text ++ file_of (firsts written (module_of t ∷ [])))
unfolding dump_loop
round_lem t fuel stack written text = elim (Bool-cases (contains_text written (module_of t).type)) [
  | inl e ↦ rw (e, append-nil text)
  | inr e ↦ rw e (
      ap (dump_loop fuel (push_children (children_of t) stack) ((module_of t).type ∷ written))
        (append_assoc text (module_of t).module_text (10 ∷ [])))
]

mutual
  unfolding downwards one_round

  scan :
      (t : Instance) (fuel : ℕ) (stack : List Instance) (written : List (List ℕ)) (text : List ℕ)
      → dump_loop (one_round t fuel) (t ∷ stack) written text
        ≡ dump_loop fuel stack
            (seen_after written (downwards t))
            (text ++ file_of (firsts written (downwards t)))
  scan (module_instance m name faults children) fuel stack written text =
      let here : List (List ℕ) = seen_after written (m ∷ []) in
      let text' : List ℕ = text ++ file_of (firsts written (m ∷ [])) in
      round_lem (module_instance m name faults children) (one_round_all children fuel) stack written
        text
      ∙ scan_all children fuel stack here text'
      ∙ ap₂ (dump_loop fuel stack)
          (sym (seen_after-append (m ∷ []) (downwards_all children) written))
          (grown (m ∷ []) (downwards_all children) written text)

  scan_all :
      (cs : Instances) (fuel : ℕ) (stack : List Instance) (written : List (List ℕ)) (text : List ℕ)
      → dump_loop (one_round_all cs fuel) (push_children cs stack) written text
        ≡ dump_loop fuel stack
            (seen_after written (downwards_all cs))
            (text ++ file_of (firsts written (downwards_all cs)))
  scan_all end fuel stack written text = ap (dump_loop fuel stack written) (sym (append-nil text))
  scan_all (child c cs) fuel stack written text =
      scan_all cs (one_round c fuel) (c ∷ stack) written text
      ∙ scan c fuel stack (seen_after written (downwards_all cs))
          (text ++ file_of (firsts written (downwards_all cs)))
      ∙ ap₂ (dump_loop fuel stack)
          (sym (seen_after-append (downwards_all cs) (downwards c) written))
          (grown (downwards_all cs) (downwards c) written text)

dump_loop-empty :
    (fuel : ℕ) (written : List (List ℕ)) (text : List ℕ) → dump_loop fuel [] written text ≡ ok text
unfolding dump_loop
dump_loop-empty zero written text = refl
dump_loop-empty (suc fuel) written text = refl

-- `dump` ends, on every tree. It writes modules whose types are different, each followed by a line end:
-- of every type that an instance has, the module of the first instance of that type, where a parent comes
-- before its children and the last child comes first.
pub dump_lem :
    (root : Instance)
    → (dump root ≡ ok (file_of (firsts [] (downwards root))))
      × Distinct (types (firsts [] (downwards root)))
      × ((m : Module)
          → IsIn m (downwards root)
          → contains_text (types (firsts [] (downwards root))) m.type ≡ true)
unfolding dump
dump_lem root = (
  scan root zero [] [] []
      ∙ dump_loop-empty zero (seen_after [] (downwards root))
          (file_of (firsts [] (downwards root))),
  firsts-Distinct (downwards root) [],
  λ m here. firsts_cover (downwards root) [] m here,
)
