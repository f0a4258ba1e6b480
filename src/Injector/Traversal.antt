-- ===== src/Injector/Traversal.antt =====
-- ModuleTree.py: the two loops over the tree, in `inject_faults` and `dump`. The top of the stack
-- stands first.
pub mod Order
pub mod Visits
pub mod Firsts
pub mod Dumping
use chipyard_fault_injection.Common.{
  ℕ, zero, suc, Bool, true, false, ◌||◌, List, [], ◌∷◌, ◌++◌, if◌then◌else◌, Result, ok, err,
  unfinished,
}
use chipyard_fault_injection.Common.Text.{same_text}
use chipyard_fault_injection.Injector.Instances.{
  Module, Instance, Instances, module_instance, end, child, module_of, name_of, children_of,
}

-- The keys of a dict, and whether a key is in it.
abbrev pub contains_text : List (List ℕ) → List ℕ → Bool
contains_text [] x = false
contains_text (k ∷ keys) x = same_text k x || contains_text keys x

-- `stack += inst._children`.
abbrev pub push_children : Instances → List Instance → List Instance
push_children end stack = stack
push_children (child c cs) stack = push_children cs (c ∷ stack)

-- The loop of `inject_faults`: the instances whose `inject_faults` is called, in order.
unfoldable pub inject_loop :
    ℕ → List Instance → List (List ℕ) → List Instance → Result (List Instance)
inject_loop zero [] visited injected = ok injected
inject_loop zero (inst ∷ stack) visited injected = err unfinished
inject_loop (suc fuel) [] visited injected = ok injected
inject_loop (suc fuel) (inst ∷ stack) visited injected =
    let done = inject_loop fuel stack visited (injected ++ inst ∷ []) in
    let later =
      inject_loop fuel (push_children (children_of inst) (inst ∷ stack)) (name_of inst ∷ visited)
        injected in
    if contains_text visited (name_of inst) then done else later

-- Two rounds for every instance, and some more.
unfoldable mutual
  pub two_rounds : Instance → ℕ → ℕ
  two_rounds (module_instance m name faults children) more =
      suc (two_rounds_all children (suc more))

  pub two_rounds_all : Instances → ℕ → ℕ
  two_rounds_all end more = more
  two_rounds_all (child c cs) more = two_rounds_all cs (two_rounds c more)

unfoldable pub inject_order : Instance → Result (List Instance)
unfolding inject_loop two_rounds
inject_order root =
    inject_loop (two_rounds_all (children_of root) zero) (push_children (children_of root) []) [] []

-- The loop of `dump`: the text of the file.
unfoldable pub dump_loop : ℕ → List Instance → List (List ℕ) → List ℕ → Result (List ℕ)
dump_loop zero [] written text = ok text
dump_loop zero (inst ∷ stack) written text = err unfinished
dump_loop (suc fuel) [] written text = ok text
dump_loop (suc fuel) (inst ∷ stack) written text =
    let m : Module = module_of inst in
    let old = dump_loop fuel (push_children (children_of inst) stack) written text in
    let new =
      dump_loop fuel (push_children (children_of inst) stack) (m.type ∷ written)
        (text ++ m.module_text ++ 10 ∷ []) in
    if contains_text written m.type then old else new

-- A round for every instance, and some more.
unfoldable mutual
  pub one_round : Instance → ℕ → ℕ
  one_round (module_instance m name faults children) more = suc (one_round_all children more)

  pub one_round_all : Instances → ℕ → ℕ
  one_round_all end more = more
  one_round_all (child c cs) more = one_round_all cs (one_round c more)

unfoldable pub dump : Instance → Result (List ℕ)
unfolding dump_loop one_round
dump root = dump_loop (one_round root zero) (root ∷ []) [] []
