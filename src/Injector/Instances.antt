-- ===== src/Injector/Instances.antt =====
-- ModuleInstance.py: the tree of the module instances, and `mark_fault`.
pub mod Lookup
pub mod Marking
pub mod Lost
use chipyard_fault_injection.Common.{
  ℕ, ◌==◌, Option, none, some, List, [], ◌∷◌, ◌++◌, ltb, if◌then◌else◌, Result, ok, err, ◌>>=◌,
  out_of_range, exited, length, get_or,
}
use chipyard_fault_injection.Common.Text.{same_text}
use chipyard_fault_injection.Injector.Paths.{path_parts, path_remainder}

-- A module's type and its text in Verilog.
pub record Module : Type 0 where
  pub type : List ℕ
  pub module_text : List ℕ

-- An instance: its module, its name, the fault paths that lead through it, and its children. The
-- link to the parent is its place in the tree.
mutual
  pub data Instance : Type 0 where
    module_instance : Module → List ℕ → List (List ℕ) → Instances → Instance

  pub data Instances : Type 0 where
    end : Instances
    child : Instance → Instances → Instances

abbrev pub module_of : Instance → Module
module_of (module_instance m name faults children) = m

abbrev pub name_of : Instance → List ℕ
name_of (module_instance m name faults children) = name

abbrev pub faulty_child_paths : Instance → List (List ℕ)
faulty_child_paths (module_instance m name faults children) = faults

abbrev pub children_of : Instance → Instances
children_of (module_instance m name faults children) = children

-- `xs[0]`, of a list that may be empty: an IndexError stops the script.
abbrev pub first {ℓ} : {A : Type ℓ} → Option A → Result A
first none = err out_of_range
first (some x) = ok x

-- `mark_fault`, and its loop over the children with the `else` for a child that is not there.
unfoldable mutual
  unfolding path_parts path_remainder

  pub mark_fault : Instance → List ℕ → Result Instance
  mark_fault (module_instance m name faults children) path =
      let parts = path_parts path in
      let below = mark_child (get_or parts 1 []) path children in
      if ltb 1 (length parts)
      then (do children ← below; ok (module_instance m name (faults ++ path ∷ []) children))
      else if length parts == 0
      then err (exited 1)
      else ok (module_instance m name (faults ++ path ∷ []) children)

  pub mark_child : List ℕ → List ℕ → Instances → Result Instances
  mark_child child_name path end = err (exited 1)
  mark_child child_name path (child c cs) =
      let here = (do rest ← first (path_remainder path); c ← mark_fault c rest; ok (child c cs)) in
      let later = (do cs ← mark_child child_name path cs; ok (child c cs)) in
      if same_text (name_of c) child_name then here else later

-- Several calls of `mark_fault` on the root, as in main.py.
unfoldable pub mark_faults : Instance → List (List ℕ) → Result Instance
unfolding mark_fault
mark_faults t [] = ok t
mark_faults t (path ∷ paths) = do t ← mark_fault t path; mark_faults t paths
