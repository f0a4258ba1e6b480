-- ===== src/Injector/Routing.antt =====
-- ModuleInstance.py, `inject_faults`: which faults of an instance go to which child, and the ports by
-- which they go.
pub mod Agreement
pub mod Numbers
pub mod Unmarked
pub mod Routed
use chipyard_fault_injection.Common.{
  ℕ, suc, ◌+◌, ◌-◌, ◌==◌, Option, none, some, List, [], ◌∷◌, ◌++◌, ltb, if◌then◌else◌, Result, ok,
  err, ◌>>=◌, out_of_range, length, get_elem?,
}
use chipyard_fault_injection.Common.Text.{codes, same_text, take, decimal}
use chipyard_fault_injection.Injector.Paths.{path_parts}
use chipyard_fault_injection.Injector.Instances.{first}

-- `child_faults`: the numbers of the faults of each child, by its name, in the order of the names.
abbrev pub ChildFaults : Type 0
ChildFaults = List (List ℕ × List ℕ)

unfoldable pub add_fault : List ℕ → ℕ → ChildFaults → ChildFaults
add_fault child_name i [] = (child_name, i ∷ []) ∷ []
add_fault child_name i ((name, numbers) ∷ faults) =
    let later = add_fault child_name i faults in
    if same_text name child_name
    then (name, numbers ++ i ∷ []) ∷ faults
    else (name, numbers) ∷ later

-- The loop over `enumerate(self._faulty_child_paths)`; a path with one name is a fault in this
-- module.
unfoldable pub group_fault : List ℕ → ℕ → ChildFaults → Result ChildFaults
group_fault path i faults =
    if length (path_parts path) == 1
    then ok faults
    else (do child_name ← first (get_elem? (path_parts path) 1); ok (add_fault child_name i faults))

unfoldable pub group_faults : ℕ → List (List ℕ) → ChildFaults → Result ChildFaults
group_faults i [] faults = ok faults
group_faults i (path ∷ paths) faults = do
  faults ← group_fault path i faults
  group_faults (i + 1) paths faults

unfoldable pub child_faults : List (List ℕ) → Result ChildFaults
unfolding group_faults group_fault add_fault
child_faults paths = group_faults 0 paths []

-- The port of a child: `s[:-2]` takes the last comma off.
unfoldable pub parameters : List ℕ → List ℕ → List ℕ
unfolding decimal
parameters bus [] = []
parameters bus (i ∷ numbers) =
    bus ++ codes "[" ++ decimal i ++ codes "], " ++ parameters bus numbers

abbrev pub without_last_two : List ℕ → List ℕ
without_last_two s = take (length s - 2) s

unfoldable pub port_string : List ℕ → List ℕ → List ℕ
unfolding parameters decimal
port_string bus numbers =
    if ltb 1 (length numbers)
    then codes "." ++ bus ++ codes "({" ++ without_last_two (parameters bus numbers) ++ codes "})"
    else codes "." ++ bus ++ codes "(" ++ bus ++ codes ")"
