-- ===== src/Injector/Injecting.antt =====
-- ModuleInstance.py, `inject_faults`: the new text of an instance's module.
mod Tests
pub mod Leaf
pub mod Connecting
use chipyard_fault_injection.Common.{
  ℕ, suc, ◌+◌, ◌-◌, ◌==◌, Option, none, some, List, [], ◌∷◌, ◌++◌, not, ltb, if◌then◌else◌, Result,
  ok, err, ◌>>=◌, out_of_range, null_pointer, length, get_elem?,
}
use chipyard_fault_injection.Common.Text.{codes, joined, contains, decimal}
use chipyard_fault_injection.Injector.Paths.{
  word, behind_word, is_empty, path_parts, wire_name_parts,
}
use chipyard_fault_injection.Injector.Instances.{
  Module, Instance, Instances, module_instance, module_of, first,
}
use chipyard_fault_injection.Injector.Instances.Lookup.{find_child}
use chipyard_fault_injection.Injector.Routing.{ChildFaults, group_fault, port_string}
use chipyard_fault_injection.Injector.Scanning.{Match, strip_prefix, match_text, findall, sub}
use chipyard_fault_injection.Injector.Scanning.Lines.{match_declaration, match_child, match_header}
use chipyard_fault_injection.Injector.Substitution.{Names, inject_fault}

-- `[0]` of the matches.
abbrev pub first_match : List Match → Result Match
first_match [] = err out_of_range
first_match (m ∷ ms) = ok m

-- The name of a bus of faults, of one fault among `n`, and the bounds of the bus.
abbrev pub fault_wire : List ℕ → ℕ → ℕ → List ℕ
fault_wire bus n i = if n == 1 then bus else joined (bus ∷ codes "[" ∷ decimal i ∷ codes "]" ∷ [])

unfoldable pub fault_io_bounds : ℕ → List ℕ
fault_io_bounds n = if ltb n 2 then [] else joined (codes "[" ∷ decimal (n - 1) ∷ codes ":0]" ∷ [])

-- The bit of a path whose wire has one.
abbrev pub bus_index : List (List ℕ) → Option (List ℕ)
bus_index (wire ∷ bit ∷ []) = some bit
bus_index parts = none

-- The ports in the header of a module that is not the root.
unfoldable pub port_lines : ℕ → List ℕ
unfolding fault_io_bounds
port_lines n = joined (
    codes "\tinput\t\t"
    ∷ fault_io_bounds n
    ∷ codes "\tfault_inputs,\n\toutput\t\t"
    ∷ fault_io_bounds n
    ∷ codes "\tfault_outputs,\n"
    ∷ [])

abbrev pub opened_module : List ℕ → List ℕ
opened_module type = codes "module " ++ (type ++ codes "(\n")

unfoldable pub add_ports : List ℕ → List ℕ → ℕ → List ℕ → List ℕ
unfolding match_text port_lines
add_ports type new_type n text =
    sub (match_text (opened_module type)) (opened_module new_type ++ port_lines n) text

-- The lines behind the header of the root.
unfoldable pub driver_lines_of_root : List ℕ → ℕ → List ℕ
unfolding fault_io_bounds
driver_lines_of_root driver n = joined (
    codes "\twire "
    ∷ fault_io_bounds n
    ∷ codes " fault_inputs;\n\twire "
    ∷ fault_io_bounds n
    ∷ codes " fault_outputs;\n\t"
    ∷ driver
    ∷ codes " fault_driver (\n\t\t.original_values(fault_outputs)\n\t\t"
    ∷ codes ".faulty_values(fault_inputs)\n)\n"
    ∷ [])

-- Parameters: the numbers that are drawn for the faults of the instance; the digest, in digits; and
-- what `re.sub` makes of a replacement with a backslash.
module _ (random : ℕ → ℕ → ℕ → ℕ) (sha256 : List ℕ → List ℕ)
    (escapes : List ℕ → Result (List ℕ)) where
  unfoldable pub template : List ℕ → Result (List ℕ)
  template s = if contains 92 s then escapes s else ok s

  -- The first loop: a fault in this module goes into its text, another to a child.
  unfoldable pub inject_here : ℕ → ℕ → List ℕ → List ℕ → Result (List ℕ)
  unfolding wire_name_parts inject_fault
  inject_here n i path text = do
    wire ← first (get_elem? (wire_name_parts path) 0)
    inject_fault (random i)
        (record {
          sample_wire = wire;
          fault_input_wire = fault_wire (codes "fault_inputs") n i;
          fault_output_wire = fault_wire (codes "fault_outputs") n i;
        })
        (bus_index (wire_name_parts path)) text

  unfoldable pub inject_path : ℕ → ℕ → List ℕ → List ℕ × ChildFaults → Result (List ℕ × ChildFaults)
  unfolding inject_here group_fault path_parts
  inject_path n i path (text, faults) =
      if length (path_parts path) == 1
      then (do text ← inject_here n i path text; ok (text, faults))
      else (do faults ← group_fault path i faults; ok (text, faults))

  unfoldable pub inject_paths :
      ℕ → ℕ → List (List ℕ) → List ℕ × ChildFaults → Result (List ℕ × ChildFaults)
  unfolding inject_path
  inject_paths n i [] s = ok s
  inject_paths n i (path ∷ paths) s = do s ← inject_path n i path s; inject_paths n (suc i) paths s

  -- The second loop: the ports of the faults at each child. A child that is not there has no module.
  unfoldable pub child_type : Option Instance → Result (List ℕ)
  child_type none = err null_pointer
  child_type (some c) = ok ((module_of c).type)

  unfoldable pub connect_child : Instances → List ℕ → List ℕ → List ℕ → Result (List ℕ)
  unfolding child_type match_declaration match_child port_string template
  connect_child children name numbers text = do
    new_child_type ← child_type (find_child name children)
    declaration ← first_match (findall (match_declaration name) text)
    replacement ← template (
        joined (
          new_child_type
          ∷ codes " "
          ∷ declaration.keyword
          ∷ codes "\t\t"
          ∷ port_string (codes "fault_inputs") numbers
          ∷ codes ",\n\t\t"
          ∷ port_string (codes "fault_outputs") numbers
          ∷ codes ",\n"
          ∷ []))
    ok (sub (match_child name) replacement text)

  unfoldable pub connect_children : Instances → ChildFaults → List ℕ → Result (List ℕ)
  unfolding connect_child
  connect_children children [] text = ok text
  connect_children children ((name, numbers) ∷ faults) text = do
    text ← connect_child children name numbers text
    connect_children children faults text

  -- The header, with the ports, or for the root with the driver.
  unfoldable pub change_header : Option (List ℕ) → List ℕ → List ℕ → ℕ → List ℕ → Result (List ℕ)
  unfolding add_ports driver_lines_of_root match_header template
  change_header none type new_type n text = ok (add_ports type new_type n text)
  change_header (some driver) type new_type n text = do
    header ← first_match (findall match_header text)
    replacement ← template (header.keyword ++ driver_lines_of_root driver n)
    ok (sub match_header replacement text)

  -- For the root, with the type of the driver.
  unfoldable pub inject_faults : Option (List ℕ) → Instance → Result Instance
  unfolding inject_paths connect_children change_header
  inject_faults root (module_instance m name [] children) = ok (module_instance m name [] children)
  inject_faults root (module_instance m name (path ∷ paths) children) =
      let n = suc (length paths) in
      do
        (text, faults) ← inject_paths n 0 (path ∷ paths) (m.module_text, [])
        text ← connect_children children faults text
        let new_type = m.type ++ (codes "_" ++ sha256 text)
        module_text ← change_header root m.type new_type n text
        ok (
            module_instance (record { type = new_type; module_text = module_text }) name
              (path ∷ paths) children)
