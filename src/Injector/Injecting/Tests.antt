-- ===== src/Injector/Injecting/Tests.antt =====
-- An adder with a fault, its parent, and the root with the driver.
use chipyard_fault_injection.Common.{
  ℕ, ◌≡◌, refl, false, none, some, List, [], ◌∷◌, ◌++◌, Result, ok, err, aborted, out_of_range,
  arith,
}
use chipyard_fault_injection.Common.Text.{codes, joined, decimal}
use chipyard_fault_injection.Injector.Paths.{
  is_word, word, behind_word, words_behind, path_parts, wire_name_parts,
}
use chipyard_fault_injection.Injector.Paths.Rendered.{IsName}
use chipyard_fault_injection.Injector.Instances.{Instance, module_instance, end, child}
use chipyard_fault_injection.Injector.Routing.{group_fault, add_fault, parameters, port_string}
use chipyard_fault_injection.Injector.Scanning.{
  is_blank, strip_prefix, match_behind, match_keyword, match_wire, match_text, findall, find_all,
  sub, sub_all,
}
use chipyard_fault_injection.Injector.Scanning.Quiet.{Quiet, is_quiet-Quiet}
use chipyard_fault_injection.Injector.Scanning.Declared.{IsGap}
use chipyard_fault_injection.Injector.Substitution.Once.{declared}
use chipyard_fault_injection.Injector.Substitution.Scalar.{with_fault}
use chipyard_fault_injection.Injector.Scanning.Lines.{
  match_line, match_declaration, match_child, match_end, match_header,
}
use chipyard_fault_injection.Injector.Injecting.{
  opened_module, fault_io_bounds, port_lines, driver_lines_of_root, template, inject_path,
  inject_paths, child_type, connect_child, connect_children, add_ports, change_header,
  inject_faults,
}
use chipyard_fault_injection.Injector.Injecting.Leaf.{
  only_fault, leaf, two_ports, inject_faults-leaf,
}

abbrev random : ℕ → ℕ → ℕ → ℕ
random i low high = low

abbrev sha256 : List ℕ → List ℕ
sha256 text = codes "d1"

abbrev escapes : List ℕ → Result (List ℕ)
escapes text = err aborted

abbrev ports_of_adder : List ℕ
ports_of_adder = codes "  input a,\n  output slt\n);\n"

abbrev adder_text : List ℕ
adder_text =
    opened_module (codes "Adder")
    ++ (ports_of_adder ++ (declared false (codes "  ") (codes "slt") ++ codes "a;\n"))

abbrev path : List ℕ
path = codes "/adder/:slt"

path_parts-path : path_parts path ≡ codes "adder" ∷ []
unfolding path_parts
path_parts-path = refl

wire_name_parts-path : wire_name_parts path ≡ codes "slt" ∷ []
unfolding wire_name_parts
wire_name_parts-path = refl

slt-IsName : IsName (codes "slt")
unfolding is_word
slt-IsName = ground arith

two_blanks : IsGap (codes "  ")
unfolding is_blank
two_blanks = ground arith

before-Quiet :
    Quiet
      (match_wire (codes "slt"))
      (opened_module (codes "Adder") ++ ports_of_adder)
      (declared false (codes "  ") (codes "slt") ++ codes "a;\n")
unfolding match_wire match_keyword match_behind strip_prefix
before-Quiet =
    is_quiet-Quiet (match_wire (codes "slt")) (opened_module (codes "Adder") ++ ports_of_adder)
      (declared false (codes "  ") (codes "slt") ++ codes "a;\n") refl

after-Quiet : Quiet (match_wire (codes "slt")) (codes "a;\n") []
unfolding match_wire match_keyword match_behind strip_prefix
after-Quiet = is_quiet-Quiet (match_wire (codes "slt")) (codes "a;\n") [] refl

abbrev body : List ℕ
body = ports_of_adder ++ (with_fault false (codes "  ") (only_fault (codes "slt")) ++ codes "a;\n")

no_header : Quiet (match_text (opened_module (codes "Adder"))) body []
unfolding match_text strip_prefix
no_header = is_quiet-Quiet (match_text (opened_module (codes "Adder"))) body [] refl

inject_faults-leaf_example :
    inject_faults random sha256 escapes none
      (leaf (codes "Adder") adder_text (codes "adder") path end)
    ≡ (ok (
        leaf
          (codes "Adder_d1")
          (opened_module (codes "Adder_d1") ++ (two_ports ++ body))
          (codes "adder")
          path
          end))
inject_faults-leaf_example =
    inject_faults-leaf random sha256 escapes (codes "Adder") (codes "adder") path (codes "adder")
      (codes "slt") [] false (codes "  ") ports_of_adder (codes "a;\n") end path_parts-path
      wire_name_parts-path two_blanks slt-IsName before-Quiet after-Quiet no_header

-- The parent of two faulty children: two faults of the first go by a concatenation, one of the second
-- by the whole bus.
abbrev parent : Instance
parent =
    module_instance
      (record {
        type = codes "ALU";
        module_text = codes "module ALU(\n);\n  Adder adder ( // @[a.scala 1]\n  );\n";
      })
      (codes "alu") (codes "/alu/adder/:slt" ∷ codes "/alu/adder/:c" ∷ [])
      (child (leaf (codes "Adder_d1") [] (codes "adder") [] end) end)

parent_connected :
    inject_faults random sha256 escapes none parent
    ≡ ok (
        module_instance
          (record {
            type = codes "ALU_d1";
            module_text = joined (
                codes "module ALU_d1(\n\tinput\t\t[1:0]\tfault_inputs,\n"
                ∷ codes "\toutput\t\t[1:0]\tfault_outputs,\n"
                ∷ codes ");\n  Adder_d1 adder ( // @[a.scala 1]\n"
                ∷ codes "\t\t.fault_inputs({fault_inputs[0], fault_inputs[1]}),\n"
                ∷ codes "\t\t.fault_outputs({fault_outputs[0], fault_outputs[1]}),\n  );\n"
                ∷ []);
          })
          (codes "alu")
          (codes "/alu/adder/:slt" ∷ codes "/alu/adder/:c" ∷ [])
          (child (leaf (codes "Adder_d1") [] (codes "adder") [] end) end))
unfolding inject_faults inject_paths inject_path group_fault add_fault path_parts words_behind word
    behind_word is_word connect_children connect_child child_type match_declaration match_child
    strip_prefix match_line port_string parameters decimal template change_header add_ports
    match_text port_lines fault_io_bounds findall find_all sub sub_all
parent_connected = refl

-- A text in which the child is not declared.
missing_declaration :
    connect_child random sha256 escapes
      (child (leaf (codes "Adder") [] (codes "adder") [] end) end)
      (codes "adder")
      (0 ∷ [])
      (codes "module ALU(\n);\n")
    ≡ err out_of_range
unfolding connect_child child_type match_declaration strip_prefix findall find_all
missing_declaration = refl

-- The root gets the wires and the driver behind its header, and keeps the name in the header.
root_driven :
    change_header random sha256 escapes
      (some (codes "Faults"))
      (codes "Top")
      (codes "Top_d1")
      2
      (codes "module Top(\n  input a\n);\nendmodule\n")
    ≡ ok (
        joined (
          codes "module Top(\n  input a\n);\n\twire [1:0] fault_inputs;\n"
          ∷ codes "\twire [1:0] fault_outputs;\n\tFaults fault_driver (\n"
          ∷ codes "\t\t.original_values(fault_outputs)\n\t\t.faulty_values(fault_inputs)\n)\n"
          ∷ codes "endmodule\n"
          ∷ []))
unfolding change_header match_header match_end match_text strip_prefix word behind_word is_word
    findall find_all sub sub_all template driver_lines_of_root fault_io_bounds decimal
root_driven = refl
