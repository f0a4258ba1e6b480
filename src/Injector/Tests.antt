-- ===== src/Injector/Tests.antt =====
-- A small tree: an ALU with an adder in it, beside a branch unit.
use chipyard_fault_injection.Common.{
  ℕ, ◌≡◌, refl, true, some, List, [], ◌∷◌, ◌++◌, map, ok, err, exited, get_elem?, arith,
}
use chipyard_fault_injection.Common.Text.{codes}
use chipyard_fault_injection.Injector.Paths.{is_word, path_parts}
use chipyard_fault_injection.Injector.Paths.Rendered.{AllNames, IsTarget, rendered}
use chipyard_fault_injection.Injector.Instances.{
  Module, Instance, module_instance, end, child, children_of, mark_fault, mark_faults,
}
use chipyard_fault_injection.Injector.Instances.Marking.{Marked, mark_fault-marks}
use chipyard_fault_injection.Injector.Instances.Lost.{mark_fault-lost}
use chipyard_fault_injection.Injector.Routing.{ChildFaults, child_faults, port_string}
use chipyard_fault_injection.Injector.Routing.Numbers.{numbers_for, left_of}
use chipyard_fault_injection.Injector.Routing.Routed.{FaultPath, text_of, routed}
use chipyard_fault_injection.Injector.Routing.Unmarked.{is_unmarked}
use chipyard_fault_injection.Injector.Driver.{generate_fault_driver}
use chipyard_fault_injection.Injector.Traversal.{contains_text, inject_order, dump}
use chipyard_fault_injection.Injector.Traversal.Order.{
  Distinct, names_onto, names_below, upwards_all, inject_order_lem,
}
use chipyard_fault_injection.Injector.Traversal.Visits.{injected_at, met_at, inject_order_any}
use chipyard_fault_injection.Injector.Traversal.Firsts.{firsts, file_of, types, IsIn}
use chipyard_fault_injection.Injector.Traversal.Dumping.{downwards, dump_lem}

abbrev unit_module : Module
unit_module = record { type = codes "ALUUnit"; module_text = codes "module ALUUnit(" }

abbrev alu_module : Module
alu_module = record { type = codes "ALU"; module_text = codes "module ALU(" }

abbrev adder_module : Module
adder_module = record { type = codes "Adder"; module_text = codes "module Adder(" }

abbrev adder : Instance
adder = module_instance adder_module (codes "adder") [] end

abbrev alu : Instance
alu = module_instance alu_module (codes "alu") [] (child adder end)

abbrev branch_unit : Instance
branch_unit = module_instance alu_module (codes "bru") [] end

abbrev tree : Instance
tree = module_instance unit_module (codes "Root") [] (child alu (child branch_unit end))

tree-unmarked : is_unmarked tree ≡ true
unfolding is_unmarked
tree-unmarked = refl

slt-IsTarget : IsTarget (codes "/:slt")
unfolding path_parts
slt-IsTarget = record { apart = refl; nameless = refl; one_line = ground arith }

to_alu : AllNames (codes "Root" ∷ codes "alu" ∷ [])
unfolding is_word
to_alu = ground arith

to_nothing : AllNames (codes "Root" ∷ codes "fpu" ∷ [])
unfolding is_word
to_nothing = ground arith

to_adder : AllNames (codes "Root" ∷ codes "alu" ∷ codes "adder" ∷ [])
unfolding is_word
to_adder = ground arith

mark_fault-marks_example :
    (t : Instance) × (mark_fault tree (rendered (codes "Root" ∷ codes "alu" ∷ []) (codes "/:slt"))
      ≡ ok t)
    × Marked (codes "Root") (codes "alu" ∷ []) (codes "/:slt") tree t
mark_fault-marks_example =
    mark_fault-marks (codes "Root") (codes "alu" ∷ []) (codes "/:slt") tree alu to_alu slt-IsTarget
      refl

mark_fault-lost_example :
    mark_fault tree (rendered (codes "Root" ∷ codes "fpu" ∷ []) (codes "/:slt")) ≡ err (exited 1)
mark_fault-lost_example =
    mark_fault-lost (codes "Root") (codes "fpu" ∷ []) (codes "/:slt") tree to_nothing slt-IsTarget
      refl

abbrev in_alu : FaultPath
in_alu = record { root = codes "Root"; below = codes "alu" ∷ []; target = codes "/:slt" }

abbrev in_adder : FaultPath
in_adder = record {
  root = codes "Root";
  below = codes "alu" ∷ codes "adder" ∷ [];
  target = codes "/:slt";
}

abbrev marked_alu : Instance
marked_alu =
    module_instance alu_module (codes "alu") (codes "/alu/:slt" ∷ codes "/alu/adder/:slt" ∷ [])
      (child (module_instance adder_module (codes "adder") (codes "/adder/:slt" ∷ []) end) end)

abbrev marked : Instance
marked =
    module_instance unit_module (codes "Root")
      (codes "/Root/alu/:slt" ∷ codes "/Root/alu/adder/:slt" ∷ [])
      (child marked_alu (child branch_unit end))

mark_faults-marked : mark_faults tree (map text_of (in_alu ∷ in_adder ∷ [])) ≡ ok marked
unfolding mark_faults
mark_faults-marked = refl

routed_example :
    (d : ChildFaults) × (child_faults (codes "/alu/:slt" ∷ codes "/alu/adder/:slt" ∷ []) ≡ ok d)
    × (map
          (λ (i : ℕ). left_of (get_elem? (codes "/alu/:slt" ∷ codes "/alu/adder/:slt" ∷ []) i))
          (numbers_for (codes "adder") d)
        ≡ map (λ (x : List ℕ). some x) (codes "/adder/:slt" ∷ []))
routed_example =
    routed (in_alu ∷ in_adder ∷ []) tree marked (codes "alu" ∷ []) (codes "adder")
      (codes "/alu/:slt" ∷ codes "/alu/adder/:slt" ∷ []) (codes "/adder/:slt" ∷ [])
      (
        record { names = to_alu; target_ok = slt-IsTarget },
        (record { names = to_adder; target_ok = slt-IsTarget }, tt),
      )
      tree-unmarked mark_faults-marked refl refl

tree-Distinct : Distinct (names_below tree)
unfolding names_onto
tree-Distinct = ground arith

inject_order_lem_example : inject_order tree ≡ ok (upwards_all (children_of tree))
inject_order_lem_example = inject_order_lem tree tree-Distinct

dump_lem_example :
    (dump tree ≡ ok (file_of (firsts [] (downwards tree))))
    × Distinct (types (firsts [] (downwards tree)))
    × ((m : Module)
        → IsIn m (downwards tree)
        → contains_text (types (firsts [] (downwards tree))) m.type ≡ true)
dump_lem_example = dump_lem tree

dump_once :
    dump tree
    ≡ ok (
        codes "module ALUUnit("
        ++ 10 ∷ codes "module ALU("
        ++ 10 ∷ codes "module Adder("
        ++ 10 ∷ [])
unfolding dump
dump_once = refl

port_string_two :
    port_string (codes "fault_inputs") (0 ∷ 12 ∷ [])
    ≡ codes ".fault_inputs({fault_inputs[0], fault_inputs[12]})"
unfolding port_string
port_string_two = refl

-- The driver at the end of output.v.
driver_of_one :
    (generate_fault_driver (codes "/Root/alu/:slt" ∷ []) (codes "FaultDriver")).module_text
    ≡ codes "module FaultDriver ("
      ++ (10 ∷ codes "  input original_values;"
          ++ (10 ∷ codes "  output faulty_values;"
              ++ (10 ∷ codes ")"
                  ++ (10 ∷ 10 ∷ codes "  // fault injection from /Root/alu/:slt"
                      ++ (10 ∷ codes "  assign faulty_values = 0;" ++ (10 ∷ codes "endmodule"))))))
unfolding generate_fault_driver
driver_of_one = refl

driver_of_two :
    (generate_fault_driver (codes "/R/:a" ∷ codes "/R/:b" ∷ []) (codes "D")).module_text
    ≡ codes "module D ("
      ++ (10 ∷ codes "  input  [1:0] original_values;"
          ++ (10 ∷ codes "  output [1:0] faulty_values;"
              ++ (10 ∷ codes ")"
                  ++ (10 ∷ 10 ∷ codes "  // fault injection from /R/:a"
                      ++ (10 ∷ codes "  assign faulty_values[0] = 0;"
                          ++ (10 ∷ 10 ∷ codes "  // fault injection from /R/:b"
                              ++ (10 ∷ codes "  assign faulty_values[1] = 0;"
                                  ++ (10 ∷ codes "endmodule"))))))))
unfolding generate_fault_driver
driver_of_two = refl

-- Two instances have the name `bru`: what is below the first of them is passed over.
abbrev first_bru : Instance
first_bru = module_instance alu_module (codes "bru") [] (child alu end)

abbrev twice : Instance
twice = module_instance unit_module (codes "Root") [] (child first_bru (child branch_unit end))

inject_order_any_example : inject_order twice ≡ ok (branch_unit ∷ first_bru ∷ [])
unfolding injected_at met_at
inject_order_any_example = inject_order_any twice
