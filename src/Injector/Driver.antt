-- ===== src/Injector/Driver.antt =====
-- fault_driver.py: the text of the module that drives the faulty wires.
use chipyard_fault_injection.Common.{ℕ, ◌+◌, ◌-◌, ◌==◌, List, [], ◌∷◌, ◌++◌, if◌then◌else◌, length}
use chipyard_fault_injection.Common.Text.{codes, decimal}
use chipyard_fault_injection.Injector.Instances.{Module}

-- `{len(faults) - 1}`, an `int` of Python.
unfoldable pub highest_bit : ℕ → List ℕ
unfolding decimal
highest_bit n = if n == 0 then codes "-1" else decimal (n - 1)

unfoldable pub driver_header : List ℕ → ℕ → List ℕ
unfolding highest_bit
driver_header type n =
    if n == 1
    then codes "module "
      ++ (type
          ++ (codes " ("
              ++ (10 ∷ codes "  input original_values;"
                  ++ (10 ∷ codes "  output faulty_values;" ++ (10 ∷ codes ")")))))
    else codes "module "
      ++ (type
          ++ (codes " ("
              ++ (10 ∷ codes "  input  ["
                  ++ (highest_bit n
                      ++ (codes ":0] original_values;"
                          ++ (10 ∷ codes "  output ["
                              ++ (highest_bit n
                                  ++ (codes ":0] faulty_values;" ++ (10 ∷ codes ")")))))))))

-- The comment and the `assign` of a fault; `bit` is empty for a single fault.
unfoldable pub driver_line : List ℕ → List ℕ → List ℕ
driver_line fault bit =
    10 ∷ 10 ∷ codes "  // fault injection from "
    ++ (fault ++ (10 ∷ codes "  assign faulty_values" ++ (bit ++ codes " = 0;")))

unfoldable pub driver_lines : ℕ → List (List ℕ) → List ℕ
unfolding driver_line decimal
driver_lines i [] = []
driver_lines i (fault ∷ faults) =
    driver_line fault (codes "[" ++ (decimal i ++ codes "]")) ++ driver_lines (i + 1) faults

unfoldable pub driver_body : List (List ℕ) → List ℕ
unfolding driver_lines
driver_body [] = []
driver_body (fault ∷ []) = driver_line fault []
driver_body (fault ∷ other ∷ faults) = driver_lines 0 (fault ∷ other ∷ faults)

unfoldable pub generate_fault_driver : List (List ℕ) → List ℕ → Module
unfolding driver_header driver_body
generate_fault_driver faults type = record {
  type = type;
  module_text =
      driver_header type (length faults) ++ (driver_body faults ++ (10 ∷ codes "endmodule"));
}
