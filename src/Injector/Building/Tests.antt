-- ===== src/Injector/Building/Tests.antt =====
-- A unit with two adders, and an instance of a type that is no module.
use chipyard_fault_injection.Common.{
  ℕ, ◌≡◌, refl, subst, Bool, true, false, Option, none, some, List, [], ◌∷◌, ok, if◌then◌else◌,
  length,
}
use chipyard_fault_injection.Common.Text.{codes, joined, same_text}
use chipyard_fault_injection.Injector.Paths.{is_word, word, behind_word}
use chipyard_fault_injection.Injector.Scanning.{is_blank, front_of, behind_front, strip_prefix}
use chipyard_fault_injection.Injector.Instances.{Module, Instance, module_instance, end, child}
use chipyard_fault_injection.Injector.Building.{
  repr_char, repr_chars, repr, match_instance, instances_in, possible_children, add_child,
  add_known, find_children, setup_tree,
}
use chipyard_fault_injection.Injector.Building.Built.{entry, Falls, IsBuilt, setup_tree_lem}

abbrev adder : Module
adder = record { type = codes "Adder"; module_text = codes "module Adder(\n  input a\n);" }

abbrev unit : Module
unit = record {
  type = codes "Unit";
  module_text = joined (
      codes "module Unit(\n);\n  Adder adder (\n  );\n  Mul mul (\n  );\n"
      ∷ codes "  Adder other(\n  );\nendmodule"
      ∷ []);
}

abbrev all_modules : List ℕ → Option Module
all_modules type = if same_text type (codes "Adder") then some adder else none

abbrev adder_instance : List ℕ → Instance
adder_instance name = module_instance adder name [] end

tree_built :
    setup_tree all_modules 2 unit
    ≡ ok (
        module_instance unit
          (codes "Root")
          []
          (child (adder_instance (codes "adder")) (child (adder_instance (codes "other")) end)))
unfolding setup_tree find_children add_known add_child possible_children instances_in repr
    repr_chars repr_char match_instance strip_prefix front_of behind_front is_blank word behind_word
    is_word
tree_built = refl

abbrev rank : Module → ℕ
rank m = length m.module_text

unit-Falls : Falls all_modules rank unit
unfolding possible_children instances_in repr repr_chars repr_char match_instance strip_prefix
    front_of behind_front is_blank word behind_word is_word
unit-Falls = (refl, (refl, tt))

adder-Falls : Falls all_modules rank adder
unfolding possible_children instances_in repr repr_chars repr_char match_instance strip_prefix
    front_of behind_front is_blank word behind_word is_word
adder-Falls = tt

chosen-Falls :
    (b : Bool) (m : Module) → (if b then some adder else none) ≡ some m → Falls all_modules rank m
chosen-Falls true m e = subst (λ m. Falls all_modules rank m) (cc e) adder-Falls
chosen-Falls false m e = absurd (cc e)

setup_tree_lem_example :
    (t : Instance) × (setup_tree all_modules 100 unit ≡ ok t)
    × (entry t ≡ (unit, codes "Root"))
    × IsBuilt all_modules t
setup_tree_lem_example =
    setup_tree_lem all_modules rank 100 unit
      (λ type m e. chosen-Falls (same_text type (codes "Adder")) m e) unit-Falls refl
