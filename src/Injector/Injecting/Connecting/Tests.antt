-- ===== src/Injector/Injecting/Connecting/Tests.antt =====
-- The adder in the text of its parent.
use chipyard_fault_injection.Common.{
  ℕ, ◌≡◌, refl, false, List, [], ◌∷◌, ◌++◌, Result, ok, err, aborted, arith,
}
use chipyard_fault_injection.Common.Text.{codes, decimal, contains}
use chipyard_fault_injection.Injector.Paths.{is_word, word, behind_word}
use chipyard_fault_injection.Injector.Paths.Rendered.{IsName, OneLine}
use chipyard_fault_injection.Injector.Instances.{end, child}
use chipyard_fault_injection.Injector.Routing.{parameters, port_string}
use chipyard_fault_injection.Injector.Scanning.{strip_prefix}
use chipyard_fault_injection.Injector.Scanning.Quiet.{Quiet, is_quiet-Quiet}
use chipyard_fault_injection.Injector.Scanning.Lines.{match_line, match_declaration, match_child}
use chipyard_fault_injection.Injector.Injecting.{connect_child}
use chipyard_fault_injection.Injector.Injecting.Connecting.{
  declaration, instantiated, connected, connect_child-once,
}
use chipyard_fault_injection.Injector.Injecting.Leaf.{leaf}

abbrev random : ℕ → ℕ → ℕ → ℕ
random i low high = low

abbrev sha256 : List ℕ → List ℕ
sha256 text = codes "d1"

abbrev escapes : List ℕ → Result (List ℕ)
escapes text = err aborted

abbrev before_adder : List ℕ
before_adder = codes "module ALU(\n);\n  "

abbrev line : List ℕ
line = codes " // @[a.scala 1]"

adder-IsName : IsName (codes "adder")
unfolding is_word
adder-IsName = ground arith

type-IsName : IsName (codes "Adder")
unfolding is_word
type-IsName = ground arith

no_declaration :
    Quiet
      (match_declaration (codes "adder"))
      (before_adder ++ (codes "Adder" ++ codes " "))
      (declaration (codes "adder") line ++ codes "  );\n")
unfolding match_declaration strip_prefix match_line
no_declaration =
    is_quiet-Quiet (match_declaration (codes "adder"))
      (before_adder ++ (codes "Adder" ++ codes " "))
      (declaration (codes "adder") line ++ codes "  );\n") refl

no_declaration_after : Quiet (match_declaration (codes "adder")) (codes "  );\n") []
unfolding match_declaration strip_prefix match_line
no_declaration_after = is_quiet-Quiet (match_declaration (codes "adder")) (codes "  );\n") [] refl

no_child :
    Quiet
      (match_child (codes "adder"))
      before_adder
      (instantiated (codes "Adder") (codes "adder") line ++ codes "  );\n")
unfolding match_child strip_prefix match_line word behind_word is_word
no_child =
    is_quiet-Quiet (match_child (codes "adder")) before_adder
      (instantiated (codes "Adder") (codes "adder") line ++ codes "  );\n") refl

no_child_after : Quiet (match_child (codes "adder")) (codes "  );\n") []
unfolding match_child strip_prefix match_line word behind_word is_word
no_child_after = is_quiet-Quiet (match_child (codes "adder")) (codes "  );\n") [] refl

no_backslash :
    contains 92 (
      connected
        (leaf (codes "Adder_d1") [] (codes "adder") [] end)
        (codes "adder")
        line
        (0 ∷ 1 ∷ []))
    ≡ false
unfolding port_string parameters decimal
no_backslash = refl

one_line : OneLine line
one_line = ground arith

-- The child of `parent`, connected in its text.
connect_child-once_example :
    connect_child random sha256 escapes
      (child (leaf (codes "Adder_d1") [] (codes "adder") [] end) end)
      (codes "adder")
      (0 ∷ 1 ∷ [])
      (before_adder ++ (instantiated (codes "Adder") (codes "adder") line ++ codes "  );\n"))
    ≡ ok (
        before_adder
        ++ (connected
              (leaf (codes "Adder_d1") [] (codes "adder") [] end)
              (codes "adder")
              line
              (0 ∷ 1 ∷ [])
            ++ codes "  );\n"))
connect_child-once_example =
    connect_child-once random sha256 escapes
      (child (leaf (codes "Adder_d1") [] (codes "adder") [] end) end)
      (leaf (codes "Adder_d1") [] (codes "adder") [] end) (0 ∷ 1 ∷ []) before_adder (codes "Adder")
      (codes "adder") line (codes "  );\n") refl type-IsName adder-IsName one_line no_declaration
      no_declaration_after no_child no_child_after no_backslash
