-- ===== src/Injector/Building.antt =====
-- ModuleTree.py, `_find_children` and `setup_tree`: the tree of instances from the texts of the modules.
mod Tests
pub mod Built
use chipyard_fault_injection.Common.{
  ℕ, zero, suc, ◌+◌, ◌-◌, ◌/◌, ◌%◌, ◌==◌, Bool, ◌&&◌, ◌||◌, not, Option, none, some, List, [], ◌∷◌,
  ◌++◌, ltb, if◌then◌else◌, Result, ok, err, ◌>>=◌, unfinished, length,
}
use chipyard_fault_injection.Common.Text.{codes, contains}
use chipyard_fault_injection.Injector.Paths.{word, behind_word, is_empty}
use chipyard_fault_injection.Injector.Instances.{
  Module, Instance, Instances, module_instance, end, child,
}
use chipyard_fault_injection.Injector.Scanning.{is_blank, front_of, behind_front, strip_prefix}

-- `repr` of a text: its characters, with escapes, between quotes.
abbrev pub hex_digit : ℕ → ℕ
hex_digit d = if ltb d 10 then b'0' + d else b'a' + (d - 10)

unfoldable pub repr_char : ℕ → ℕ → List ℕ
repr_char quote c =
    if c == 92 || c == quote
    then 92 ∷ c ∷ []
    else if c == 10
    then codes "\\n"
    else if c == 13
    then codes "\\r"
    else if c == 9
    then codes "\\t"
    else if ltb c 32 || c == 127
    then codes "\\x" ++ hex_digit (c / 16) ∷ hex_digit (c % 16) ∷ []
    else c ∷ []

unfoldable pub repr_chars : ℕ → List ℕ → List ℕ
unfolding repr_char
repr_chars quote [] = []
repr_chars quote (c ∷ s) = repr_char quote c ++ repr_chars quote s

abbrev pub quote_of : List ℕ → ℕ
quote_of s = if contains 39 s && not (contains 34 s) then 34 else 39

unfoldable pub repr : List ℕ → List ℕ
unfolding repr_chars
repr s = quote_of s ∷ repr_chars (quote_of s) s ++ quote_of s ∷ []

-- A type, a name, and what follows the match.
abbrev pub Found : Type 0
Found = List ℕ × List ℕ × List ℕ

abbrev pub opened : List ℕ → List ℕ → Option (List ℕ) → Option Found
opened type name none = none
opened type name (some rest) = some (type, name, rest)

-- ` ?\(`
abbrev pub optional_blank : List ℕ → List ℕ
optional_blank [] = []
optional_blank (c ∷ s) = if c == 32 then s else c ∷ s

-- ` (\w+) ?\(`
abbrev pub named : List ℕ → Option (List ℕ) → Option Found
unfolding word behind_word strip_prefix
named type none = none
named type (some s) =
    if is_empty (word s)
    then none
    else opened type (word s) (strip_prefix (codes "(") (optional_blank (behind_word s)))

-- `\s+(\w+) (\w+) ?\(`
abbrev pub typed : Option (List ℕ) → Option Found
unfolding word behind_word strip_prefix front_of behind_front is_blank
typed none = none
typed (some s) =
    let t = behind_front is_blank s in
    if is_empty (front_of is_blank s) || is_empty (word t)
    then none
    else named (word t) (strip_prefix (codes " ") (behind_word t))

-- `\\n\s+(\w+) (\w+) ?\(`: a backslash and an `n` come first.
unfoldable pub match_instance : List ℕ → Option Found
unfolding strip_prefix
match_instance s = typed (strip_prefix (codes "\\n") s)

-- The matches from left to right; the number counts the characters of a match still to pass.
unfoldable pub instances_in : ℕ → List ℕ → List (List ℕ × List ℕ)
unfolding match_instance
instances_in passing [] = []
instances_in (suc passing) (c ∷ s) = instances_in passing s
instances_in zero (c ∷ s) = elim (match_instance (c ∷ s)) [
  | none ↦ instances_in zero s
  | some found ↦ (found.0, found.1) ∷ instances_in (length s - length found.2) s
]

unfoldable pub possible_children : Module → List (List ℕ × List ℕ)
unfolding instances_in repr
possible_children m = instances_in zero (repr m.module_text)

-- The dict `all_modules`.
module _ (all_modules : List ℕ → Option Module) where
  -- The loop over the possible children: those whose type is a module become instances, by the call.
  unfoldable pub add_child :
      (Module → List ℕ → Result Instance)
      → Option Module
      → List ℕ
      → Result Instances
      → Result Instances
  add_child build none name later = later
  add_child build (some m) name later = do c ← build m name; cs ← later; ok (child c cs)

  unfoldable pub add_known :
      (Module → List ℕ → Result Instance) → List (List ℕ × List ℕ) → Result Instances
  unfolding add_child
  add_known build [] = ok end
  add_known build ((type, name) ∷ pcs) =
      let later = add_known build pcs in add_child build (all_modules type) name later

  -- The depth of the calls is bounded, as Python bounds it; a deeper tree ends in an error.
  unfoldable pub find_children : ℕ → Module → List ℕ → Result Instance
  unfolding add_known possible_children
  find_children zero m name = err unfinished
  find_children (suc depth) m name = do
    children ← add_known (find_children depth) (possible_children m)
    ok (module_instance m name [] children)

  unfoldable pub setup_tree : ℕ → Module → Result Instance
  unfolding find_children
  setup_tree depth root = find_children depth root (codes "Root")
