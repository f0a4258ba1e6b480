-- ===== src/Injector/Scanning/Lines.antt =====
-- The patterns of ModuleInstance.py for the declaration of a child and the header of a module.
use chipyard_fault_injection.Common.{
  ℕ, ◌==◌, Option, none, some, List, [], ◌∷◌, ◌++◌, if◌then◌else◌,
}
use chipyard_fault_injection.Common.Text.{codes}
use chipyard_fault_injection.Injector.Paths.{word, behind_word, is_empty}
use chipyard_fault_injection.Injector.Scanning.{Match, strip_prefix, match_text}

-- A match that is one text, with the characters in front of it put to it.
abbrev pub behind_text : List ℕ → Option Match → Option Match
behind_text s none = none
behind_text s (some m) = some (record m { keyword = s ++ m.keyword })

-- `.*?\n`
unfoldable pub match_line : List ℕ → Option Match
match_line [] = none
match_line (c ∷ s) =
    let later = behind_text (c ∷ []) (match_line s) in
    if c == 10
    then some (record { keyword = 10 ∷ []; gap = []; bounds = none; rest = s })
    else later

-- A text, and a line behind it.
abbrev pub line_behind : List ℕ → Option (List ℕ) → Option Match
line_behind s none = none
line_behind s (some rest) = behind_text s (match_line rest)

-- `name \(.*?\n`, and `\w+ name \(.*?\n`.
unfoldable pub match_declaration : List ℕ → List ℕ → Option Match
unfolding strip_prefix match_line
match_declaration name s = line_behind (name ++ codes " (") (strip_prefix (name ++ codes " (") s)

unfoldable pub match_child : List ℕ → List ℕ → Option Match
unfolding word behind_word strip_prefix match_line
match_child name s =
    let opened = codes " " ++ (name ++ codes " (") in
    if is_empty (word s)
    then none
    else line_behind (word s ++ opened) (strip_prefix opened (behind_word s))

-- `.*?\);\n`, over lines.
unfoldable pub match_end : List ℕ → Option Match
unfolding match_text strip_prefix
match_end [] = none
match_end (c ∷ s) = elim (match_text (codes ");" ++ 10 ∷ []) (c ∷ s)) [
  | none ↦ behind_text (c ∷ []) (match_end s)
  | some m ↦ some m
]

-- `module \w+\(.*?\);\n`
abbrev pub opened_header : List ℕ → Option (List ℕ) → Option Match
unfolding match_end
opened_header name none = none
opened_header name (some rest) =
    if is_empty name
    then none
    else behind_text (codes "module " ++ (name ++ codes "(")) (match_end rest)

abbrev pub named_header : Option (List ℕ) → Option Match
unfolding word behind_word strip_prefix
named_header none = none
named_header (some s) = opened_header (word s) (strip_prefix (codes "(") (behind_word s))

unfoldable pub match_header : List ℕ → Option Match
unfolding strip_prefix
match_header s = named_header (strip_prefix (codes "module ") s)
