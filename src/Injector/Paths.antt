-- ===== src/Injector/Paths.antt =====
-- The regular expressions by which ModuleInstance.py reads a fault path, `/Root/alu/:slt:3`.
pub mod Rendered
use chipyard_fault_injection.Common.{
  ℕ, Bool, true, false, ◌&&◌, ◌||◌, not, Option, none, some, List, [], ◌∷◌, leb, ◌==◌,
  if◌then◌else◌,
}

-- `\w`.
unfoldable pub is_word : ℕ → Bool
is_word c =
    leb b'a' c && leb c b'z'
    || (leb b'A' c && leb c b'Z' || (leb b'0' c && leb c b'9' || c == b'_'))

-- The word characters at the front, and what follows them.
unfoldable pub word : List ℕ → List ℕ
unfolding is_word
word [] = []
word (c ∷ s) = let w = word s in if is_word c then c ∷ w else []

unfoldable pub behind_word : List ℕ → List ℕ
unfolding is_word
behind_word [] = []
behind_word (c ∷ s) = let rest = behind_word s in if is_word c then rest else c ∷ s

abbrev pub is_empty : List ℕ → Bool
is_empty [] = true
is_empty (c ∷ s) = false

-- The words behind a mark, which is no word character: `re.findall(r'\/(\w+)', s)`.
unfoldable pub words_behind : ℕ → List ℕ → List (List ℕ)
unfolding word
words_behind mark [] = []
words_behind mark (c ∷ s) =
    let ws = words_behind mark s in if c == mark && not (is_empty (word s)) then word s ∷ ws else ws

-- `path_parts`, each without its slash, and `wire_name_parts`.
unfoldable pub path_parts : List ℕ → List (List ℕ)
unfolding words_behind
path_parts path = words_behind b'/' path

unfoldable pub wire_name_parts : List ℕ → List (List ℕ)
unfolding words_behind
wire_name_parts path = words_behind b':' path

-- `.*` stops at the end of a line.
unfoldable pub line : List ℕ → List ℕ
line [] = []
line (c ∷ s) = let rest = line s in if c == 10 then [] else c ∷ rest

abbrev pub starts_with_slash : List ℕ → Bool
starts_with_slash [] = false
starts_with_slash (c ∷ s) = c == b'/'

-- `re.findall(r'\/\w+(\/.*)', path)[0]`; `none` is the IndexError of an empty list.
unfoldable pub path_remainder : List ℕ → Option (List ℕ)
unfolding word behind_word line
path_remainder [] = none
path_remainder (c ∷ s) =
    let rest = path_remainder s in
    if c == b'/' && (not (is_empty (word s)) && starts_with_slash (behind_word s))
    then some (line (behind_word s))
    else rest
