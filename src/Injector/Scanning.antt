-- ===== src/Injector/Scanning.antt =====
-- `re.findall` and `re.sub` with the patterns by which Module.py finds the wires in a module's text.
pub mod Quiet
pub mod Declared
pub mod Bus
pub mod Lines
use chipyard_fault_injection.Common.{
  ℕ, zero, suc, ◌-◌, Bool, true, false, ◌&&◌, ◌||◌, not, Option, none, some, List, [], ◌∷◌, ◌++◌,
  leb, ◌==◌, if◌then◌else◌, length,
}
use chipyard_fault_injection.Common.Text.{codes}

-- `\s` and `\d`, of ASCII.
unfoldable pub is_blank : ℕ → Bool
is_blank c = c == 32 || (leb 9 c && leb c 13 || leb 28 c && leb c 31)

unfoldable pub is_digit : ℕ → Bool
is_digit c = leb b'0' c && leb c b'9'

-- The characters of a kind at the front, and what follows them.
unfoldable pub front_of : (ℕ → Bool) → List ℕ → List ℕ
front_of kind [] = []
front_of kind (c ∷ s) = let cs = front_of kind s in if kind c then c ∷ cs else []

unfoldable pub behind_front : (ℕ → Bool) → List ℕ → List ℕ
behind_front kind [] = []
behind_front kind (c ∷ s) = let rest = behind_front kind s in if kind c then rest else c ∷ s

-- What follows a text.
unfoldable pub strip_prefix : List ℕ → List ℕ → Option (List ℕ)
strip_prefix [] s = some s
strip_prefix (p ∷ ps) [] = none
strip_prefix (p ∷ ps) (c ∷ s) = let rest = strip_prefix ps s in if p == c then rest else none

-- `[high:low]`, where `low` has one digit: the two, and what follows.
unfoldable pub match_low : List ℕ → List ℕ → Option (List ℕ × List ℕ × List ℕ)
match_low high (colon ∷ low ∷ bracket ∷ rest) =
    if colon == b':' && (is_digit low && bracket == b']') then some (high, low ∷ [], rest) else none
match_low high s = none

unfoldable pub match_high : List ℕ → Option (List ℕ × List ℕ × List ℕ)
match_high [] = none
match_high (c ∷ s) =
    if is_digit c
    then match_low (front_of is_digit (c ∷ s)) (behind_front is_digit (c ∷ s))
    else none

unfoldable pub match_bounds : List ℕ → Option (List ℕ × List ℕ × List ℕ)
match_bounds [] = none
match_bounds (c ∷ s) = if c == b'[' then match_high s else none

-- A match: its keyword, the text between the keyword and the name, the bounds in it, and what follows
-- the match.
pub record Match : Type 0 where
  pub keyword : List ℕ
  pub gap : List ℕ
  pub bounds : Option (List ℕ × List ℕ)
  pub rest : List ℕ

-- `\s+(?:\[(\d+:\d)\])?\s*`
unfoldable pub bounded : List ℕ → List ℕ → List ℕ → Option (List ℕ × List ℕ × List ℕ) → Match
bounded keyword blanks s none = record { keyword = keyword; gap = blanks; bounds = none; rest = s }
bounded keyword blanks s (some (high, low, rest)) = record {
  keyword = keyword;
  gap =
      blanks
      ++ (codes "[" ++ (high ++ (codes ":" ++ (low ++ (codes "]" ++ front_of is_blank rest)))));
  bounds = some (high, low);
  rest = behind_front is_blank rest;
}

unfoldable pub match_gap : List ℕ → List ℕ → Option Match
match_gap keyword [] = none
match_gap keyword (c ∷ s) =
    if is_blank c
    then some (
        bounded keyword (front_of is_blank (c ∷ s)) (behind_front is_blank (c ∷ s))
          (match_bounds (behind_front is_blank (c ∷ s))))
    else none

-- A text that has to follow.
unfoldable pub with_rest : Match → Option (List ℕ) → Option Match
with_rest m none = none
with_rest m (some rest) = some (record m { rest = rest })

unfoldable pub followed_by : List ℕ → Option Match → Option Match
followed_by p none = none
followed_by p (some m) = with_rest m (strip_prefix p m.rest)

-- A keyword, a gap, a name, and a text behind it.
unfoldable pub match_behind : List ℕ → List ℕ → List ℕ → Option (List ℕ) → Option Match
match_behind keyword name ending none = none
match_behind keyword name ending (some rest) =
    followed_by ending (followed_by name (match_gap keyword rest))

unfoldable pub match_keyword : List ℕ → List ℕ → List ℕ → List ℕ → Option Match
match_keyword keyword name ending s = match_behind keyword name ending (strip_prefix keyword s)

-- The first pattern that matches.
abbrev pub or_else {ℓ} : {A : Type ℓ} → Option A → Option A → Option A
or_else none y = y
or_else (some x) y = some x

-- `(wire|assign)(\s+(?:\[(\d+:\d)\])?\s*)name( = )`
unfoldable pub match_wire : List ℕ → List ℕ → Option Match
match_wire name s =
    or_else (match_keyword (codes "wire") name (codes " = ") s)
      (match_keyword (codes "assign") name (codes " = ") s)

-- `reg(\s+(?:\[(\d+:\d)\])?\s*)name;`
unfoldable pub match_reg : List ℕ → List ℕ → Option Match
match_reg name s = match_keyword (codes "reg") name (codes ";") s

-- A text as a pattern.
abbrev pub before_rest : List ℕ → Option (List ℕ) → Option Match
before_rest p none = none
before_rest p (some rest) = some (record { keyword = p; gap = []; bounds = none; rest = rest })

unfoldable pub match_text : List ℕ → List ℕ → Option Match
match_text p s = before_rest p (strip_prefix p s)

-- `name( (?:=|<=) )`
unfoldable pub match_assigned : List ℕ → List ℕ → Option Match
match_assigned name s =
    or_else (match_text (name ++ codes " = ") s) (match_text (name ++ codes " <= ") s)

-- The matches from left to right, and the text with each of them replaced; the first number counts
-- the characters of a match that are still to pass. No pattern matches the empty text.
module _ (pattern_at : List ℕ → Option Match) where
  unfoldable pub find_all : ℕ → List ℕ → List Match
  find_all passing [] = []
  find_all (suc passing) (c ∷ s) = find_all passing s
  find_all zero (c ∷ s) = elim (pattern_at (c ∷ s)) [
    | none ↦ find_all zero s
    | some m ↦ m ∷ find_all (length s - length m.rest) s
  ]

  unfoldable pub sub_all : List ℕ → ℕ → List ℕ → List ℕ
  sub_all replacement passing [] = []
  sub_all replacement (suc passing) (c ∷ s) = sub_all replacement passing s
  sub_all replacement zero (c ∷ s) = elim (pattern_at (c ∷ s)) [
    | none ↦ c ∷ sub_all replacement zero s
    | some m ↦ replacement ++ sub_all replacement (length s - length m.rest) s
  ]

unfoldable pub findall : (List ℕ → Option Match) → List ℕ → List Match
findall pattern_at s = find_all pattern_at zero s

unfoldable pub sub : (List ℕ → Option Match) → List ℕ → List ℕ → List ℕ
sub pattern_at replacement s = sub_all pattern_at replacement zero s
