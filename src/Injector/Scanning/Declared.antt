-- ===== src/Injector/Scanning/Declared.antt =====
-- A declaration is found: its keyword, the blanks behind it, and its end.
use chipyard_fault_injection.Common.{
  ℕ, ◌≡◌, refl, ap, ◌∙◌, Bool, true, false, not, Option, none, some, List, [], ◌∷◌, ◌++◌, ◌==◌,
  arith,
}
use chipyard_fault_injection.Common.Text.{codes}
use chipyard_fault_injection.Injector.Paths.{is_word, is_empty}
use chipyard_fault_injection.Injector.Paths.Rendered.{IsName}
use chipyard_fault_injection.Injector.Scanning.{
  is_blank, front_of, behind_front, strip_prefix, match_bounds, with_rest, match_behind, Match,
  bounded, match_gap, with_rest, match_behind, followed_by, match_keyword, match_wire,
}

-- Characters of one kind.
abbrev pub AllOf : (ℕ → Bool) → List ℕ → Type 0
AllOf kind [] = Unit {0}
AllOf kind (c ∷ s) = (kind c ≡ true) × AllOf kind s

-- Blanks, at least one.
abbrev pub IsGap : List ℕ → Type 0
IsGap s = AllOf is_blank s × (is_empty s ≡ false)

pub strip_prefix-append : (p s : List ℕ) → strip_prefix p (p ++ s) ≡ some s
unfolding strip_prefix
strip_prefix-append [] s = refl
strip_prefix-append (c ∷ p) s = ground (arith, strip_prefix-append p s)

-- A text does not begin with a character of the kind.
abbrev pub none_first : (ℕ → Bool) → List ℕ → Bool
none_first kind [] = true
none_first kind (c ∷ s) = not (kind c)

not-true : (b : Bool) → not b ≡ true → b ≡ false
not-true true e = absurd (cc e)
not-true false e = refl

pub front_of-append :
    (kind : ℕ → Bool) (cs s : List ℕ)
    → AllOf kind cs
    → none_first kind s ≡ true
    → front_of kind (cs ++ s) ≡ cs
unfolding front_of
front_of-append kind [] [] all apart = refl
front_of-append kind [] (c ∷ s) all apart = rw (not-true (kind c) apart)
front_of-append kind (c ∷ cs) s all apart =
    rw (all.0) (ap (λ (l : List ℕ). c ∷ l) (front_of-append kind cs s all.1 apart))

pub behind_front-append :
    (kind : ℕ → Bool) (cs s : List ℕ)
    → AllOf kind cs
    → none_first kind s ≡ true
    → behind_front kind (cs ++ s) ≡ s
unfolding behind_front
behind_front-append kind [] [] all apart = refl
behind_front-append kind [] (c ∷ s) all apart = rw (not-true (kind c) apart)
behind_front-append kind (c ∷ cs) s all apart =
    rw (all.0) (behind_front-append kind cs s all.1 apart)

word_no_blank : (c : ℕ) → is_word c ≡ true → is_blank c ≡ false
unfolding is_word is_blank
word_no_blank c w = ground arith

word_no_bracket : (c : ℕ) → is_word c ≡ true → c == b'[' ≡ false
unfolding is_word
word_no_bracket c w = ground arith

pub name_no_blank : (name s : List ℕ) → IsName name → none_first is_blank (name ++ s) ≡ true
name_no_blank [] s ok = absurd (cc (ok.1))
name_no_blank (c ∷ name) s ok = rw (word_no_blank c ok.0.0)

match_bounds-name : (name s : List ℕ) → IsName name → match_bounds (name ++ s) ≡ none
unfolding match_bounds
match_bounds-name [] s ok = absurd (cc (ok.1))
match_bounds-name (c ∷ name) s ok = rw (word_no_bracket c ok.0.0)

match_gap-name :
    (keyword gap name s : List ℕ)
    → IsGap gap
    → IsName name
    → match_gap keyword (gap ++ (name ++ s))
      ≡ some (record { keyword = keyword; gap = gap; bounds = none; rest = name ++ s })
unfolding match_gap bounded
match_gap-name keyword [] name s blank ok = absurd (cc (blank.1))
match_gap-name keyword (c ∷ gap) name s blank ok =
    let apart = name_no_blank name s ok in
    rw (
      blank.0.0,
      front_of-append is_blank (c ∷ gap) (name ++ s) blank.0 apart,
      behind_front-append is_blank (c ∷ gap) (name ++ s) blank.0 apart,
      match_bounds-name name s ok,
    )

pub match_keyword-declared :
    (keyword gap name ending post : List ℕ)
    → IsGap gap
    → IsName name
    → match_keyword keyword name ending (keyword ++ (gap ++ (name ++ (ending ++ post))))
      ≡ some (record { keyword = keyword; gap = gap; bounds = none; rest = post })
unfolding match_keyword match_behind followed_by with_rest
match_keyword-declared keyword gap name ending post blank ok =
    let m : Match = record {
      keyword = keyword;
      gap = gap;
      bounds = none;
      rest = name ++ (ending ++ post);
    } in
    ap (match_behind keyword name ending)
      (strip_prefix-append keyword (gap ++ (name ++ (ending ++ post))))
    ∙ ap (λ (o : Option Match). followed_by ending (followed_by name o))
        (match_gap-name keyword gap name (ending ++ post) blank ok)
    ∙ ap (λ (o : Option (List ℕ)). followed_by ending (with_rest m o))
        (strip_prefix-append name (ending ++ post))
    ∙ ap (with_rest (record m { rest = ending ++ post })) (strip_prefix-append ending post)

-- The keyword of a declaration with a value, and of an assignment.
abbrev pub keyword_of : Bool → List ℕ
keyword_of true = codes "assign"
keyword_of false = codes "wire"

pub no_wire :
    (name ending s : List ℕ) → match_keyword (codes "wire") name ending (codes "assign" ++ s) ≡ none
unfolding match_keyword match_behind strip_prefix
no_wire name ending s = refl

pub match_wire-declared :
    (assigned : Bool) (gap name post : List ℕ)
    → IsGap gap
    → IsName name
    → match_wire name (keyword_of assigned ++ (gap ++ (name ++ (codes " = " ++ post))))
      ≡ some (record { keyword = keyword_of assigned; gap = gap; bounds = none; rest = post })
unfolding match_wire
match_wire-declared true gap name post blank ok =
    rw (no_wire name (codes " = ") (gap ++ (name ++ (codes " = " ++ post))))
      (match_keyword-declared (codes "assign") gap name (codes " = ") post blank ok)
match_wire-declared false gap name post blank ok =
    rw (match_keyword-declared (codes "wire") gap name (codes " = ") post blank ok)
