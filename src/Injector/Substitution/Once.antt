-- ===== src/Injector/Substitution/Once.antt =====
-- A wire that is declared, or assigned, in one place of a text.
use chipyard_fault_injection.Common.{
  ℕ, ◌≡◌, ap, ◌∙◌, Bool, true, false, some, List, [], ◌∷◌, ◌++◌, append_assoc,
}
use chipyard_fault_injection.Common.Text.{codes}
use chipyard_fault_injection.Injector.Scanning.{Match, match_wire, findall, sub}
use chipyard_fault_injection.Injector.Scanning.Quiet.{Quiet, findall-once, sub_once}
use chipyard_fault_injection.Injector.Scanning.Declared.{keyword_of}

-- `wire name = `, or `assign name = `, with these blanks.
abbrev pub declared : Bool → List ℕ → List ℕ → List ℕ
declared assigned gap name = keyword_of assigned ++ (gap ++ (name ++ codes " = "))

split_declared :
    (assigned : Bool) (gap name post : List ℕ)
    → declared assigned gap name ++ post
      ≡ keyword_of assigned ++ (gap ++ (name ++ (codes " = " ++ post)))
split_declared assigned gap name post = simp (append_assoc)

module _ (gap name before post : List ℕ) (m : Match) (remains : m.rest ≡ post) where
  -- The declaration is found as this match, and there is no other.
  pub record Alone (assigned : Bool) : Type 0 where
    pub found_here :
        match_wire name (keyword_of assigned ++ (gap ++ (name ++ (codes " = " ++ post)))) ≡ some m
    pub none_before : Quiet (match_wire name) before (declared assigned gap name ++ post)
    pub none_after : Quiet (match_wire name) post []

  matched :
      (assigned : Bool)
      → Alone assigned
      → match_wire name (declared assigned gap name ++ post) ≡ some m
  matched assigned alone =
      ap (match_wire name) (split_declared assigned gap name post) ∙ alone.found_here

  pub findall-declared :
      (assigned : Bool)
      → Alone assigned
      → findall (match_wire name) (before ++ (declared assigned gap name ++ post)) ≡ m ∷ []
  findall-declared true alone =
      findall-once (match_wire name) before b'a' (codes "ssign" ++ (gap ++ (name ++ codes " = ")))
        post m alone.none_before (matched true alone) remains alone.none_after
  findall-declared false alone =
      findall-once (match_wire name) before b'w' (codes "ire" ++ (gap ++ (name ++ codes " = ")))
        post m alone.none_before (matched false alone) remains alone.none_after

  pub sub-declared :
      (assigned : Bool) (replacement : List ℕ)
      → Alone assigned
      → sub (match_wire name) replacement (before ++ (declared assigned gap name ++ post))
        ≡ before ++ (replacement ++ post)
  sub-declared true replacement alone =
      sub_once (match_wire name) replacement before b'a'
        (codes "ssign" ++ (gap ++ (name ++ codes " = "))) post m alone.none_before
        (matched true alone) remains alone.none_after
  sub-declared false replacement alone =
      sub_once (match_wire name) replacement before b'w'
        (codes "ire" ++ (gap ++ (name ++ codes " = "))) post m alone.none_before
        (matched false alone) remains alone.none_after
