-- ===== src/Injector/Instances/Lookup.antt =====
-- Finding an instance by the names on the way to it.
use chipyard_fault_injection.Common.{
  ℕ, ◌≡◌, refl, ap, ap₂, sym, ◌∙◌, true, false, Option, none, some, List, [], ◌∷◌, if◌then◌else◌,
  ok, err, exited, Bool-cases, inl, inr, arith,
}
use chipyard_fault_injection.Common.Text.{same_text}
use chipyard_fault_injection.Injector.Paths.{path_remainder}
use chipyard_fault_injection.Injector.Instances.{
  Instance, Instances, end, child, name_of, children_of, mark_fault, mark_child,
}

pub same_text-eq : (a b : List ℕ) → same_text a b ≡ true → a ≡ b
same_text-eq [] [] e = refl
same_text-eq [] (c ∷ b) e = absurd (ground (arith, e))
same_text-eq (c ∷ a) [] e = absurd (ground (arith, e))
same_text-eq (c ∷ a) (d ∷ b) e =
    let head : c ≡ d = ground (arith, e) in
    ap₂ (λ (x : ℕ) (xs : List ℕ). x ∷ xs) head (same_text-eq a b (ground (arith, e)))

pub same_text_self : (a : List ℕ) → same_text a a ≡ true
same_text_self [] = refl
same_text_self (c ∷ a) = ground (arith, same_text_self a)

-- The first child of a name.
abbrev pub find_child : List ℕ → Instances → Option Instance
find_child name end = none
find_child name (child c cs) = if same_text (name_of c) name then some c else find_child name cs

-- The instance below, by the names from the first child on.
abbrev pub below : List (List ℕ) → Option Instance → Option Instance
below names none = none
below [] (some t) = some t
below (n ∷ ns) (some t) = below ns (find_child n (children_of t))

abbrev pub replace_child : List ℕ → Instance → Instances → Instances
replace_child name c' end = end
replace_child name c' (child c cs) =
    if same_text (name_of c) name then child c' cs else child c (replace_child name c' cs)

pub mark_child_found :
    (name path rest : List ℕ) (cs : Instances) (c c' : Instance)
    → find_child name cs ≡ some c
    → path_remainder path ≡ some rest
    → mark_fault c rest ≡ ok c'
    → mark_child name path cs ≡ ok (replace_child name c' cs)
unfolding mark_child
mark_child_found name path rest end c c' found remains marked = absurd (cc)
mark_child_found name path rest (child d cs) c c' found remains marked =
    elim (Bool-cases (same_text (name_of d) name)) [
      | inl here ↦
          let found' : some d ≡ some c = rw here at found in
          let same : d ≡ c = cc in
          rw (here, remains, ap (λ (t : Instance). mark_fault t rest) same ∙ marked)
      | inr later ↦
          rw (later, mark_child_found name path rest cs c c' (rw later at found) remains marked)
    ]

pub mark_child_lost :
    (name path : List ℕ) (cs : Instances)
    → find_child name cs ≡ none
    → mark_child name path cs ≡ err (exited 1)
unfolding mark_child
mark_child_lost name path end lost = refl
mark_child_lost name path (child d cs) lost = elim (Bool-cases (same_text (name_of d) name)) [
  | inl here ↦ let lost' : some d ≡ none = rw here at lost in absurd (cc)
  | inr later ↦ rw (later, mark_child_lost name path cs (rw later at lost))
]

pub name_of-find_child :
    (name : List ℕ) (cs : Instances) (c : Instance) → find_child name cs ≡ some c → name_of c ≡ name
name_of-find_child name end c found = absurd (cc)
name_of-find_child name (child d cs) c found = elim (Bool-cases (same_text (name_of d) name)) [
  | inl here ↦
      let found' : some d ≡ some c = rw here at found in
      let same : d ≡ c = cc in sym (ap name_of same) ∙ same_text-eq (name_of d) name here
  | inr later ↦ name_of-find_child name cs c (rw later at found)
]

pub different : (a b : List ℕ) → same_text a b ≡ false → same_text b a ≡ false
different a b apart = elim (Bool-cases (same_text b a)) [
  | inl e ↦ absurd (ground (arith, apart, same_text_self a, ap (same_text a) (same_text-eq b a e)))
  | inr e ↦ e
]

-- A child that is replaced under its name is found under it, and the others are as they were.
pub find_child-replace_child :
    (name q : List ℕ) (cs : Instances) (c c' : Instance)
    → find_child name cs ≡ some c
    → name_of c' ≡ name
    → find_child q (replace_child name c' cs)
      ≡ (if same_text name q then some c' else find_child q cs)
find_child-replace_child name q end c c' found named = absurd (cc)
find_child-replace_child name q (child d cs) c c' found named =
    elim (Bool-cases (same_text (name_of d) name)) [
      | inl here ↦
          let same : name_of d ≡ name = same_text-eq (name_of d) name here in
          rw (here, named, same) (ground arith)
      | inr later ↦ elim (Bool-cases (same_text (name_of d) q)) [
        | inl other ↦
            let apart : same_text name q ≡ false =
              rw (same_text-eq (name_of d) q other) at (different (name_of d) name later) in
            rw (later, other, apart)
        | inr neither ↦
            rw (later, neither) (find_child-replace_child name q cs c c' (rw later at found) named)
      ]
    ]
