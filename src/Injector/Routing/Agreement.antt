-- ===== src/Injector/Routing/Agreement.antt =====
-- The faults that an instance hands to a child are the child's own, in their order.
use chipyard_fault_injection.Common.{
  ℕ, ◌≡◌, refl, ap, ap₂, sym, ◌∙◌, Bool, true, false, Option, none, some, List, [], ◌∷◌, ◌++◌, map,
  if◌then◌else◌, Bool-cases, inl, inr, append-nil,
}
use mathlib.Core.List.{map-append}
use chipyard_fault_injection.Common.Text.{same_text}
use chipyard_fault_injection.Injector.Paths.{path_parts, path_remainder}
use chipyard_fault_injection.Injector.Paths.Rendered.{
  AllNames, IsTarget, path_parts-rendered, path_remainder-rendered,
}
use chipyard_fault_injection.Injector.Instances.{Instance}
use chipyard_fault_injection.Injector.Instances.Marking.{faults_at, left_at, appended, Marked}

-- A path that goes to the child of this name.
abbrev pub second_is : List ℕ → List (List ℕ) → Bool
second_is name [] = false
second_is name (a ∷ []) = false
second_is name (a ∷ b ∷ parts) = same_text b name

abbrev pub has_name : List (List ℕ) → Bool
has_name [] = false
has_name (a ∷ parts) = true

abbrev pub AllNamed : List (List ℕ) → Type 0
AllNamed [] = Unit {0}
AllNamed (path ∷ paths) = (has_name (path_parts path) ≡ true) × AllNamed paths

-- What is left of the paths that go to a child.
abbrev pub handed : List ℕ → List (List ℕ) → List (Option (List ℕ))
handed name [] = []
handed name (path ∷ paths) =
    if second_is name (path_parts path)
    then path_remainder path ∷ handed name paths
    else handed name paths

abbrev pub as_list {ℓ} : {A : Type ℓ} → Option A → List A
as_list none = []
as_list (some x) = x ∷ []

handed-append :
    (name : List ℕ) (xs ys : List (List ℕ))
    → handed name (xs ++ ys) ≡ handed name xs ++ handed name ys
handed-append name [] ys = refl
handed-append name (x ∷ xs) ys = elim (Bool-cases (second_is name (path_parts x))) [
  | inl e ↦
      rw e (ap (λ (l : List (Option (List ℕ))). path_remainder x ∷ l) (handed-append name xs ys))
  | inr e ↦ rw e (handed-append name xs ys)
]

-- What a fault path leaves at a child is what its parent hands on.
handed-left_at :
    (name : List ℕ) (p : List (List ℕ)) (root : List ℕ) (ns : List (List ℕ)) (tail : List ℕ)
    → AllNames (root ∷ ns)
    → IsTarget tail
    → handed name (as_list (left_at p root ns tail))
      ≡ map (λ (x : List ℕ). some x) (as_list (left_at (p ++ name ∷ []) root ns tail))
handed-left_at name [] root [] tail names target =
    rw (path_parts-rendered (root ∷ []) tail names target)
handed-left_at name [] root (m ∷ ms) tail names target =
    rw (path_parts-rendered (root ∷ m ∷ ms) tail names target)
      (elim (Bool-cases (same_text m name)) [
        | inl e ↦ rw (e, path_remainder-rendered root m ms tail names target)
        | inr e ↦ rw e
      ])
handed-left_at name (q ∷ p) root [] tail names target = refl
handed-left_at name (q ∷ p) root (m ∷ ms) tail names target = elim (Bool-cases (same_text m q)) [
  | inl e ↦ rw e (handed-left_at name p m ms tail names.1 target)
  | inr e ↦ rw e
]

-- Every instance hands on to each child what the child has, and has no path without a name.
pub record Consistent (t : Instance) : Type 0 where
  pub agree :
      (p : List (List ℕ)) (name : List ℕ) (fs gs : List (List ℕ))
      → faults_at p t ≡ some fs
      → faults_at (p ++ name ∷ []) t ≡ some gs
      → handed name fs ≡ map (λ (x : List ℕ). some x) gs
  pub named : (p fs : List (List ℕ)) → faults_at p t ≡ some fs → AllNamed fs

appended-some :
    (o : Option (List ℕ)) (faults : Option (List (List ℕ))) (fs' : List (List ℕ))
    → appended o faults ≡ some fs'
    → (fs : List (List ℕ)) × (faults ≡ some fs) × (fs' ≡ fs ++ as_list o)
appended-some none faults fs' e = (fs', e, sym (append-nil fs'))
appended-some (some x) none fs' e = absurd (cc)
appended-some (some x) (some fs) fs' e =
    let e' : some (fs ++ x ∷ []) ≡ some fs' = e in (fs, refl, cc)

AllNamed-append : (xs ys : List (List ℕ)) → AllNamed xs → AllNamed ys → AllNamed (xs ++ ys)
AllNamed-append [] ys a b = b
AllNamed-append (x ∷ xs) ys a b = (a.0, AllNamed-append xs ys a.1 b)

left_at-AllNamed :
    (p : List (List ℕ)) (root : List ℕ) (ns : List (List ℕ)) (tail : List ℕ)
    → AllNames (root ∷ ns)
    → IsTarget tail
    → AllNamed (as_list (left_at p root ns tail))
left_at-AllNamed [] root ns tail names target =
    (rw (path_parts-rendered (root ∷ ns) tail names target), tt)
left_at-AllNamed (q ∷ p) root [] tail names target = tt
left_at-AllNamed (q ∷ p) root (m ∷ ms) tail names target = elim (Bool-cases (same_text m q)) [
  | inl e ↦ rw e (left_at-AllNamed p m ms tail names.1 target)
  | inr e ↦ rw e tt
]

pub Marked-Consistent :
    (root : List ℕ) (ns : List (List ℕ)) (tail : List ℕ) (t t' : Instance)
    → AllNames (root ∷ ns)
    → IsTarget tail
    → Marked root ns tail t t'
    → Consistent t
    → Consistent t'
Marked-Consistent root ns tail t t' names target marked c = record {
  agree = λ p name fs' gs' at_p at_child.
      let (fs, before_p, efs) =
        appended-some (left_at p root ns tail) (faults_at p t) fs' (sym (marked.1 p) ∙ at_p) in
      let (gs, before_child, egs) =
        appended-some (left_at (p ++ name ∷ []) root ns tail) (faults_at (p ++ name ∷ []) t) gs'
          (sym (marked.1 (p ++ name ∷ [])) ∙ at_child) in
      rw (efs, egs)
        (handed-append name fs (as_list (left_at p root ns tail))
          ∙ ap₂ ◌++◌ (c.agree p name fs gs before_p before_child)
              (handed-left_at name p root ns tail names target)
          ∙ sym (
              map-append (λ (x : List ℕ). some x) gs
                (as_list (left_at (p ++ name ∷ []) root ns tail))));
  named = λ p fs' at_p.
      let (fs, before_p, efs) =
        appended-some (left_at p root ns tail) (faults_at p t) fs' (sym (marked.1 p) ∙ at_p) in
      rw efs (
        AllNamed-append fs (as_list (left_at p root ns tail)) (c.named p fs before_p)
          (left_at-AllNamed p root ns tail names target));
}
