-- ===== src/Injector/Traversal/Firsts.antt =====
-- The first modules of each type in a list, and the file with them.
use chipyard_fault_injection.Common.{
  ℕ, ◌≡◌, ◌⊎◌, refl, ap, sym, ◌∙◌, true, false, ◌||◌, List, [], ◌∷◌, ◌++◌, if◌then◌else◌, arith,
  append_assoc, Bool-cases, inl, inr,
}
use chipyard_fault_injection.Common.Text.{same_text}
use chipyard_fault_injection.Injector.Instances.{Module}
use chipyard_fault_injection.Injector.Instances.Lookup.{same_text_self, same_text-eq}
use chipyard_fault_injection.Injector.Traversal.{contains_text}
use chipyard_fault_injection.Injector.Traversal.Order.{Distinct}

-- Of each type the first module, except for types that were seen.
abbrev pub firsts : List (List ℕ) → List Module → List Module
firsts seen [] = []
firsts seen (m ∷ ms) =
    if contains_text seen m.type then firsts seen ms else m ∷ firsts (m.type ∷ seen) ms

-- The types that were seen after some modules.
abbrev pub seen_after : List (List ℕ) → List Module → List (List ℕ)
seen_after seen [] = seen
seen_after seen (m ∷ ms) =
    if contains_text seen m.type then seen_after seen ms else seen_after (m.type ∷ seen) ms

abbrev pub file_of : List Module → List ℕ
file_of [] = []
file_of (m ∷ ms) = m.module_text ++ (10 ∷ file_of ms)

pub file_of-append : (xs ys : List Module) → file_of (xs ++ ys) ≡ file_of xs ++ file_of ys
file_of-append [] ys = refl
file_of-append (m ∷ xs) ys = simp (file_of-append xs ys, append_assoc)

pub firsts-append :
    (xs ys : List Module) (seen : List (List ℕ))
    → firsts seen (xs ++ ys) ≡ firsts seen xs ++ firsts (seen_after seen xs) ys
firsts-append [] ys seen = refl
firsts-append (m ∷ xs) ys seen = elim (Bool-cases (contains_text seen m.type)) [
  | inl e ↦ rw e (firsts-append xs ys seen)
  | inr e ↦ rw e (ap (λ (l : List Module). m ∷ l) (firsts-append xs ys (m.type ∷ seen)))
]

pub seen_after-append :
    (xs ys : List Module) (seen : List (List ℕ))
    → seen_after seen (xs ++ ys) ≡ seen_after (seen_after seen xs) ys
seen_after-append [] ys seen = refl
seen_after-append (m ∷ xs) ys seen = elim (Bool-cases (contains_text seen m.type)) [
  | inl e ↦ rw e (seen_after-append xs ys seen)
  | inr e ↦ rw e (seen_after-append xs ys (m.type ∷ seen))
]

pub grown :
    (xs ys : List Module) (written : List (List ℕ)) (text : List ℕ)
    → text ++ file_of (firsts written xs) ++ file_of (firsts (seen_after written xs) ys)
      ≡ text ++ file_of (firsts written (xs ++ ys))
grown xs ys written text =
    append_assoc text (file_of (firsts written xs)) (file_of (firsts (seen_after written xs) ys))
    ∙ ap (λ (l : List ℕ). text ++ l)
        (sym (file_of-append (firsts written xs) (firsts (seen_after written xs) ys))
          ∙ ap file_of (sym (firsts-append xs ys written)))

-- The types of some modules.
abbrev pub types : List Module → List (List ℕ)
types [] = []
types (m ∷ ms) = m.type ∷ types ms

-- One of some modules.
abbrev pub IsIn : Module → List Module → Type 0
IsIn m [] = ⊥
IsIn m (x ∷ xs) = (x ≡ m) ⊎ IsIn m xs

apart_from :
    (seen : List (List ℕ)) (a x : List ℕ)
    → contains_text seen a ≡ false
    → contains_text seen x ≡ true
    → same_text a x ≡ false
apart_from seen a x f e = elim (Bool-cases (same_text a x)) [
  | inl same ↦
      let clash : contains_text seen a ≡ true =
        ap (contains_text seen) (same_text-eq a x same) ∙ e in
      absurd (ground (arith, clash, f))
  | inr apart ↦ apart
]

not_again :
    (ms : List Module) (seen : List (List ℕ)) (x : List ℕ)
    → contains_text seen x ≡ true
    → contains_text (types (firsts seen ms)) x ≡ false
not_again [] seen x e = refl
not_again (m ∷ ms) seen x e = elim (Bool-cases (contains_text seen m.type)) [
  | inl f ↦ rw f (not_again ms seen x e)
  | inr f ↦
      let apart : same_text m.type x ≡ false = apart_from seen m.type x f e in
      let known : contains_text (m.type ∷ seen) x ≡ true = rw apart e in
      rw (f, apart) (not_again ms (m.type ∷ seen) x known)
]

pub firsts-Distinct : (ms : List Module) (seen : List (List ℕ)) → Distinct (types (firsts seen ms))
firsts-Distinct [] seen = tt
firsts-Distinct (m ∷ ms) seen = elim (Bool-cases (contains_text seen m.type)) [
  | inl f ↦ rw f (firsts-Distinct ms seen)
  | inr f ↦
      let known : contains_text (m.type ∷ seen) m.type ≡ true = rw (same_text_self m.type) in
      rw f (not_again ms (m.type ∷ seen) m.type known, firsts-Distinct ms (m.type ∷ seen))
]

pub firsts_cover :
    (ms : List Module) (seen : List (List ℕ)) (m : Module)
    → IsIn m ms
    → contains_text seen m.type || contains_text (types (firsts seen ms)) m.type ≡ true
firsts_cover [] seen m here = absurd here
firsts_cover (x ∷ ms) seen m (inl same) = elim (Bool-cases (contains_text seen m.type)) [
  | inl f ↦ rw f
  | inr f ↦
      let f' : contains_text seen x.type ≡ false =
        ap (λ (y : Module). contains_text seen y.type) same ∙ f in
      let self : same_text x.type m.type ≡ true =
        ap (λ (y : Module). same_text x.type y.type) (sym same) ∙ same_text_self x.type in
      rw (f, f', self)
]
firsts_cover (x ∷ ms) seen m (inr later) = elim (Bool-cases (contains_text seen x.type)) [
  | inl f ↦ rw f (firsts_cover ms seen m later)
  | inr f ↦ rw f (ground (arith, firsts_cover ms (x.type ∷ seen) m later))
]
