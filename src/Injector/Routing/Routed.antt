-- ===== src/Injector/Routing/Routed.antt =====
-- After any faults were marked: what `inject_faults` routes to a child is what the child has.
use chipyard_fault_injection.Common.{
  true, ℕ, ◌≡◌, sym, subst, >>=-eq-ok, ◌∙◌, some, List, [], ◌∷◌, ◌++◌, map, Result, ok, err, exited,
  get_elem?, inl, inr, Option-cases,
}
use chipyard_fault_injection.Injector.Paths.Rendered.{AllNames, IsTarget, rendered}
use chipyard_fault_injection.Injector.Instances.{Instance, mark_fault, mark_faults}
use chipyard_fault_injection.Injector.Instances.Lookup.{below}
use chipyard_fault_injection.Injector.Instances.Marking.{faults_at, Marked, mark_fault-marks}
use chipyard_fault_injection.Injector.Instances.Lost.{mark_fault-lost}
use chipyard_fault_injection.Injector.Routing.{ChildFaults, child_faults}
use chipyard_fault_injection.Injector.Routing.Agreement.{Consistent, Marked-Consistent}
use chipyard_fault_injection.Injector.Routing.Numbers.{
  numbers_for, left_of, child_faults-numbers, left_of-child_faults,
}
use chipyard_fault_injection.Injector.Routing.Unmarked.{is_unmarked, unmarked-Consistent}

-- A fault: the names from the root on, and the target behind them.
pub record FaultPath : Type 0 where
  pub root : List ℕ
  pub below : List (List ℕ)
  pub target : List ℕ

abbrev pub text_of : FaultPath → List ℕ
text_of f = rendered (f.root ∷ f.below) f.target

pub record IsFaultPath (f : FaultPath) : Type 0 where
  pub names : AllNames (f.root ∷ f.below)
  pub target_ok : IsTarget f.target

abbrev pub AllFaultPaths : List FaultPath → Type 0
AllFaultPaths [] = Unit {0}
AllFaultPaths (f ∷ fs) = IsFaultPath f × AllFaultPaths fs

mark_fault-Marked :
    (f : FaultPath) (t t' : Instance)
    → IsFaultPath f
    → mark_fault t (text_of f) ≡ ok t'
    → Marked f.root f.below f.target t t'
mark_fault-Marked f t t' good e = elim (Option-cases (below f.below (some t))) [
  | inl lost ↦
      let fails = mark_fault-lost f.root f.below f.target t good.names good.target_ok lost in
      let clash : ◌≡◌ {A = Result Instance} (err (exited 1)) (ok t') = sym fails ∙ e in absurd (cc)
  | inr (u, there) ↦
      let (t'', e', marked) =
        mark_fault-marks f.root f.below f.target t u good.names good.target_ok there in
      let same : ◌≡◌ {A = Result Instance} (ok t'') (ok t') = sym e' ∙ e in
      let same' : t'' ≡ t' = cc in
      subst (λ (x : Instance). Marked f.root f.below f.target t x) same' marked
]

mark_faults-Consistent :
    (fs : List FaultPath) (t t' : Instance)
    → AllFaultPaths fs
    → Consistent t
    → mark_faults t (map text_of fs) ≡ ok t'
    → Consistent t'
unfolding mark_faults
mark_faults-Consistent [] t t' good c e =
    let e' : ◌≡◌ {A = Result Instance} (ok t) (ok t') = e in
    let same : t ≡ t' = cc in subst Consistent same c
mark_faults-Consistent (f ∷ fs) t t' good c e =
    let (t1, marked, rest) =
      >>=-eq-ok (mark_fault t (text_of f)) (λ (x : Instance). mark_faults x (map text_of fs)) e in
    mark_faults-Consistent fs t1 t' good.1
      (Marked-Consistent f.root f.below f.target t t1 good.0.names good.0.target_ok
        (mark_fault-Marked f t t1 good.0 marked) c)
      rest

-- After faults with well-formed paths were marked in a tree without any, at every instance and for
-- each of its children: `inject_faults` collects, under the name of the child, the numbers of faults
-- of the instance, and what is left of their paths is, in order, the list of the faults of the child. So the
-- two have as many faults for each other.
pub routed :
    (faults : List FaultPath) (t t' : Instance) (p : List (List ℕ)) (name : List ℕ)
    (fs gs : List (List ℕ))
    → AllFaultPaths faults
    → is_unmarked t ≡ true
    → mark_faults t (map text_of faults) ≡ ok t'
    → faults_at p t' ≡ some fs
    → faults_at (p ++ name ∷ []) t' ≡ some gs
    → (d : ChildFaults) × (child_faults fs ≡ ok d)
      × (map (λ (i : ℕ). left_of (get_elem? fs i)) (numbers_for name d)
          ≡ map (λ (x : List ℕ). some x) gs)
routed faults t t' p name fs gs good clean e at_p at_child =
    let c = mark_faults-Consistent faults t t' good (unmarked-Consistent t clean) e in
    let (d, grouped, numbers) = child_faults-numbers fs (c.named p fs at_p) in
    (
      d,
      grouped,
      rw (numbers name) (left_of-child_faults name fs ∙ c.agree p name fs gs at_p at_child),
    )
