-- ===== src/Injector/Substitution/Scalar.antt =====
-- `inject_fault` on a wire of one bit that is declared, or assigned, once.
use chipyard_fault_injection.Common.{
  ℕ, ◌≡◌, refl, ap, ◌∙◌, Bool, false, Option, none, List, [], ◌∷◌, ◌++◌, append_assoc, append-nil,
  ok,
}
use chipyard_fault_injection.Common.Text.{codes, joined}
use chipyard_fault_injection.Injector.Paths.Rendered.{IsName}
use chipyard_fault_injection.Injector.Scanning.{Match, match_wire}
use chipyard_fault_injection.Injector.Scanning.Quiet.{Quiet}
use chipyard_fault_injection.Injector.Scanning.Declared.{IsGap, keyword_of, match_wire-declared}
use chipyard_fault_injection.Injector.Substitution.Once.{
  declared, Alone, findall-declared, sub-declared,
}
use chipyard_fault_injection.Injector.Substitution.{
  Names, sample_wire_original, output_line, wire_substitution, substitution, inject_wire,
  inject_fault,
}

-- The wire driven by the fault input, the fault output, and the original value under the new name.
abbrev pub with_fault : Bool → List ℕ → Names → List ℕ
with_fault assigned gap n = joined (
    declared assigned (codes " ") n.sample_wire
    ∷ n.fault_input_wire
    ∷ codes "; // fault injection "
    ∷ (10 ∷ [])
    ∷ codes "  assign "
    ∷ n.fault_output_wire
    ∷ codes " = "
    ∷ n.sample_wire
    ∷ codes "_original"
    ∷ codes "; // direct original value to output "
    ∷ (10 ∷ [])
    ∷ codes "  "
    ∷ declared false gap (sample_wire_original n)
    ∷ [])

-- The match.
abbrev found : Bool → List ℕ → List ℕ → Match
found assigned gap post = record {
  keyword = keyword_of assigned;
  gap = gap;
  bounds = none;
  rest = post;
}

wire_substitution-with_fault :
    (assigned : Bool) (gap : List ℕ) (n : Names) (post : List ℕ)
    → wire_substitution n (found assigned gap post) ≡ with_fault assigned gap n
unfolding wire_substitution output_line
wire_substitution-with_fault assigned gap n post = simp (append_assoc, append-nil)

-- A wire of one bit whose value is declared, or assigned, in one place of a module's text, where `re`
-- finds no other match: the wire is driven by the fault input there, the fault output by the wire's
-- original value, which gets a wire of its own, and the rest of the text stays as it is. A bit in the
-- fault path is ignored.
pub inject_fault-scalar :
    (random : ℕ → ℕ → ℕ) (n : Names) (bus_index : Option (List ℕ)) (assigned : Bool)
    (gap before post : List ℕ)
    → IsGap gap
    → IsName n.sample_wire
    → Quiet (match_wire n.sample_wire) before (declared assigned gap n.sample_wire ++ post)
    → Quiet (match_wire n.sample_wire) post []
    → inject_fault random n bus_index (before ++ (declared assigned gap n.sample_wire ++ post))
      ≡ ok (before ++ (with_fault assigned gap n ++ post))
unfolding inject_fault inject_wire substitution
inject_fault-scalar random n bus_index assigned gap before post blank named quiet quiet' =
    let name : List ℕ = n.sample_wire in
    let text : List ℕ = before ++ (declared assigned gap name ++ post) in
    let m : Match = found assigned gap post in
    let alone : Alone gap name before post m refl assigned = record {
      found_here = match_wire-declared assigned gap name post blank named;
      none_before = quiet;
      none_after = quiet';
    } in
    ap (inject_wire random n bus_index text)
      (findall-declared gap name before post m refl assigned alone)
    ∙ ap (λ (t : List ℕ). ok t)
        (sub-declared gap name before post m refl assigned (wire_substitution n m) alone
          ∙ ap (λ (r : List ℕ). before ++ (r ++ post))
              (wire_substitution-with_fault assigned gap n post))
