-- ===== src/Injector/Substitution/Bus.antt =====
-- `inject_fault` on a bus that is declared, or assigned, once.
use chipyard_fault_injection.Common.{
  ℕ, ◌-◌, ◌≤◌, ◌<◌, ◌≡◌, refl, ap, Bool, true, false, none, some, List, [], ◌∷◌, ◌++◌, ltb, ◌==◌,
  if◌then◌else◌, lt→ltb, Bool-cases, inl, inr, append_assoc, append-nil, ok, err, invalid_argument,
  arith,
}
use chipyard_fault_injection.Common.Text.{codes, joined, decimal, decimal_from}
use chipyard_fault_injection.Injector.Paths.Rendered.{IsName}
use chipyard_fault_injection.Injector.Scanning.{Match, is_blank, match_wire}
use chipyard_fault_injection.Injector.Scanning.Quiet.{Quiet}
use chipyard_fault_injection.Injector.Scanning.Declared.{AllOf, IsGap, keyword_of}
use chipyard_fault_injection.Injector.Scanning.Bus.{IsBounds, bus_gap, match_wire-bus}
use chipyard_fault_injection.Injector.Substitution.Once.{
  declared, Alone, findall-declared, sub-declared,
}
use chipyard_fault_injection.Injector.Substitution.{
  Names, sample_wire_original, bus_concatination, output_line, bus_substitution, randrange,
  substitution, inject_wire, inject_fault,
}

-- A bus with the bounds `[high:low]`: the parts of its declaration.
pub record Bus : Type 0 where
  pub assigned : Bool
  pub gap : List ℕ
  pub high : List ℕ
  pub low : ℕ
  pub gap' : List ℕ

pub record IsBus (b : Bus) : Type 0 where
  pub blank : IsGap b.gap
  pub bounds : IsBounds b.high b.low
  pub blank' : AllOf is_blank b.gap'

abbrev pub gap_of : Bus → List ℕ
gap_of b = bus_gap b.gap b.high b.low b.gap'

-- The declaration.
abbrev pub bus_declared : Bus → List ℕ → List ℕ
bus_declared b name = declared b.assigned (gap_of b) name

abbrev pub low_of : Bus → ℕ
low_of b = decimal_from 0 (b.low ∷ [])

abbrev pub high_of : Bus → ℕ
high_of b = decimal_from 0 b.high

-- What stands between the braces for an index from the low bound on and below the high one: the
-- original bits from the high bound down to the index, the faulty bit, and the original bits below the
-- index, if there are any.
abbrev pub lower_bits : Bus → List ℕ → ℕ → List ℕ
lower_bits b name index =
    if index == low_of b
    then []
    else joined (
        codes ", "
        ∷ name
        ∷ codes "_original["
        ∷ decimal (index - 1)
        ∷ codes ", "
        ∷ (b.low ∷ [])
        ∷ codes "]"
        ∷ [])

abbrev pub concatenation : Bus → List ℕ → ℕ → List ℕ
concatenation b name index = joined (
    name
    ∷ codes "_original["
    ∷ b.high
    ∷ codes ", "
    ∷ decimal index
    ∷ codes "], "
    ∷ name
    ∷ codes "_faultybit"
    ∷ lower_bits b name index
    ∷ [])

-- The faulty bit as a wire, the bus as a concatenation with it, the fault output, and the original value
-- under the new name.
abbrev pub with_faulty_bit : Bus → Names → ℕ → List ℕ
with_faulty_bit b n index = joined (
    codes "wire "
    ∷ n.sample_wire
    ∷ codes "_faultybit = "
    ∷ n.fault_input_wire
    ∷ codes ";\n "
    ∷ declared b.assigned (codes " ") n.sample_wire
    ∷ codes "{"
    ∷ concatenation b n.sample_wire index
    ∷ codes "} // fault injection \n  assign "
    ∷ n.fault_output_wire
    ∷ codes " = "
    ∷ n.sample_wire
    ∷ codes "_original["
    ∷ decimal index
    ∷ codes "]; // direct original value to output \n  wire"
    ∷ gap_of b
    ∷ n.sample_wire
    ∷ codes "_original = "
    ∷ [])

-- The match.
abbrev found_bus : Bus → List ℕ → Match
found_bus b post = record {
  keyword = keyword_of b.assigned;
  gap = gap_of b;
  bounds = some (b.high, b.low ∷ []);
  rest = post;
}

-- The second test of the code, on such an index.
lower_bits-ltb :
    (b : Bus) (n : Names) (index : ℕ)
    → low_of b ≤ index
    → (if ltb (low_of b) index
        then joined (
            codes ", "
            ∷ sample_wire_original n
            ∷ codes "["
            ∷ decimal (index - 1)
            ∷ codes ", "
            ∷ (b.low ∷ [])
            ∷ codes "]"
            ∷ [])
        else [])
      ≡ lower_bits b n.sample_wire index
lower_bits-ltb b n index le = elim (Bool-cases (index == low_of b)) [
  | inl same ↦
      let least : ltb (low_of b) index ≡ false = ground (arith, same) in rw (least, same) refl
  | inr apart ↦
      let above : ltb (low_of b) index ≡ true = ground (arith, apart, le) in
      rw (above, apart) (simp (append_assoc, append-nil))
]

bus_concatination-concatenation :
    (b : Bus) (n : Names) (index : ℕ)
    → low_of b ≤ index
    → index < high_of b
    → bus_concatination n b.high (b.low ∷ []) index ≡ concatenation b n.sample_wire index
unfolding bus_concatination
bus_concatination-concatenation b n index le lt =
    rw (lt→ltb index (high_of b) lt, lower_bits-ltb b n index le) (simp (append_assoc, append-nil))

bus_substitution-with_faulty_bit :
    (b : Bus) (n : Names) (post : List ℕ) (index : ℕ)
    → low_of b ≤ index
    → index < high_of b
    → bus_substitution n (found_bus b post) b.high (b.low ∷ []) index ≡ with_faulty_bit b n index
unfolding bus_substitution output_line
bus_substitution-with_faulty_bit b n post index le lt =
    rw (bus_concatination-concatenation b n index le lt) (simp (append_assoc, append-nil))

-- What `random.randrange` promises.
abbrev pub Draws : (ℕ → ℕ → ℕ) → Type 0
Draws random = (low high : ℕ) → low < high → (low ≤ random low high) × (random low high < high)

-- The bus is declared, or assigned, in one place of the text.
abbrev pub Once : Bus → List ℕ → List ℕ → List ℕ → Type 0
Once b name before post =
    Quiet (match_wire name) before (bus_declared b name ++ post) × Quiet (match_wire name) post []

alone :
    (b : Bus) (name before post : List ℕ)
    → IsBus b
    → IsName name
    → Once b name before post
    → Alone (gap_of b) name before post (found_bus b post) refl b.assigned
alone b name before post is named once = record {
  found_here =
      match_wire-bus b.assigned b.gap b.high b.low b.gap' name post is.blank is.bounds is.blank'
        named;
  none_before = once.0;
  none_after = once.1;
}

replaced :
    (random : ℕ → ℕ → ℕ) (n : Names) (b : Bus) (post : List ℕ)
    → Draws random
    → low_of b < high_of b
    → substitution random n (found_bus b post) (some (b.high, b.low ∷ [])) none
      ≡ ok (with_faulty_bit b n (random (low_of b) (high_of b)))
unfolding substitution randrange
replaced random n b post draws below =
    let drawn = draws (low_of b) (high_of b) below in
    rw (lt→ltb (low_of b) (high_of b) below) (
      ap (λ (t : List ℕ). ok t)
        (bus_substitution-with_faulty_bit b n post (random (low_of b) (high_of b)) drawn.0 drawn.1))

-- A bus with bounds `[high:low]` that is declared, or assigned, in one place of a module's text, where
-- `re` finds no other match, with a low bound below the high one and a path without a bit, and where the
-- numbers are drawn from the low bound on and below the high one: for the number drawn, the index, the
-- declaration is replaced by a wire with the faulty bit, which takes the fault input;
-- the bus as the concatenation of the original bits `[high, index]`, the faulty bit and, unless the
-- index is the low bound, the original bits `[index - 1, low]`; the fault output, which takes the
-- original bit of the index; and the declaration of the original value. The rest of the text stays as it
-- is.
pub inject_fault-bus :
    (random : ℕ → ℕ → ℕ) (n : Names) (b : Bus) (before post : List ℕ)
    → Draws random
    → IsBus b
    → IsName n.sample_wire
    → Once b n.sample_wire before post
    → low_of b < high_of b
    → inject_fault random n none (before ++ (bus_declared b n.sample_wire ++ post)) ≡ (
        let index = random (low_of b) (high_of b) in
        ok (before ++ (with_faulty_bit b n index ++ post)))
unfolding inject_fault inject_wire
inject_fault-bus random n b before post draws is named once below =
    let name : List ℕ = n.sample_wire in
    let m : Match = found_bus b post in
    let here = alone b name before post is named once in
    rw
      (
        findall-declared (gap_of b) name before post m refl b.assigned here,
        replaced random n b post draws below,
      )
      (ap (λ (t : List ℕ). ok t)
        (sub-declared (gap_of b) name before post m refl b.assigned
          (with_faulty_bit b n (random (low_of b) (high_of b))) here))

-- Where the path has a bit, for a bus that is declared, or assigned, in one place of a module's text,
-- where `re` finds no other match: the script stops, with an error about the argument.
pub inject_fault-bit :
    (random : ℕ → ℕ → ℕ) (n : Names) (index : List ℕ) (b : Bus) (before post : List ℕ)
    → IsBus b
    → IsName n.sample_wire
    → Once b n.sample_wire before post
    → inject_fault random n (some index) (before ++ (bus_declared b n.sample_wire ++ post))
      ≡ err invalid_argument
unfolding inject_fault inject_wire substitution
inject_fault-bit random n index b before post is named once =
    ap (inject_wire random n (some index) (before ++ (bus_declared b n.sample_wire ++ post))) (
      findall-declared (gap_of b) n.sample_wire before post (found_bus b post) refl b.assigned
        (alone b n.sample_wire before post is named once))
