-- ===== src/Injector/Substitution.antt =====
-- Module.py, `inject_fault`.
mod Tests
pub mod Once
pub mod Scalar
pub mod Bus
use chipyard_fault_injection.Common.{
  ℕ, zero, suc, ◌-◌, Bool, Option, none, some, List, [], ◌∷◌, ◌++◌, ltb, if◌then◌else◌, Result, ok,
  err, ◌>>=◌, invalid_argument, exited,
}
use chipyard_fault_injection.Common.Text.{codes, joined, decimal, decimal_from}
use chipyard_fault_injection.Injector.Scanning.{
  Match, match_wire, match_reg, match_text, match_assigned, findall, sub,
}

-- `random.randrange(low, high)`: a ValueError where there is no number.
unfoldable pub randrange : (ℕ → ℕ → ℕ) → ℕ → ℕ → Result ℕ
randrange random low high = if ltb low high then ok (random low high) else err invalid_argument

-- The names of the wire and of the bits of the buses.
pub record Names : Type 0 where
  pub sample_wire : List ℕ
  pub fault_input_wire : List ℕ
  pub fault_output_wire : List ℕ

abbrev pub sample_wire_original : Names → List ℕ
sample_wire_original n = n.sample_wire ++ codes "_original"

-- `bus_concatination`, from the texts of the bounds and the index.
unfoldable pub bus_concatination : Names → List ℕ → List ℕ → ℕ → List ℕ
unfolding decimal
bus_concatination n high low index = joined (
    (if ltb index (decimal_from 0 high)
      then joined
          (sample_wire_original n ∷ codes "[" ∷ high ∷ codes ", " ∷ decimal index ∷ codes "]" ∷ [])
      else [])
    ∷ codes ", "
    ∷ n.sample_wire
    ∷ codes "_faultybit"
    ∷ (if ltb (decimal_from 0 low) index
        then joined (
            codes ", "
            ∷ sample_wire_original n
            ∷ codes "["
            ∷ decimal (index - 1)
            ∷ codes ", "
            ∷ low
            ∷ codes "]"
            ∷ [])
        else [])
    ∷ [])

-- The `assign` of the output with its comment, for the whole wire or one bit of it.
unfoldable pub output_line : Names → List ℕ → List ℕ
output_line n bit = joined (
    codes "  assign "
    ∷ n.fault_output_wire
    ∷ codes " = "
    ∷ sample_wire_original n
    ∷ bit
    ∷ codes "; // direct original value to output "
    ∷ (10 ∷ [])
    ∷ [])

abbrev pub one_bit : ℕ → List ℕ
one_bit index = joined (codes "[" ∷ decimal index ∷ codes "]" ∷ [])

-- The substitutions for a wire: lines 80 and 81, and 85 and 86.
unfoldable pub bus_substitution : Names → Match → List ℕ → List ℕ → ℕ → List ℕ
unfolding bus_concatination output_line
bus_substitution n m high low index = joined (
    codes "wire "
    ∷ n.sample_wire
    ∷ codes "_faultybit = "
    ∷ n.fault_input_wire
    ∷ codes ";"
    ∷ (10 ∷ [])
    ∷ codes " "
    ∷ m.keyword
    ∷ codes " "
    ∷ n.sample_wire
    ∷ codes " = {"
    ∷ bus_concatination n high low index
    ∷ codes "} // fault injection "
    ∷ (10 ∷ [])
    ∷ output_line n (one_bit index)
    ∷ codes "  wire"
    ∷ m.gap
    ∷ sample_wire_original n
    ∷ codes " = "
    ∷ [])

unfoldable pub wire_substitution : Names → Match → List ℕ
unfolding output_line
wire_substitution n m = joined (
    m.keyword
    ∷ codes " "
    ∷ n.sample_wire
    ∷ codes " = "
    ∷ n.fault_input_wire
    ∷ codes "; // fault injection "
    ∷ (10 ∷ [])
    ∷ output_line n []
    ∷ codes "  wire"
    ∷ m.gap
    ∷ sample_wire_original n
    ∷ codes " = "
    ∷ [])

-- Those for a register: lines 125 and 126, and 129 and 130.
unfoldable pub bus_reg_substitution : Names → Match → List ℕ → List ℕ → ℕ → List ℕ
unfolding bus_concatination output_line
bus_reg_substitution n m high low index = joined (
    codes "wire "
    ∷ n.sample_wire
    ∷ codes "_faultybit = "
    ∷ n.fault_input_wire
    ∷ codes ";"
    ∷ (10 ∷ [])
    ∷ codes "wire"
    ∷ m.gap
    ∷ n.sample_wire
    ∷ codes " = {"
    ∷ bus_concatination n high low index
    ∷ codes "} // fault injection "
    ∷ (10 ∷ [])
    ∷ output_line n (one_bit index)
    ∷ codes "  reg"
    ∷ m.gap
    ∷ sample_wire_original n
    ∷ [])

unfoldable pub reg_substitution : Names → Match → List ℕ
unfolding output_line
reg_substitution n m = joined (
    codes "wire "
    ∷ n.sample_wire
    ∷ codes " = "
    ∷ n.fault_input_wire
    ∷ codes "; // fault injection"
    ∷ (10 ∷ [])
    ∷ output_line n []
    ∷ codes " reg"
    ∷ m.gap
    ∷ sample_wire_original n
    ∷ [])

module _ (random : ℕ → ℕ → ℕ) (n : Names) where
  -- The index of a bus is a text where the path has one, and `<` does not compare a text with an int:
  -- a TypeError.
  unfoldable pub substitution : Match → Option (List ℕ × List ℕ) → Option (List ℕ) → Result (List ℕ)
  unfolding wire_substitution bus_substitution randrange
  substitution m none bus_index = ok (wire_substitution n m)
  substitution m (some (high, low)) (some index) = err invalid_argument
  substitution m (some (high, low)) none = do
    index ← randrange random (decimal_from 0 low) (decimal_from 0 high)
    ok (bus_substitution n m high low index)

  unfoldable pub reg_substituted : Match → Option (List ℕ × List ℕ) → Result (List ℕ)
  unfolding reg_substitution bus_reg_substitution randrange
  reg_substituted m none = ok (reg_substitution n m)
  reg_substituted m (some (high, low)) = do
    index ← randrange random (decimal_from 0 low) (decimal_from 0 high)
    ok (bus_reg_substitution n m high low index)

  -- Lines 103 to 138.
  unfoldable pub inject_reg : List ℕ → List Match → Result (List ℕ)
  inject_reg text [] = err (exited 1)
  inject_reg text (m ∷ ms) = do
    replacement ← reg_substituted m m.bounds
    ok (sub (match_reg n.sample_wire) replacement text)

  -- The loop over the matches of `name =` and `name <=`: `group` is a text, so that `group[0]` is its
  -- first character, a blank, and the pattern is the name with two blanks.
  unfoldable pub rename_assigned : List Match → List ℕ → List ℕ
  rename_assigned [] text = text
  rename_assigned (group ∷ groups) text =
      rename_assigned groups
        (sub (match_text (n.sample_wire ++ codes "  ")) (sample_wire_original n ++ codes "  ") text)

  unfoldable pub inject_assigned : List ℕ → List Match → Result (List ℕ)
  inject_assigned text [] = err (exited 1)
  inject_assigned text (group ∷ groups) =
      let renamed = rename_assigned (group ∷ groups) text in
      inject_reg renamed (findall (match_reg n.sample_wire) renamed)

  unfoldable pub inject_wire : Option (List ℕ) → List ℕ → List Match → Result (List ℕ)
  inject_wire bus_index text [] = inject_assigned text (findall (match_assigned n.sample_wire) text)
  inject_wire bus_index text (m ∷ ms) = do
    replacement ← substitution m m.bounds bus_index
    ok (sub (match_wire n.sample_wire) replacement text)

  -- The new text of a module.
  unfoldable pub inject_fault : Option (List ℕ) → List ℕ → Result (List ℕ)
  inject_fault bus_index text = inject_wire bus_index text (findall (match_wire n.sample_wire) text)
