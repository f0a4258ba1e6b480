-- ===== src/Injector/Substitution/Tests.antt =====
-- The module text of alu.v around `slt`, as in output.v, a bus and a register.
use chipyard_fault_injection.Common.{
  ◌+◌, ◌-◌, ◌≡◌, refl, false, none, some, [], ◌∷◌, ◌++◌, ok, err, invalid_argument, arith,
}
use chipyard_fault_injection.Common.Text.{codes, joined}
use chipyard_fault_injection.Injector.Scanning.{
  is_blank, is_digit, front_of, behind_front, strip_prefix, match_low, match_high, match_bounds,
  bounded, match_gap, match_keyword, match_behind, with_rest, followed_by, match_wire, match_reg,
  match_text, match_assigned, findall, find_all, sub, sub_all,
}
use chipyard_fault_injection.Injector.Paths.{is_word}
use chipyard_fault_injection.Injector.Paths.Rendered.{IsName}
use chipyard_fault_injection.Injector.Scanning.Bus.{IsBounds}
use chipyard_fault_injection.Injector.Substitution.Bus.{
  Bus, IsBus, Once, bus_declared, with_faulty_bit, Draws, inject_fault-bus, inject_fault-bit,
}
use chipyard_fault_injection.Injector.Substitution.{
  Names, substitution, inject_wire, inject_fault, inject_assigned, inject_reg, rename_assigned,
  reg_substituted,
}

abbrev slt : Names
slt = record {
  sample_wire = codes "slt";
  fault_input_wire = codes "fault_inputs";
  fault_output_wire = codes "fault_outputs";
}

slt_injected :
    inject_fault (λ low high. low) slt none (codes "a;  wire  slt = b; c = slt")
    ≡ ok (
        joined (
          codes "a;  wire slt = fault_inputs; // fault injection "
          ∷ (10 ∷ [])
          ∷ codes "  assign fault_outputs = slt_original; // direct original value to output "
          ∷ (10 ∷ [])
          ∷ codes "  wire  slt_original = b; c = slt"
          ∷ []))
unfolding inject_fault inject_wire substitution findall find_all sub sub_all match_wire
    match_keyword match_behind with_rest followed_by match_gap bounded match_bounds strip_prefix
    front_of behind_front is_blank
slt_injected = refl

-- A bus: the part select has a comma, and the concatenation no semicolon.
bus_injected :
    inject_fault (λ low high. low + 1) slt none (codes "wire [3:0] slt = b;")
    ≡ ok (
        joined (
          codes "wire slt_faultybit = fault_inputs;"
          ∷ (10 ∷ [])
          ∷ codes
              " wire slt = {slt_original[3, 1], slt_faultybit, slt_original[0, 0]} // fault injection "
          ∷ (10 ∷ [])
          ∷ codes "  assign fault_outputs = slt_original[1]; // direct original value to output "
          ∷ (10 ∷ [])
          ∷ codes "  wire [3:0] slt_original = b;"
          ∷ []))
unfolding inject_fault inject_wire substitution findall find_all sub sub_all match_wire
    match_keyword match_behind with_rest followed_by match_gap bounded match_bounds match_high
    match_low is_digit strip_prefix front_of behind_front is_blank
bus_injected = refl

-- A register: its assignment keeps the name.
reg_injected :
    inject_fault (λ low high. low) slt none (codes "reg  slt; slt <= b;")
    ≡ ok (
        joined (
          codes "wire slt = fault_inputs; // fault injection"
          ∷ (10 ∷ [])
          ∷ codes "  assign fault_outputs = slt_original; // direct original value to output "
          ∷ (10 ∷ [])
          ∷ codes " reg  slt_original slt <= b;"
          ∷ []))
unfolding inject_fault inject_wire inject_assigned inject_reg rename_assigned reg_substituted
    findall find_all sub sub_all match_wire match_reg match_assigned match_text match_keyword
    match_behind with_rest followed_by match_gap bounded match_bounds strip_prefix front_of
    behind_front is_blank
reg_injected = refl

slt-IsName : IsName (codes "slt")
unfolding is_word
slt-IsName = ground arith

abbrev four_bits : Bus
four_bits = record {
  assigned = false;
  gap = codes " ";
  high = codes "3";
  low = b'0';
  gap' = codes " ";
}

four-IsBounds : IsBounds (codes "3") b'0'
unfolding is_digit
four-IsBounds = record { digits = (refl, tt); some_digit = refl; digit = refl }

four_bits-IsBus : IsBus four_bits
unfolding is_blank
four_bits-IsBus = record { blank = ((refl, tt), refl); bounds = four-IsBounds; blank' = (refl, tt) }

bus_alone : Once four_bits (codes "slt") (codes "a;") (codes "b;")
unfolding match_wire match_keyword match_behind strip_prefix
bus_alone = ((refl, (refl, tt)), (refl, (refl, tt)))

-- Draws the highest number.
highest-Draws : Draws (λ low high. high - 1)
highest-Draws low high below = omega arith

inject_fault-bus_example :
    inject_fault
      (λ low high. high - 1)
      slt
      none
      (codes "a;" ++ (bus_declared four_bits (codes "slt") ++ codes "b;"))
    ≡ ok (codes "a;" ++ (with_faulty_bit four_bits slt 2 ++ codes "b;"))
inject_fault-bus_example =
    inject_fault-bus (λ low high. high - 1) slt four_bits (codes "a;") (codes "b;") highest-Draws
      four_bits-IsBus slt-IsName bus_alone (omega arith)

inject_fault-bit_example :
    inject_fault
      (λ low high. low + 1)
      slt
      (some (codes "2"))
      (codes "a;" ++ (bus_declared four_bits (codes "slt") ++ codes "b;"))
    ≡ err invalid_argument
inject_fault-bit_example =
    inject_fault-bit (λ low high. low + 1) slt (codes "2") four_bits (codes "a;") (codes "b;")
      four_bits-IsBus slt-IsName bus_alone
