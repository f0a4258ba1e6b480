-- ===== src/Dramsim/Samples.antt =====
-- Sample memory systems for the tests.
use chipyard_fault_injection.Common.{ℕ, ◌+◌, ◌≡◌, refl, Bool, true, List, [], ◌∷◌, arith}
use chipyard_fault_injection.Dramsim.{DramApi}
use chipyard_fault_injection.Dramsim.Pending.{Counts, completions}

-- A memory system that completes the transaction added last.
abbrev pub complete_last : List (Bool × ℕ) → List (Bool × ℕ) × List (Bool × ℕ)
complete_last [] = ([], [])
complete_last (t ∷ rest) = (rest, t ∷ [])

abbrev pub stack : DramApi
stack = record {
  State = List (Bool × ℕ);
  will_accept = λ m. true;
  add_transaction = λ w a m. (w, a) ∷ m;
  update = complete_last;
}

pub update_counts :
    (w : Bool) (a : ℕ) (m : List (Bool × ℕ))
    → completions w a m ≡ completions w a (complete_last m).1 + completions w a (complete_last m).0
update_counts w a [] = refl
update_counts w a ((w', a') ∷ rest) = omega arith

abbrev pub counts : Counts stack
counts = record {
  pending = completions;
  pending_add = λ w a w' a' m. refl;
  pending_update = update_counts;
}
