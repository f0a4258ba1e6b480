-- ===== src/Dramsim/Pending.antt =====
-- What DRAMSim has pending, and the queues that the model keeps for it.
use chipyard_fault_injection.Common.{
  Ends, ℕ, ◌+◌, ◌≤◌, ◌≡◌, sym, ap, Bool, true, false, List, [], ◌∷◌, ◌++◌, ◌==◌, length,
  length-append, Fault, Result, assertion, arith, Bool-cases, inl, inr, ◌⊎◌, subst,
}
use chipyard_fault_injection.Dramsim.{DramApi, Dramsim, set_queue}

-- Everything but a failed assertion.
abbrev pub NoAssertion : Fault → Type 0
NoAssertion assertion = ⊥
NoAssertion fault = Unit {0}

-- No failed assertion, and a value with the property.
abbrev pub Holds {ℓ} : {A : Type ℓ} → (A → Type 0) → Result A → Type 0
Holds P r = Ends NoAssertion P r

abbrev pub Fine {ℓ} : {A : Type ℓ} → Result A → Type 0
Fine r = Holds (λ x. Unit {0}) r

-- How often a transaction stands in a list of completions.
abbrev pub is_same : Bool → ℕ → Bool → ℕ → Bool
is_same true a true b = a == b
is_same true a false b = false
is_same false a true b = false
is_same false a false b = a == b

abbrev pub one_if : Bool → ℕ
one_if true = 1
one_if false = 0

abbrev pub completions : Bool → ℕ → List (Bool × ℕ) → ℕ
completions w a [] = 0
completions w a ((w', a') ∷ rest) = one_if (is_same w a w' a') + completions w a rest

-- What DRAMSim documents: a transaction is pending from when it is added until it is called back
-- for, once.
pub record Counts (api : DramApi) : Type 0 where
  pub pending : Bool → ℕ → api.State → ℕ
  pub pending_add :
      (w : Bool) (a : ℕ) (w' : Bool) (a' : ℕ) (m : api.State)
      → pending w a (api.add_transaction w' a' m) ≡ one_if (is_same w a w' a') + pending w a m
  pub pending_update :
      (w : Bool) (a : ℕ) (m : api.State)
      → pending w a m ≡ completions w a (api.update m).1 + pending w a (api.update m).0

same-cases : (a b : ℕ) → (a ≡ b) ⊎ ((a == b) ≡ false)
same-cases a b = elim (Bool-cases (a == b)) [ inl e ↦ inl (ground arith) | inr e ↦ inr e ]

-- Queues whose lengths follow a count: one entry leaves, or one comes.
module _ {ℓ} {A : Type ℓ} (queues : ℕ → List A) (address : ℕ) (x : A) (due due' : ℕ → ℕ) where
  pub length-popped :
      (rest : List A)
      → queues address ≡ x ∷ rest
      → ((a : ℕ) → length (queues a) ≡ due a)
      → ((a : ℕ) → due a ≡ one_if (a == address) + due' a)
      → (a : ℕ) → length (set_queue queues address rest a) ≡ due' a
  length-popped rest e match step a = elim (same-cases a address) [
    | inl here ↦
        subst (λ (b : ℕ). length (set_queue queues address rest b) ≡ due' b) (sym here)
          (ground (arith, match address, step address, ap length e))
    | inr there ↦ ground (arith, there, match a, step a)
  ]

  pub length-pushed :
      ((a : ℕ) → length (queues a) ≡ due a)
      → ((a : ℕ) → due' a ≡ one_if (a == address) + due a)
      → (a : ℕ) → length (set_queue queues address (queues address ++ x ∷ []) a) ≡ due' a
  length-pushed match step a = elim (same-cases a address) [
    | inl here ↦
        subst (λ (b : ℕ). length (set_queue queues address (queues address ++ x ∷ []) b) ≡ due' b)
          (sym here)
          (ground (arith, match address, step address, length-append (queues address) (x ∷ [])))
    | inr there ↦ ground (arith, there, match a, step a)
  ]

module _ (api : DramApi) (c : Counts api) where
  -- The queue of each address is as long as the number of its transactions that are due, the
  -- memory system is the one given, and a transfer in flight has at most 64 bytes.
  abbrev pub Due : api.State → (Bool → ℕ → ℕ) → Dramsim api → Type 0
  Due m due s =
      ((a : ℕ) → length (s.rreq a) ≡ due false a)
      × ((a : ℕ) → length (s.wreq a) ≡ due true a)
      × (s.mem ≡ m)
      × (s.store_inflight ≡ true → s.store_size ≤ 64)

  -- The queues match what is pending, and a transfer in flight has at most 64 bytes.
  pub record Inv (s : Dramsim api) : Type 0 where
    pub reads : (a : ℕ) → length (s.rreq a) ≡ c.pending false a s.mem
    pub writes : (a : ℕ) → length (s.wreq a) ≡ c.pending true a s.mem
    pub narrow : s.store_inflight ≡ true → s.store_size ≤ 64
