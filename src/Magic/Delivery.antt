-- ===== src/Magic/Delivery.antt =====
-- Every read burst is answered, as soon as the bus has been ready often enough.
use chipyard_fault_injection.Common.{ℕ, ◌+◌, List, [], ◌∷◌, if◌then◌else◌}
use chipyard_fault_injection.Axi.{Inputs}
use chipyard_fault_injection.Magic.{Magic}
use chipyard_fault_injection.Magic.Ideal
use chipyard_fault_injection.Magic.Ideal.{Ideal}

-- The cycles in which the bus takes a beat, if one is there.
abbrev pub ready_cycles : List Inputs → ℕ
ready_cycles [] = 0
ready_cycles (x ∷ xs) = (if x.r_ready then 1 else 0) + ready_cycles xs
