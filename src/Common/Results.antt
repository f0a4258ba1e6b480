-- ===== src/Common/Results.antt =====
-- How a C++ call ends: with a value, or with the fault that stops the simulation. Undefined
-- behaviour is a fault, so a theorem that a call is `ok` rules it out; so is a loop of the model that
-- uses up its fuel, `unfinished`.
use Prim.Native.Nat.{ℕ}
use mathlib.Core.Bool.{Bool, true, false}
use mathlib.Core.Path.{◌≡◌, refl}

pub data Fault : Type 0 where
  assertion out_of_bounds division_by_zero undefined_shift int_overflow aborted : Fault
  invalid_argument out_of_range length_error null_pointer : Fault
  unfinished : Fault
  exited : ℕ → Fault

pub data Result {ℓ} (A : Type ℓ) : Type ℓ where
  ok : A → Result A
  err : Fault → Result A

-- `assert(holds)` for the fault `assertion`.
abbrev pub guard : Bool → Fault → Result (Unit {0})
guard true fault = ok tt
guard false fault = err fault

-- The statements that follow a call are reached only if it returns.
infixl 10 ◌>>=◌ ◌>>◌
abbrev pub ◌>>=◌ {ℓ κ} : {A : Type ℓ} {B : Type κ} → Result A → (A → Result B) → Result B
err fault >>= rest = err fault
ok value >>= rest = rest value

abbrev pub ◌>>◌ {ℓ} : {B : Type ℓ} → Result (Unit {0}) → Result B → Result B
err fault >> rest = err fault
ok value >> rest = rest

-- What holds of the end of a call: of its fault, or of its value.
abbrev pub Ends {ℓ} : (Fault → Type 0) → {A : Type ℓ} → (A → Type 0) → Result A → Type 0
Ends F P (err fault) = F fault
Ends F P (ok value) = P value

module _ {ℓ} {A : Type ℓ} (F : Fault → Type 0) (P : A → Type 0) where
  pub Ends-bind {κ} :
      {B : Type κ} (Q : B → Type 0) (r : Result A) (f : A → Result B)
      → Ends F P r
      → ((x : A) → P x → Ends F Q (f x))
      → Ends F Q (r >>= f)
  Ends-bind Q (err fault) f ends rest = ends
  Ends-bind Q (ok value) f ends rest = rest value ends

  pub Ends-map : (Q : A → Type 0) (r : Result A) → Ends F P r → ((x : A) → P x → Q x) → Ends F Q r
  Ends-map Q (err fault) ends weaken = ends
  Ends-map Q (ok value) ends weaken = weaken value ends

  pub Ends-guard :
      (b : Bool) (fault : Fault) (r : Result A)
      → F fault
      → Ends F P r
      → Ends F P (guard b fault >> r)
  Ends-guard true fault r stops ends = ends
  Ends-guard false fault r stops ends = stops

-- Any fault may end the call.
abbrev pub AnyFault : Fault → Type 0
AnyFault fault = Unit {0}

abbrev pub Gives {ℓ} : {A : Type ℓ} → (A → Type 0) → Result A → Type 0
Gives P r = Ends AnyFault P r

abbrev pub Any {ℓ} : {A : Type ℓ} → A → Type 0
Any x = Unit {0}

-- A call of which nothing is asked.
pub Any-Gives {ℓ} : {A : Type ℓ} (r : Result A) → Gives Any r
Any-Gives (err fault) = tt
Any-Gives (ok x) = tt

-- Two properties of the value.
pub Ends-both {ℓ} :
    {A : Type ℓ} (F : Fault → Type 0) (P Q : A → Type 0) (r : Result A)
    → Ends F P r
    → Gives Q r
    → Ends F (λ (x : A). P x × Q x) r
Ends-both F P Q (err fault) ends gives = ends
Ends-both F P Q (ok x) ends gives = (ends, gives)

-- A call of whose faults two things hold, and of whose value two.
pub Ends-meet {ℓ} :
    {A : Type ℓ} (F G : Fault → Type 0) (P Q : A → Type 0) (r : Result A)
    → Ends F P r
    → Ends G Q r
    → Ends (λ (fault : Fault). F fault × G fault) (λ (x : A). P x × Q x) r
Ends-meet F G P Q (err fault) ends ends' = (ends, ends')
Ends-meet F G P Q (ok x) ends ends' = (ends, ends')

-- A call that no fault can end returns.
pub returns {ℓ} :
    {A : Type ℓ} (F : Fault → Type 0) (P : A → Type 0) (r : Result A)
    → ((fault : Fault) → ¬ F fault)
    → Ends F P r
    → (x : A) × (r ≡ ok x) × P x
returns F P (err fault) never ends = absurd (never fault ends)
returns F P (ok x) never ends = (x, refl, ends)

-- A call that returns has returned in both its parts.
pub >>=-eq-ok {ℓ κ} :
    {A : Type ℓ} {B : Type κ} (r : Result A) (f : A → Result B) {y : B}
    → (r >>= f) ≡ ok y
    → (x : A) × (r ≡ ok x) × (f x ≡ ok y)
>>=-eq-ok (ok x) f e = (x, refl, e)
>>=-eq-ok (err fault) f e = absurd (cc)
