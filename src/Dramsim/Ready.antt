-- ===== src/Dramsim/Ready.antt =====
-- The parts of a tick on a model whose ids, addresses and transfers are in range: no fault but an
-- assertion.
use chipyard_fault_injection.Common.{
  ℕ, zero, suc, ◌+◌, ◌*◌, ◌%◌, ◌^◌, ◌<◌, ◌≡◌, refl, ap, ◌∙◌, Bool, true, Option, none, some, List,
  [], ◌∷◌, ◌++◌, ltb, ◌==◌, get_elem?, length, length-set, Fault, assertion, ok, Ends, Ends-bind,
  if-both, u64, arith,
}
use native.Mathlib.Nat.{mod-add-mod}
use chipyard_fault_injection.Axi.{Rresp}
use chipyard_fault_injection.Mm.{Mm}
use chipyard_fault_injection.Mm.Masks.{IsValid}
use chipyard_fault_injection.Mm.Read.{read_lem}
use chipyard_fault_injection.Magic.Beats.{beat-aligned}
use chipyard_fault_injection.Dramsim.{Req, set_queue, is_busy, mark, pick, behind, push_beats}

-- A failed assertion at most.
abbrev pub OnlyAssertion : Fault → Type 0
OnlyAssertion assertion = Unit {0}
OnlyAssertion fault = ⊥

abbrev pub Each {ℓ} : {A : Type ℓ} → (A → Type 0) → List A → Type 0
Each P [] = Unit {0}
Each P (x ∷ xs) = P x × Each P xs

pub Each-push :
    {A : Type 0} (P : A → Type 0) (xs : List A) (x : A) → Each P xs → P x → Each P (xs ++ x ∷ [])
Each-push P [] x h p = (p, tt)
Each-push P (y ∷ xs) x h p = (h.0, Each-push P xs x h.1 p)

pub set_queue-Each :
    {A : Type 0} (P : A → Type 0) (queues : ℕ → List A) (a : ℕ) (queue : List A)
    → ((b : ℕ) → Each P (queues b))
    → Each P queue
    → (b : ℕ) → Each P (set_queue queues a queue b)
set_queue-Each P queues a queue all one b = if-both (Each P) (b == a) one (all b)

-- An id that has a flag.
abbrev pub Known : ℕ → Req → Type 0
Known ids r = r.id < ids

pub mark-Ends :
    (ids : ℕ) (flags : List Bool) (id : ℕ) (b : Bool)
    → length flags ≡ ids
    → id < ids
    → Ends OnlyAssertion (λ (next : List Bool). length next ≡ ids) (mark flags id b)
unfolding mark
mark-Ends ids flags id b e lt =
    let inside : ltb id (length flags) ≡ true = ground (arith, e) in
    rw inside (length-set flags id b ∙ e)

get_elem?-known :
    (flags : List Bool) (i : ℕ) → i < length flags → (b : Bool) × (get_elem? flags i ≡ some b)
get_elem?-known [] i lt = absurd (omega arith)
get_elem?-known (b ∷ flags) zero lt = (b, refl)
get_elem?-known (b ∷ flags) (suc i) lt = get_elem?-known flags i (omega arith)

is_busy-ok : (flags : List Bool) (i : ℕ) → i < length flags → (b : Bool) × (is_busy flags i ≡ ok b)
unfolding is_busy
is_busy-ok flags i lt = let (b, e) = get_elem?-known flags i lt in (b, rw (is_busy, e))

-- What is picked, and what is left.
abbrev pub PickKnown : ℕ → Option (Req × List Req) → Type 0
PickKnown ids none = Unit {0}
PickKnown ids (some (r, rest)) = Known ids r × Each (Known ids) rest

behind-Known :
    (ids : ℕ) (r : Req) (p : Option (Req × List Req))
    → Known ids r
    → PickKnown ids p
    → PickKnown ids (behind r p)
unfolding behind
behind-Known ids r none k h = tt
behind-Known ids r (some (picked, rest)) k h = (h.0, (k, h.1))

pub pick-Ends :
    (ids : ℕ) (flags : List Bool) (queue : List Req)
    → length flags ≡ ids
    → Each (Known ids) queue
    → Ends OnlyAssertion (PickKnown ids) (pick flags queue)
unfolding pick
pick-Ends ids flags [] e known = tt
pick-Ends ids flags (r ∷ rs) e known =
    let (b, busy) = is_busy-ok flags r.id (omega (arith, e, known.0)) in
    rw busy (
      if-both (Ends OnlyAssertion (PickKnown ids)) b
        (Ends-bind OnlyAssertion (PickKnown ids) (PickKnown ids) (pick flags rs) _
          (pick-Ends ids flags rs e known.1) (λ p h. behind-Known ids r p known.0 h))
        known)

aligned :
    (m : Mm) (word i : ℕ)
    → IsValid m
    → u64 (u64 (word * m.word_size) + i * m.word_size) % m.word_size ≡ 0
aligned m word i v =
    ap (λ (t : ℕ). t % m.word_size) (mod-add-mod (word * m.word_size) (2 ^ 64) (i * m.word_size))
    ∙ beat-aligned m word i v

pub push_beats-Ends :
    (m : Mm) (word : ℕ) (req : Req) (i n : ℕ) (queue : List Rresp)
    → IsValid m
    → Ends OnlyAssertion
        (λ (q : List Rresp). Unit {0})
        (push_beats m (u64 (word * m.word_size)) req i n queue)
unfolding push_beats
push_beats-Ends m word req i zero queue v = tt
push_beats-Ends m word req i (suc n) queue v =
    rw (read_lem m (u64 (u64 (word * m.word_size) + i * m.word_size)) v (aligned m word i v))
      (push_beats-Ends m word req (i + 1) n _ v)
