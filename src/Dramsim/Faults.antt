-- ===== src/Dramsim/Faults.antt =====
-- The calls that fail no assertion, whatever they get.
use chipyard_fault_injection.Common.{
  Any, Ends-bind, ℕ, zero, suc, ◌+◌, ◌*◌, ◌/◌, ◌%◌, ◌≤◌, ◌≡◌, Bool, true, Option, none, some, List,
  [], ◌∷◌, leb, ◌==◌, if◌then◌else◌, get_elem?, ok, sext32, div_u64, shl_int, mod_u64, pred_int,
  arith, if-elim,
}
use chipyard_fault_injection.Mm.{Mm, write, mask_strobe, write_lanes, store_byte}
use chipyard_fault_injection.Dramsim.{Req, is_busy, pick}
use chipyard_fault_injection.Dramsim.Pending.{NoAssertion, Holds, Fine}
use chipyard_fault_injection.Dramsim.Callbacks.{div-Fine}

mod-Fine : (a b : ℕ) → Fine (mod_u64 a b)
unfolding mod_u64
mod-Fine a b = ground arith

pub shl-Fine : (a k : ℕ) → Fine (shl_int a k)
unfolding shl_int
shl-Fine a k = ground arith

pred-Fine : (a : ℕ) → Fine (pred_int a)
unfolding pred_int
pred-Fine a = ground arith

mask_strobe-Fine : (m : Mm) (addr strb size : ℕ) → Fine (mask_strobe m addr strb size)
unfolding mask_strobe
mask_strobe-Fine m addr strb size =
    if-elim (Holds Any) (size == 64) (λ e. tt)
      (λ e. Ends-bind NoAssertion Any Any (shl_int 1 size) _ (shl-Fine 1 size) (λ top u.
        Ends-bind NoAssertion Any Any (pred_int top) _ (pred-Fine top) (λ ones u.
          Ends-bind NoAssertion Any Any (mod_u64 addr m.word_size) _ (mod-Fine addr m.word_size)
            (λ lane u.
              Ends-bind NoAssertion Any Any (shl_int ones lane) _ (shl-Fine ones lane)
                (λ mask u. tt)))))

store_byte-Fine :
    (limit : ℕ) (cells : ℕ → ℕ) (a : ℕ) (v : Option ℕ) → Fine (store_byte limit cells a v)
unfolding store_byte
store_byte-Fine limit cells a none = tt
store_byte-Fine limit cells a (some v) = ground arith

write_lanes-Fine :
    (limit base i n strb : ℕ) (bytes : List ℕ) (cells : ℕ → ℕ)
    → Fine (write_lanes limit base i n strb bytes cells)
unfolding write_lanes
write_lanes-Fine limit base i zero strb bytes cells = tt
write_lanes-Fine limit base i (suc n) strb bytes cells =
    Ends-bind NoAssertion Any Any
      (if strb % 2 == 1 then store_byte limit cells (base + i) (get_elem? bytes i) else ok cells) _
      (if-elim (Holds Any) (strb % 2 == 1)
        (λ e. store_byte-Fine limit cells (base + i) (get_elem? bytes i)) (λ e. tt))
      (λ next u. write_lanes-Fine limit base (i + 1) n (strb / 2) bytes next)

pub write-Fine :
    (m : Mm) (addr : ℕ) (bytes : List ℕ) (strb size : ℕ)
    → size ≤ 64
    → Fine (write m addr bytes strb size)
unfolding write
write-Fine m addr bytes strb size le =
    let passes : leb size 64 ≡ true = ground arith in
    rw passes (
      Ends-bind NoAssertion Any Any (mask_strobe m addr strb size) _
        (mask_strobe-Fine m addr strb size)
        (λ lanes u.
          Ends-bind NoAssertion Any Any (mod_u64 addr m.size) _ (mod-Fine addr m.size) (λ offset u.
            Ends-bind NoAssertion Any Any (div_u64 offset m.word_size) _
              (div-Fine offset m.word_size)
              (λ row u.
                Ends-bind NoAssertion Any Any
                  (write_lanes m.size (row * m.word_size) 0 m.word_size lanes bytes m.cells) _
                  (write_lanes-Fine m.size (row * m.word_size) 0 m.word_size lanes bytes m.cells)
                  (λ next u. tt)))))

is_busy-Fine : (flags : List Bool) (id : ℕ) → Fine (is_busy flags id)
unfolding is_busy
is_busy-Fine flags id = ground arith

pub pick-Fine : (flags : List Bool) (queue : List Req) → Fine (pick flags queue)
unfolding pick
pick-Fine flags [] = tt
pick-Fine flags (r ∷ rs) =
    Ends-bind NoAssertion Any Any (is_busy flags r.id) _ (is_busy-Fine flags r.id) (λ busy u.
      if-elim (Holds Any) busy
        (λ e. Ends-bind NoAssertion Any Any (pick flags rs) _ (pick-Fine flags rs) (λ p u. tt))
        (λ e. tt))

-- A transfer of at most 64 bytes.
pub small_shift : (k : ℕ) → k ≤ 6 → Holds (λ b. sext32 b ≤ 64) (shl_int 1 k)
unfolding shl_int
small_shift zero le = omega arith
small_shift (suc zero) le = omega arith
small_shift (suc (suc zero)) le = omega arith
small_shift (suc (suc (suc zero))) le = omega arith
small_shift (suc (suc (suc (suc zero)))) le = omega arith
small_shift (suc (suc (suc (suc (suc zero))))) le = omega arith
small_shift (suc (suc (suc (suc (suc (suc zero)))))) le = omega arith
small_shift (suc (suc (suc (suc (suc (suc (suc k))))))) le = absurd (omega arith)
