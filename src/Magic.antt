-- ===== src/Magic.antt =====
-- mm.h and mm.cc, class `mm_magic_t`: the memory model that answers in the cycle of the request.
pub mod Beats
pub mod Channels
pub mod Ideal
pub mod Refine
pub mod Run
pub mod Burst
pub mod Order
pub mod Delivery
pub mod Reset
pub mod Sized
pub mod Starting
mod Tests
use chipyard_fault_injection.Common.{
  ℕ, zero, suc, ◌+◌, ◌-◌, ◌*◌, ◌/◌, ◌%◌, ◌^◌, Bool, true, false, ◌&&◌, not, Option, none, some,
  List, [], ◌∷◌, ◌++◌, ltb, leb, ◌==◌, if◌then◌else◌, replicate, tail, Result, ok, err, Fault,
  ◌>>=◌, ◌>>◌, guard, assertion, out_of_bounds, u64, sub_u64, sext32, div_u64, mod_u64, shl_int,
  check_int,
}
use chipyard_fault_injection.Axi.{Inputs, Rresp}
use chipyard_fault_injection.Mm.{Mm, read, write}
use chipyard_fault_injection.Mm

pub record Magic : Type 0 where
  pub mm : Mm
  pub open mm use *
  pub store_inflight : Bool
  pub store_addr : ℕ
  pub store_id : ℕ
  pub store_size : ℕ
  pub store_count : ℕ
  pub dummy_data : List ℕ
  pub bresp : List ℕ
  pub rresp : List Rresp
  pub cycle : ℕ

-- The constructor sets `store_inflight` and leaves the other scalars as they are in `raw`.
unfoldable pub init : Magic → (ℕ → Option (ℕ → ℕ)) → ℕ → ℕ → ℕ → Result Magic
init raw mmap sz wsz lsz = do
  store ← Mm.init mmap sz wsz lsz
  ok (record raw {
    mm = store;
    store_inflight = false;
    dummy_data = replicate store.word_size 0;
    bresp = [];
    rresp = [];
  })

unfoldable pub ar_ready : Magic → Bool
ar_ready s = true

unfoldable pub aw_ready : Magic → Bool
aw_ready s = not s.store_inflight

unfoldable pub w_ready : Magic → Bool
w_ready s = s.store_inflight

abbrev pub is_empty {ℓ} : {A : Type ℓ} → List A → Bool
is_empty [] = true
is_empty (x ∷ xs) = false

unfoldable pub b_valid : Magic → Bool
b_valid s = not (is_empty s.bresp)

unfoldable pub r_valid : Magic → Bool
r_valid s = not (is_empty s.rresp)

abbrev pub front_or {ℓ} : {A : Type ℓ} → A → List A → A
front_or d [] = d
front_or d (x ∷ xs) = x

unfoldable pub b_id : Magic → ℕ
b_id s = front_or 0 s.bresp

unfoldable pub r_id : Magic → ℕ
r_id s = (front_or (record { id = 0; bytes = []; last = false }) s.rresp).id

unfoldable pub r_data : Magic → List ℕ
r_data s = (front_or (record { id = 0; bytes = s.dummy_data; last = false }) s.rresp).bytes

unfoldable pub r_last : Magic → Bool
r_last s = (front_or (record { id = 0; bytes = []; last = false }) s.rresp).last

-- The loop of lines 93 to 96, with `n` rounds left at round `i`, an `int`.
unfoldable pub push_beats : Mm → ℕ → ℕ → ℕ → ℕ → ℕ → List Rresp → Result (List Rresp)
push_beats m start id len i zero queue = ok queue
push_beats m start id len i (suc n) queue = do
  offset ← check_int (i * m.word_size)
  dat ← read m (u64 (start + offset))
  next ← check_int (i + 1)
  push_beats m start id len next n (queue ++ record { id = id; bytes = dat; last = i == len } ∷ [])

unfoldable pub accept_read : Magic → Inputs → Result Magic
accept_read s x = do
  word ← div_u64 x.ar_addr s.word_size
  queue ← push_beats s.mm (word * s.word_size) x.ar_id x.ar_len 0 (suc x.ar_len) s.rresp
  ok (record s { rresp = queue })

unfoldable pub accept_address : Magic → Inputs → Result Magic
accept_address s x = do
  bytes ← shl_int 1 x.aw_size
  ok (record s {
    store_addr = x.aw_addr;
    store_id = x.aw_id;
    store_count = u64 (x.aw_len + 1);
    store_size = sext32 bytes;
    store_inflight = true;
  })

unfoldable pub accept_data : Magic → Inputs → Result Magic
accept_data s x = do
  store ← write s.mm s.store_addr x.w_data x.w_strb s.store_size
  let next : Magic = record s {
    mm = store;
    store_addr = u64 (s.store_addr + s.store_size);
    store_count = sub_u64 s.store_count 1;
  }
  if next.store_count == 0
      then guard x.w_last assertion
        >> ok (record next { store_inflight = false; bresp = s.bresp ++ s.store_id ∷ [] })
      else ok next

-- The responses that the bus takes, the cycle count and the reset.
unfoldable pub finish : Magic → Inputs → Bool → Bool → Magic
finish s x b_fire r_fire =
    let bresp : List ℕ = if b_fire then tail s.bresp else s.bresp in
    let rresp : List Rresp = if r_fire then tail s.rresp else s.rresp in
    if x.reset
    then record s { bresp = []; rresp = []; cycle = 0 }
    else record s { bresp = bresp; rresp = rresp; cycle = u64 (s.cycle + 1) }

unfoldable pub tick : Magic → Inputs → Result Magic
tick s x = do
  let ar_fire = not x.reset && x.ar_valid && ar_ready s
  let aw_fire = not x.reset && x.aw_valid && aw_ready s
  let w_fire = not x.reset && x.w_valid && w_ready s
  let r_fire = not x.reset && r_valid s && x.r_ready
  let b_fire = not x.reset && b_valid s && x.b_ready
  s ← if ar_fire then accept_read s x else ok s
  s ← if aw_fire then accept_address s x else ok s
  s ← if w_fire then accept_data s x else ok s
  ok (finish s x b_fire r_fire)
