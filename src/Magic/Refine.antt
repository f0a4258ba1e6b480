-- ===== src/Magic/Refine.antt =====
-- `mm_magic_t::tick` implements the ideal memory.
use chipyard_fault_injection.Common.{
  ◌+◌, ◌^◌, ◌≡◌, refl, Bool, true, false, ◌&&◌, not, List, [], ◌∷◌, ◌++◌, ◌==◌, ok, arith,
  if◌then◌else◌, Bool-cases, inl, inr, tail, append-nil, none, some,
}
use chipyard_fault_injection.Axi.{Inputs}
use chipyard_fault_injection.Magic.{
  Magic, tick, finish, ar_ready, aw_ready, w_ready, b_valid, r_valid, is_empty, accept_read,
  accept_address, accept_data,
}
use chipyard_fault_injection.Magic.Channels.{
  Inv, Protocol, replies_of, accept_read-ok, accept_address-ok, accept_data-ok, stored,
}
use chipyard_fault_injection.Magic.Ideal
use chipyard_fault_injection.Magic.Ideal.{Ideal, Burst}

-- What a client sees of the model's state.
abbrev pub view : Magic → Ideal
view s = record {
  store = s.mm;
  burst =
      if s.store_inflight
      then some (record {
        addr = s.store_addr;
        id = s.store_id;
        bytes = s.store_size;
        left = s.store_count;
      })
      else none;
  acks = s.bresp;
  replies = s.rresp;
}

taken-append {ℓ} :
    {A : Type ℓ} (ready : Bool) (xs ys : List A)
    → (if not (is_empty xs) && ready then tail (xs ++ ys) else xs ++ ys)
      ≡ (if ready then tail xs else xs) ++ ys
taken-append true [] ys = refl
taken-append false [] ys = refl
taken-append true (x ∷ xs) ys = refl
taken-append false (x ∷ xs) ys = refl

taken-test {ℓ} :
    {A : Type ℓ} (ready : Bool) (xs : List A)
    → (if not (is_empty xs) && ready then tail xs else xs) ≡ (if ready then tail xs else xs)
taken-test true [] = refl
taken-test false [] = refl
taken-test true (x ∷ xs) = refl
taken-test false (x ∷ xs) = refl

-- What each handler makes of the state, on a bus that keeps to the protocol.
abbrev read_part : Magic → Inputs → Magic
read_part s x = record s { rresp = s.rresp ++ (if x.ar_valid then replies_of s.mm x else []) }

abbrev address_part : Magic → Inputs → Magic
address_part s x =
    if x.aw_valid
    then record s {
      store_addr = x.aw_addr;
      store_id = x.aw_id;
      store_count = x.aw_len + 1;
      store_size = 2 ^ x.aw_size;
      store_inflight = true;
    }
    else s

abbrev data_part : Magic → Inputs → Magic
data_part s x =
    if x.w_valid
    then (if s.store_count == 1
        then record (stored s x) { store_inflight = false; bresp = s.bresp ++ s.store_id ∷ [] }
        else stored s x)
    else s

module _ (s : Magic) (x : Inputs) (v : Inv s) (p : Protocol s x) where
  read_stage : (if x.ar_valid then accept_read s x else ok s) ≡ ok (read_part s x)
  read_stage = elim (Bool-cases x.ar_valid) [
    | inl e ↦ simp e (accept_read-ok s x v.store (p.read_len e))
    | inr e ↦ simp (e, append-nil)
  ]

  address_stage :
      (if x.aw_valid then accept_address (read_part s x) x else ok (read_part s x))
      ≡ ok (address_part (read_part s x) x)
  address_stage = elim (Bool-cases x.aw_valid) [
    | inl e ↦ simp e (
        accept_address-ok (read_part s x) x (omega (arith, p.write_size e, v.store.narrow))
          (p.write_len e))
    | inr e ↦ simp e
  ]

  data_stage :
      s.store_inflight ≡ true
      → (if x.w_valid then accept_data (read_part s x) x else ok (read_part s x))
        ≡ ok (data_part (read_part s x) x)
  data_stage busy = elim (Bool-cases x.w_valid) [
    | inl e ↦ simp e (
        accept_data-ok (read_part s x) x v.store (v.transfer busy) (p.data_word e)
          (v.count_pos busy) (v.count_u64 busy) (p.data_last e busy))
    | inr e ↦ simp e
  ]

  tick-busy :
      x.reset ≡ false
      → s.store_inflight ≡ true
      → tick s x
        ≡ ok (
            finish
              (data_part (read_part s x) x)
              x
              (b_valid s && x.b_ready)
              (r_valid s && x.r_ready))
  unfolding tick ar_ready aw_ready w_ready
  tick-busy r busy = ground (arith, read_stage, data_stage busy)

  tick-idle :
      x.reset ≡ false
      → s.store_inflight ≡ false
      → tick s x
        ≡ ok (
            finish
              (address_part (read_part s x) x)
              x
              (b_valid s && x.b_ready)
              (r_valid s && x.r_ready))
  unfolding tick ar_ready aw_ready w_ready
  tick-idle r idle = ground (arith, read_stage, address_stage)

  tick-reset : x.reset ≡ true → tick s x ≡ ok (finish s x false false)
  unfolding tick ar_ready
  tick-reset r = ground arith

  reset-view : x.reset ≡ true → view (finish s x false false) ≡ Ideal.step (view s) x
  unfolding finish
  reset-view r = ground arith

  busy-view :
      x.reset ≡ false
      → s.store_inflight ≡ true
      → view
          (finish (data_part (read_part s x) x) x (b_valid s && x.b_ready) (r_valid s && x.r_ready))
        ≡ Ideal.step (view s) x
  unfolding finish b_valid r_valid
  busy-view r busy = ground (
    arith,
    taken-append x.r_ready s.rresp (if x.ar_valid then replies_of s.mm x else []),
    taken-append x.b_ready s.bresp (s.store_id ∷ []),
    taken-test x.b_ready s.bresp,
  )

  idle-view :
      x.reset ≡ false
      → s.store_inflight ≡ false
      → view (
          finish
            (address_part (read_part s x) x)
            x
            (b_valid s && x.b_ready)
            (r_valid s && x.r_ready))
        ≡ Ideal.step (view s) x
  unfolding finish b_valid r_valid
  idle-view r idle = ground (
    arith,
    taken-append x.r_ready s.rresp (if x.ar_valid then replies_of s.mm x else []),
    taken-test x.b_ready s.bresp,
  )

  reset-Inv : Inv (finish s x false false)
  unfolding finish
  reset-Inv = ground arith

  busy-Inv :
      s.store_inflight ≡ true
      → Inv
          (finish (data_part (read_part s x) x) x (b_valid s && x.b_ready) (r_valid s && x.r_ready))
  unfolding finish
  busy-Inv busy = ground arith

  idle-Inv :
      Inv (
        finish (address_part (read_part s x) x) x (b_valid s && x.b_ready) (r_valid s && x.r_ready))
  unfolding finish
  idle-Inv = ground arith

  -- A call of `tick` on a valid state and a bus that keeps to the protocol is defined: no assertion
  -- fails, nothing is undefined. The new state is valid, and its view is the ideal memory's next.
  pub tick_refines : (t : Magic) × (tick s x ≡ ok t) × (view t ≡ Ideal.step (view s) x) × Inv t
  tick_refines = elim (Bool-cases x.reset) [
    | inl r ↦ (finish s x false false, tick-reset r, reset-view r, reset-Inv)
    | inr r ↦ elim (Bool-cases s.store_inflight) [
      | inl busy ↦ (_, tick-busy r busy, busy-view r busy, busy-Inv busy)
      | inr idle ↦ (_, tick-idle r idle, idle-view r idle, idle-Inv)
    ]
  ]
