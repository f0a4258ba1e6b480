-- ===== src/Magic/Channels.antt =====
-- The handlers of `tick`, one lemma for each: what they do on a bus that keeps to the protocol.
use native.Mathlib.Nat.{pow-le-pow_right}
use chipyard_fault_injection.Common.{
  ℕ, suc, ◌+◌, ◌-◌, ◌*◌, ◌/◌, ◌^◌, ◌≤◌, ◌<◌, ◌≡◌, true, false, List, [], ◌∷◌, ◌++◌, ◌==◌, ok, arith,
  u64, sub_u64, length, shl_int, if◌then◌else◌, dec_lt, ℕ_discrete,
}
use chipyard_fault_injection.Axi.{Inputs, Rresp}
use chipyard_fault_injection.Mm.{Mm}
use chipyard_fault_injection.Mm.Masks.{IsValid, div_u64-ok}
use chipyard_fault_injection.Mm.Write.{merged, write_lem}
use chipyard_fault_injection.Magic.{Magic, accept_read, accept_address, accept_data}
use chipyard_fault_injection.Magic.Beats.{beats, push_beats-ok}

-- What holds between two calls of `tick`.
pub record Inv (s : Magic) : Type 0 where
  pub store : IsValid s.mm
  pub transfer : s.store_inflight ≡ true → s.store_size ≤ s.word_size
  pub count_pos : s.store_inflight ≡ true → 0 < s.store_count
  pub count_u64 : s.store_inflight ≡ true → s.store_count < 2 ^ 64

-- What the bus owes: bursts whose indices fit an `int`, transfers of at most a word, a whole word of
-- data, and `w_last` with the last beat.
pub record Protocol (s : Magic) (x : Inputs) : Type 0 where
  pub read_len : x.ar_valid ≡ true → suc x.ar_len * s.word_size < 2 ^ 31
  pub write_size : x.aw_valid ≡ true → 2 ^ x.aw_size ≤ s.word_size
  pub write_len : x.aw_valid ≡ true → x.aw_len + 1 < 2 ^ 64
  pub data_word : x.w_valid ≡ true → s.word_size ≤ length x.w_data
  pub data_last : x.w_valid ≡ true → s.store_inflight ≡ true → s.store_count ≡ 1 → x.w_last ≡ true

unfoldable pub replies_of : Mm → Inputs → List Rresp
replies_of m x = beats m (x.ar_addr / m.word_size * m.word_size) x.ar_id x.ar_len 0 (suc x.ar_len)

pub accept_read-ok :
    (s : Magic) (x : Inputs)
    → IsValid s.mm
    → suc x.ar_len * s.word_size < 2 ^ 31
    → accept_read s x ≡ ok (record s { rresp = s.rresp ++ replies_of s.mm x })
unfolding accept_read replies_of
accept_read-ok s x v h =
    let len : (0 + suc x.ar_len) * s.word_size < 2 ^ 31 = omega arith in
    rw (
      div_u64-ok x.ar_addr s.word_size v.word_pos,
      push_beats-ok s.mm (x.ar_addr / s.word_size) x.ar_id x.ar_len 0 (suc x.ar_len) s.rresp v len,
    )

transfer-lt : (k : ℕ) → 2 ^ k ≤ 16 → k < 31
transfer-lt k h = elim (dec_lt k 31) [
  | yes p ↦ p
  | no p ↦
      absurd (omega (arith, pow-le-pow_right {n = 2} (omega arith) {i = 31} {j = k} (omega arith)))
]

pub shl_int-one : (k : ℕ) → 2 ^ k ≤ 16 → shl_int 1 k ≡ ok (2 ^ k)
unfolding shl_int
shl_int-one k h = ground (arith, transfer-lt k h)

pub accept_address-ok :
    (s : Magic) (x : Inputs)
    → 2 ^ x.aw_size ≤ 16
    → x.aw_len + 1 < 2 ^ 64
    → accept_address s x
      ≡ ok (record s {
        store_addr = x.aw_addr;
        store_id = x.aw_id;
        store_count = x.aw_len + 1;
        store_size = 2 ^ x.aw_size;
        store_inflight = true;
      })
unfolding accept_address
accept_address-ok s x h k = ground (arith, shl_int-one x.aw_size h)

-- The beat of a write burst, the last one or not.
abbrev pub stored : Magic → Inputs → Magic
stored s x = record s {
  mm = record s.mm { cells = merged s.mm s.store_addr x.w_data x.w_strb s.store_size };
  store_addr = u64 (s.store_addr + s.store_size);
  store_count = s.store_count - 1;
}

pub accept_data-ok :
    (s : Magic) (x : Inputs)
    → IsValid s.mm
    → s.store_size ≤ s.word_size
    → s.word_size ≤ length x.w_data
    → 0 < s.store_count
    → s.store_count < 2 ^ 64
    → (s.store_count ≡ 1 → x.w_last ≡ true)
    → accept_data s x
      ≡ ok (
          if s.store_count == 1
          then record (stored s x) { store_inflight = false; bresp = s.bresp ++ s.store_id ∷ [] }
          else stored s x)
unfolding accept_data
accept_data-ok s x v h k pos lt last =
    let dec : sub_u64 s.store_count 1 ≡ s.store_count - 1 = omega arith in
    rw (write_lem s.mm s.store_addr x.w_data x.w_strb s.store_size v h k, dec)
      (elim (ℕ_discrete s.store_count 1) [
        | yes e ↦
            let done : (s.store_count - 1 == 0) ≡ true = ground arith in
            let one : (s.store_count == 1) ≡ true = ground arith in rw (done, one, last e)
        | no ne ↦
            let more : (s.store_count - 1 == 0) ≡ false = ground arith in
            let many : (s.store_count == 1) ≡ false = ground arith in rw (more, many)
      ])
