-- ===== src/Dram/Port/RoundTrip.antt =====
-- A word that the hardware writes through the port and reads again.
use chipyard_fault_injection.Common.{
  ℕ, ◌%◌, ◌^◌, ◌<◌, ◌≡◌, refl, ap, ◌∙◌, true, false, not, none, List, [], ◌∷◌, ok, arith, sext32,
  u32,
}
use chipyard_fault_injection.Axi.{Rresp}
use chipyard_fault_injection.Mm.{Mm}
use chipyard_fault_injection.Mm.Masks.{IsValid}
use chipyard_fault_injection.Magic.{Magic, is_empty, front_or}
use chipyard_fault_injection.Magic.Channels.{replies_of}
use chipyard_fault_injection.Magic.Ideal
use chipyard_fault_injection.Magic.Ideal.{Ideal}
use chipyard_fault_injection.Magic.Refine.{view}
use chipyard_fault_injection.Dramsim.{DramApi}
use chipyard_fault_injection.Dram.{magic}
use chipyard_fault_injection.Dram.Port.{Ports, inputs, exchange, bytes_of}
use chipyard_fault_injection.Dram.Port.Words.{spelled-bytes_of, u32-sext32, sext32-lt}
use chipyard_fault_injection.Dram.Port.Exchange.{
  Attached, Wires, shown, reply_word, memory_tick_lem,
}
use chipyard_fault_injection.Dram.Port.Requests.{write_address, write_data, read_address, read_back}

-- The ideal memory after the address, the data, and the read.
abbrev addressed : Ideal → ℕ → ℕ → Ideal
addressed i addr wid = Ideal.step i (inputs (write_address addr wid))

abbrev written : Ideal → ℕ → Ideal
written i v = Ideal.step i (inputs (write_data v))

abbrev requested : Ideal → ℕ → ℕ → Ideal
requested i addr rid = Ideal.step i (inputs (read_address addr rid))

abbrev pub at_rest : Mm → Ideal
at_rest m = record { store = m; burst = none; acks = []; replies = [] }

abbrev answer : ℕ → ℕ → List Rresp
answer v rid = record { id = sext32 rid; bytes = bytes_of 8 v; last = true } ∷ []

acked_back :
    (m : Mm) (addr wid v : ℕ) → (written (addressed (at_rest m) addr wid) v).acks ≡ sext32 wid ∷ []
unfolding inputs
acked_back m addr wid v = refl

reply_back :
    (m : Mm) (addr wid v rid : ℕ)
    → IsValid m
    → m.word_size ≡ 8
    → addr < 2 ^ 32
    → addr % 8 ≡ 0
    → (requested (written (addressed (at_rest m) addr wid) v) addr rid).replies ≡ answer v rid
unfolding inputs replies_of
reply_back m addr wid v rid valid wide small al =
    let even : sext32 addr % 8 ≡ 0 = ground (arith, al) in
    ap
      (λ (b : List ℕ). let r : Rresp = record { id = sext32 rid; bytes = b; last = true } in r ∷ [])
      (read_back m (sext32 addr) v valid wide even (sext32-lt addr small))

pub view-at_rest :
    (s : Magic) → s.store_inflight ≡ false → s.bresp ≡ [] → s.rresp ≡ [] → view s ≡ at_rest s.mm
view-at_rest s free acked replied = rw (free, acked, replied)

address-Wires : {s : Magic} {addr id : ℕ} → Wires s (write_address addr id)
address-Wires = ground arith

data-Wires : (s : Magic) (v : ℕ) → Wires s (write_data v)
data-Wires s v = ground arith

read-Wires : {s : Magic} {addr id : ℕ} → Wires s (read_address addr id)
read-Wires = ground arith

-- A memory without delay behind the port, with no transfer and no response outstanding: a word that is
-- written at an aligned address is acknowledged in the cycle of its data, with the id of the write,
-- and a read of the address in the next cycle is answered in that cycle, with the word, the id of the
-- read and `r_last`.
pub round_trip :
    (api : DramApi) (s : Magic) (addr wid v rid : ℕ)
    → Attached s
    → s.store_inflight ≡ false
    → s.bresp ≡ []
    → s.rresp ≡ []
    → addr < 2 ^ 32
    → addr % 8 ≡ 0
    → v < 2 ^ 64
    → wid < 2 ^ 32
    → rid < 2 ^ 32
    → (t : Magic) × (p1 : Ports) × (p2 : Ports) × (p3 : Ports) × (exchange api
          (magic s)
          (write_address addr wid ∷ write_data v ∷ read_address addr rid ∷ [])
        ≡ ok (magic t, p1 ∷ p2 ∷ p3 ∷ []))
      × (p2.b_valid ≡ true)
      × (p2.b_id ≡ wid)
      × (p3.r_valid ≡ true)
      × (p3.r_id ≡ rid)
      × (p3.r_data ≡ v)
      × (p3.r_last ≡ true)
unfolding exchange
round_trip api s addr wid v rid a free acked replied small al word wide_wid wide_rid =
    let (s1, e1, sees1, a1) = memory_tick_lem api s (write_address addr wid) a address-Wires in
    let (s2, e2, sees2, a2) = memory_tick_lem api s1 (write_data v) a1 (data-Wires s1 v) in
    let (s3, e3, sees3, a3) = memory_tick_lem api s2 (read_address addr rid) a2 read-Wires in
    let start : view s1 ≡ addressed (at_rest s.mm) addr wid =
      sees1 ∙ ap (λ (i : Ideal). addressed i addr wid) (view-at_rest s free acked replied) in
    let stored : view s2 ≡ written (addressed (at_rest s.mm) addr wid) v =
      sees2 ∙ ap (λ (i : Ideal). written i v) start in
    let acks : (written (view s1) v).acks ≡ sext32 wid ∷ [] =
      ap (λ (i : Ideal). (written i v).acks) start ∙ acked_back s.mm addr wid v in
    let replies : (requested (view s2) addr rid).replies ≡ answer v rid =
      ap (λ (i : Ideal). (requested i addr rid).replies) stored
      ∙ reply_back s.mm addr wid v rid a.valid.store a.wide small al in
    (
      s3,
      shown (addressed (view s) addr wid),
      shown (written (view s1) v),
      shown (requested (view s2) addr rid),
      rw (e1, e2, e3),
      ap (λ (q : List ℕ). not (is_empty q)) acks,
      ap (λ (q : List ℕ). u32 (front_or 0 q)) acks ∙ u32-sext32 wid wide_wid,
      ap (λ (q : List Rresp). not (is_empty q)) replies,
      ap (λ (q : List Rresp). (shown (record (view s2) { replies = q })).r_id) replies
          ∙ u32-sext32 rid wide_rid,
      ap reply_word replies ∙ spelled-bytes_of 8 v (omega (arith, word)),
      ap (λ (q : List Rresp). (shown (record (view s2) { replies = q })).r_last) replies,
    )
