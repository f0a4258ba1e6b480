-- ===== src/Dram/Port/Exchange.antt =====
-- `memory_tick` on the memory without delay: what the hardware sees of the ideal memory.
use chipyard_fault_injection.Common.{
  ℕ, zero, suc, ◌^◌, ◌≤◌, ◌<◌, ◌≡◌, refl, ap, ◌∙◌, Bool, true, false, not, Option, none, some, List,
  [], ◌∷◌, length, replicate, ok, arith, sext32, u32, Bool-cases, inl, inr,
}
use chipyard_fault_injection.Axi.{Inputs, Rresp}
use chipyard_fault_injection.Magic.{
  Magic, front_or, is_empty, ar_ready, aw_ready, w_ready, r_valid, r_id, r_data, r_last, b_valid,
  b_id,
}
use chipyard_fault_injection.Magic.Channels.{Inv, Protocol}
use chipyard_fault_injection.Magic.Ideal
use chipyard_fault_injection.Magic.Ideal.{Ideal, Burst}
use chipyard_fault_injection.Magic.Refine.{view, tick_refines}
use chipyard_fault_injection.Magic.Sized.{Sized, tick-keeps_Sized, length-r_data}
use chipyard_fault_injection.Dramsim.{DramApi}
use chipyard_fault_injection.Dram.{Memory, magic}
use chipyard_fault_injection.Dram.Port.{
  Driven, Ports, inputs, drive, drive_model, tick_model, memory_tick,
}
use chipyard_fault_injection.Dram.Port.Words.{length-bytes_of, spelled, load_word-ok}

-- What holds of a memory behind the port, whose data has 8 bytes.
pub record Attached (s : Magic) : Type 0 where
  pub valid : Inv s
  pub sized : Sized s
  pub wide : s.word_size ≡ 8

-- What the wires owe: lengths of 8 bits, transfers of at most 8 bytes, and `w_last` with the last beat.
pub record Wires (s : Magic) (q : Driven) : Type 0 where
  pub read_len : q.ar_valid ≡ true → q.ar_len < 256
  pub write_size : q.aw_valid ≡ true → q.aw_size ≤ 3
  pub write_len : q.aw_valid ≡ true → q.aw_len < 256
  pub data_last : q.w_valid ≡ true → s.store_inflight ≡ true → s.store_count ≡ 1 → q.w_last ≡ true

-- The ports of an ideal memory. Where no reply waits `r_data` shows 0.
abbrev pub is_open : Option Burst → Bool
is_open none = false
is_open (some b) = true

abbrev pub reply_word : List Rresp → ℕ
reply_word [] = 0
reply_word (r ∷ rs) = spelled 8 r.bytes

abbrev pub shown : Ideal → Ports
shown i = record {
  ar_ready = true;
  aw_ready = not (is_open i.burst);
  w_ready = is_open i.burst;
  r_valid = not (is_empty i.replies);
  r_id = u32 (front_or (record { id = 0; bytes = []; last = false }) i.replies).id;
  r_resp = 0;
  r_data = reply_word i.replies;
  r_last = (front_or (record { id = 0; bytes = []; last = false }) i.replies).last;
  b_valid = not (is_empty i.acks);
  b_id = u32 (front_or 0 i.acks);
  b_resp = 0;
}

pub small_power : (k : ℕ) → k ≤ 3 → 2 ^ sext32 k ≤ 8
small_power zero h = omega arith
small_power (suc zero) h = omega arith
small_power (suc (suc zero)) h = omega arith
small_power (suc (suc (suc zero))) h = omega arith
small_power (suc (suc (suc (suc k)))) h = absurd (omega arith)

Wires-Protocol : (s : Magic) (q : Driven) → Attached s → Wires s q → Protocol s (inputs q)
unfolding inputs
Wires-Protocol s q a w = record {
  read_len = λ e. ground (arith, w.read_len e, a.wide);
  write_size = λ e. omega (arith, small_power q.aw_size (w.write_size e), a.wide);
  write_len = λ e. ground (arith, w.write_len e);
  data_word = λ e. omega (arith, length-bytes_of 8 q.w_data, a.wide);
  data_last = w.data_last;
}

front-reply_word :
    (queue : List Rresp)
    → spelled 8 (front_or (record { id = 0; bytes = replicate 8 0; last = false }) queue).bytes
      ≡ reply_word queue
front-reply_word [] = refl
front-reply_word (r ∷ rs) = refl

r_data-word : (s : Magic) → Attached s → spelled 8 (r_data s) ≡ reply_word s.rresp
unfolding r_data
r_data-word s a = rw (a.sized.dummy, a.wide) (front-reply_word s.rresp)

drive-shown :
    (api : DramApi) (s : Magic) → Attached s → drive_model api (magic s) ≡ ok (shown (view s))
unfolding drive_model drive ar_ready aw_ready w_ready r_valid r_id r_last b_valid b_id
drive-shown api s a =
    let long : 8 ≤ length (r_data s) = omega (arith, length-r_data s a.sized, a.wide) in
    rw (load_word-ok 8 (r_data s) long, r_data-word s a)
      (elim (Bool-cases s.store_inflight) [ inl e ↦ rw e refl | inr e ↦ rw e refl ])

step-word_size : (i : Ideal) (x : Inputs) → (Ideal.step i x).store.word_size ≡ i.store.word_size
step-word_size i x = ground arith

-- A memory without delay behind the port, on wires that keep to the protocol: a call of `memory_tick`
-- is defined, the memory does one step of the ideal memory on the driven signals, the ports show what
-- the new ideal memory shows, and the memory stays fit for the port.
pub memory_tick_lem :
    (api : DramApi) (s : Magic) (q : Driven)
    → Attached s
    → Wires s q
    → (t : Magic) × (memory_tick api (magic s) q
        ≡ ok (magic t, shown (Ideal.step (view s) (inputs q))))
      × (view t ≡ Ideal.step (view s) (inputs q))
      × Attached t
unfolding memory_tick tick_model
memory_tick_lem api s q a w =
    let (t, e, sees, v) = tick_refines s (inputs q) a.valid (Wires-Protocol s q a w) in
    let fit : Attached t = record {
      valid = v;
      sized = tick-keeps_Sized (inputs q) a.sized e;
      wide =
          ap (λ (i : Ideal). i.store.word_size) sees ∙ step-word_size (view s) (inputs q) ∙ a.wide;
    } in
    (
      t,
      rw (e, drive-shown api t fit)
          (ap (λ (i : Ideal). ok (let m : Memory api = magic t in m, shown i)) sees),
      sees,
      fit,
    )
