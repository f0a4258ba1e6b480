-- ===== src/Dram/Port/Boot.antt =====
-- The memory without delay from its start on: what the hardware sees of an image that was loaded.
use chipyard_fault_injection.Common.{
  u32, ℕ, ◌+◌, ◌^◌, ◌≤◌, ◌<◌, ◌≡◌, refl, ap, sym, subst, ◌∙◌, Bool, true, false, Option, none, some,
  List, [], ◌∷◌, ◌==◌, leb, Result, ok, ◌>>=◌, length, arith,
}
use chipyard_fault_injection.Common.Text.{same_text}
use chipyard_fault_injection.Mm.{Mm}
use chipyard_fault_injection.Mm
use chipyard_fault_injection.Mm.Masks.{IsValid}
use chipyard_fault_injection.Mm.Loading.{Line, texts, file_bytes, laid}
use chipyard_fault_injection.Magic.{Magic}
use chipyard_fault_injection.Magic.Starting.{init-Inv}
use chipyard_fault_injection.Magic.Ideal
use chipyard_fault_injection.Magic.Ideal.{Ideal, Burst}
use chipyard_fault_injection.Magic.Refine.{view}
use chipyard_fault_injection.Dramsim.{DramApi}
use chipyard_fault_injection.Dram.{Settings, Memory, magic, Machine, get_settings, memory_init}
use chipyard_fault_injection.Dram.Making.{memory_init_lem}
use chipyard_fault_injection.Dram.Port.{Driven, Ports, inputs, exchange}
use chipyard_fault_injection.Dram.Port.Exchange.{Attached, Wires, shown, memory_tick_lem}
use chipyard_fault_injection.Dram.Port.RoundTrip.{at_rest, view-at_rest}

-- The next beat of data is the last one.
abbrev pub at_last_beat : Option Burst → Bool
at_last_beat none = false
at_last_beat (some b) = b.left == 1

-- What the wires owe in a cycle, by what the ideal memory waits for.
pub record Keeps (i : Ideal) (q : Driven) : Type 0 where
  pub read_len : q.ar_valid ≡ true → q.ar_len < 256
  pub write_size : q.aw_valid ≡ true → q.aw_size ≤ 3
  pub write_len : q.aw_valid ≡ true → q.aw_len < 256
  pub data_last : q.w_valid ≡ true → at_last_beat i.burst ≡ true → q.w_last ≡ true

-- The ideal memory over a list of cycles: the protocol, the ports after each, and the end.
abbrev pub KeepsAll : Ideal → List Driven → Type 0
KeepsAll i [] = Unit {0}
KeepsAll i (q ∷ qs) = Keeps i q × KeepsAll (Ideal.step i (inputs q)) qs

abbrev pub all_shown : Ideal → List Driven → List Ports
all_shown i [] = []
all_shown i (q ∷ qs) = shown (Ideal.step i (inputs q)) ∷ all_shown (Ideal.step i (inputs q)) qs

abbrev pub ideal_after : Ideal → List Driven → Ideal
ideal_after i [] = i
ideal_after i (q ∷ qs) = ideal_after (Ideal.step i (inputs q)) qs

Keeps-Wires : (s : Magic) (q : Driven) → Keeps (view s) q → Wires s q
Keeps-Wires s q k = record {
  read_len = k.read_len;
  write_size = k.write_size;
  write_len = k.write_len;
  data_last = λ v busy one. k.data_last v (ground (arith, busy, one));
}

-- A memory behind the port shows what the ideal memory shows, cycle by cycle.
exchange_lem :
    (api : DramApi) (s : Magic) (qs : List Driven)
    → Attached s
    → KeepsAll (view s) qs
    → (t : Magic) × (exchange api (magic s) qs ≡ ok (magic t, all_shown (view s) qs))
      × (view t ≡ ideal_after (view s) qs)
unfolding exchange
exchange_lem api s [] a keeps = (s, refl, refl)
exchange_lem api s (q ∷ qs) a (k, keeps) =
    let (s1, e1, sees, a1) = memory_tick_lem api s q a (Keeps-Wires s q k) in
    let (t, e, end) =
      exchange_lem api s1 qs a1 (subst (λ (i : Ideal). KeepsAll i qs) (sym sees) keeps) in
    (
      t,
      rw (e1, e)
          (ap
            (λ (i : Ideal). ok (
              let m : Memory api = magic t in m,
              shown (Ideal.step (view s) (inputs q)) ∷ all_shown i qs,
            ))
            sees),
      end ∙ ap (λ (i : Ideal). ideal_after i qs) sees,
    )

-- A store with an image in it.
abbrev pub with_image : Mm → ℕ → List Line → Mm
with_image store start lines = record store {
  cells = laid store.size start (file_bytes lines) store.cells;
}

-- The ideal memory with an image in it and nothing outstanding.
abbrev pub holding : Mm → ℕ → List Line → Ideal
holding store start lines = at_rest (with_image store start lines)

with_image-Attached :
    (s : Magic) (start : ℕ) (lines : List Line)
    → Attached s
    → Attached (record s { mm = with_image s.mm start lines })
with_image-Attached s start lines a = record {
  valid = record {
    store = ground (arith, a.valid.store);
    transfer = a.valid.transfer;
    count_pos = a.valid.count_pos;
    count_u64 = a.valid.count_u64;
  };
  sized = record { dummy = a.sized.dummy; replies = a.sized.replies };
  wide = a.wide;
}

module _ (api : DramApi) (machine : Machine api) where
  global_settings :
      (global : Option Settings) (args : List (List ℕ)) (s : Settings)
      (mem_size word_size line_size id_bits clock_hz : ℕ)
      → get_settings api machine global args ≡ ok s
      → memory_init api machine global args mem_size word_size line_size id_bits clock_hz
        ≡ memory_init api machine (some s) args mem_size word_size line_size id_bits clock_hz
  unfolding memory_init get_settings
  global_settings none args s mem_size word_size line_size id_bits clock_hz e = rw e
  global_settings (some s') args s mem_size word_size line_size id_bits clock_hz e =
      let got : ◌≡◌ {A = Result Settings} (ok s') (ok s) = e in
      let same : s' ≡ s = cc in
      ap
        (λ (t : Settings).
          memory_init api machine (some t) args mem_size word_size line_size id_bits clock_hz)
        same

  -- With the settings of the first call, without DRAMSim, with a file of digit pairs that fits into the
  -- memory and whose addresses stay below 2 ^ 64, and where `mm_t::init` gives a valid store with words
  -- of 8 bytes: `memory_init` and then any calls of `memory_tick`, on wires that keep to the protocol,
  -- are defined, and the ports show, call by call, what the ideal memory shows that starts with the
  -- image in it and nothing outstanding; at the end the memory is that ideal memory.
  pub boot_lem :
      (global : Option Settings) (args : List (List ℕ)) (s : Settings) (lines : List Line)
      (mem_size word_size line_size id_bits clock_hz : ℕ) (store : Mm) (qs : List Driven)
      → get_settings api machine global args ≡ ok s
      → s.dramsim ≡ false
      → same_text s.loadmem_file [] ≡ false
      → machine.read_file s.loadmem_file ≡ some (texts lines)
      → Mm.init machine.mmap mem_size (u32 word_size) (u32 line_size) ≡ ok store
      → IsValid store
      → store.word_size ≡ 8
      → length (file_bytes lines) ≤ store.size
      → s.loadmem_addr + length (file_bytes lines) < 2 ^ 64
      → KeepsAll (holding store s.loadmem_addr lines) qs
      → (t : Magic) × ((memory_init api machine global args mem_size word_size line_size id_bits
              clock_hz
            >>= (λ (made : Settings × Memory api). exchange api made.1 qs))
          ≡ ok (magic t, all_shown (holding store s.loadmem_addr lines) qs))
        × (view t ≡ ideal_after (holding store s.loadmem_addr lines) qs)
  boot_lem global args s lines mem_size word_size line_size id_bits clock_hz store qs set ideal
        named file made v wide fits small keeps =
      let (m, e, held, free, acked, replied, inv, sized) =
        init-Inv machine.raw_magic machine.mmap mem_size (u32 word_size) (u32 line_size) store made
          v in
      let t0 : Magic = record m { mm = with_image m.mm s.loadmem_addr lines } in
      let fit : Attached m = record {
        valid = inv;
        sized = sized;
        wide = ap (λ (c : Mm). c.word_size) held ∙ wide;
      } in
      let room : leb (length (file_bytes lines)) m.size ≡ true = ground (arith, held, fits) in
      let start =
        memory_init_lem api machine s args m lines mem_size word_size line_size id_bits clock_hz
          ideal named file e inv.store.size_pos small in
      let seen : view t0 ≡ holding store s.loadmem_addr lines =
        view-at_rest t0 free acked replied ∙ ap (λ (c : Mm). holding c s.loadmem_addr lines) held in
      let (t, run, end) =
        exchange_lem api t0 qs (with_image-Attached m s.loadmem_addr lines fit)
          (subst (λ (i : Ideal). KeepsAll i qs) (sym seen) keeps) in
      let begun =
        global_settings global args s mem_size word_size line_size id_bits clock_hz set
        ∙ (rw room at start) in
      (
        t,
        rw begun (
            run
            ∙ ap (λ (i : Ideal). ok (let mm : Memory api = magic t in mm, all_shown i qs)) seen),
        end ∙ ap (λ (i : Ideal). ideal_after i qs) seen,
      )
