-- ===== src/Magic/Beats.antt =====
-- The read loop of `tick`: one beat for each word of the burst.
use native.Mathlib.Nat.{
  mul-mod_left, mod-mod_of_dvd, dvd_of_mod-eq-zero, add-mul, mul-le-mul_right, le-mul_of_pos_right,
}
use chipyard_fault_injection.Common.{
  ℕ, zero, suc, ◌+◌, ◌*◌, ◌%◌, ◌^◌, ◌<◌, ◌≡◌, refl, List, [], ◌∷◌, ◌++◌, append-nil, append_assoc,
  ◌==◌, ok, arith, ◌∙◌, ap, sym, u64, check_int, length,
}
use chipyard_fault_injection.Axi.{Rresp}
use chipyard_fault_injection.Mm.{Mm}
use chipyard_fault_injection.Mm.Masks.{IsValid}
use chipyard_fault_injection.Mm.Store.{window}
use chipyard_fault_injection.Mm.Read.{read_lem}
use chipyard_fault_injection.Magic.{push_beats}

check_int-ok : (a : ℕ) → a < 2 ^ 31 → check_int a ≡ ok a
unfolding check_int
check_int-ok a h = ground arith

-- Beats `i` to `i + n` of a burst of `len + 1` words from the aligned address `start`.
abbrev pub beats : Mm → ℕ → ℕ → ℕ → ℕ → ℕ → List Rresp
beats m start id len i zero = []
beats m start id len i (suc n) =
    record {
      id = id;
      bytes = window m.cells (u64 (start + i * m.word_size) % m.size) m.word_size;
      last = i == len;
    }
    ∷ beats m start id len (i + 1) n

pub length-beats : (m : Mm) (start id len i n : ℕ) → length (beats m start id len i n) ≡ n
length-beats m start id len i zero = refl
length-beats m start id len i (suc n) = ap suc (length-beats m start id len (i + 1) n)

pub beat-aligned :
    (m : Mm) (word i : ℕ) → IsValid m → u64 (word * m.word_size + i * m.word_size) % m.word_size ≡ 0
beat-aligned m word i v =
    mod-mod_of_dvd m.word_size (word * m.word_size + i * m.word_size)
      (dvd_of_mod-eq-zero m.word_size v.power)
    ∙ (ap (λ (t : ℕ). t % m.word_size) (sym (add-mul word i m.word_size))
        ∙ mul-mod_left (word + i) m.word_size)

beats_int :
    (m : Mm) (i n : ℕ)
    → IsValid m
    → (i + suc n) * m.word_size < 2 ^ 31
    → (i * m.word_size < 2 ^ 31) × (i + 1 < 2 ^ 31) × ((i + 1 + n) * m.word_size < 2 ^ 31)
beats_int m i n v h =
    let e : i + 1 + n ≡ i + suc n = omega arith in
    (
      omega (arith, mul-le-mul_right {m = i} {n = i + suc n} m.word_size (omega arith)),
      omega (arith, le-mul_of_pos_right (i + suc n) v.word_pos),
      rw e h,
    )

-- The loop appends the beats of the burst in order, and no index of it overflows.
pub push_beats-ok :
    (m : Mm) (word id len i n : ℕ) (queue : List Rresp)
    → IsValid m
    → (i + n) * m.word_size < 2 ^ 31
    → push_beats m (word * m.word_size) id len i n queue
      ≡ ok (queue ++ beats m (word * m.word_size) id len i n)
unfolding push_beats
push_beats-ok m word id len i zero queue v h = rw append-nil
push_beats-ok m word id len i (suc n) queue v h =
    let (offset, next, rest) = beats_int m i n v h in
    rw (
      check_int-ok (i * m.word_size) offset,
      read_lem m (u64 (word * m.word_size + i * m.word_size)) v (beat-aligned m word i v),
      check_int-ok (i + 1) next,
      push_beats-ok m word id len (i + 1) n _ v rest,
      append_assoc,
    )
