-- ===== src/Mm/Read.antt =====
-- `mm_t::read`, and reads after writes.
use native.Mathlib.Nat.{
  mul-le-mul_right, suc-mul, div-add-mod', mod-lt, mod-mod_of_dvd, dvd_of_mod-eq-zero,
}
use chipyard_fault_injection.Common.{
  ℕ, zero, suc, ◌+◌, ◌-◌, ◌*◌, ◌/◌, ◌%◌, ◌≤◌, ◌<◌, ◌≡◌, refl, inl, inr, List, [], ◌∷◌,
  if◌then◌else◌, get_or, length, ok, arith, ◌∙◌, ap, sym, ◌≢◌, ◌⊎◌, ap₂, ◌>>=◌, ℕ_discrete, dec_lt,
  le→leb, lt→ltb,
}
use chipyard_fault_injection.Mm.{Mm, write, read}
use chipyard_fault_injection.Mm.Masks.{IsValid, mod_u64-ok}
use chipyard_fault_injection.Mm.Store.{row-fits, read_bytes-ok, window}
use chipyard_fault_injection.Mm.Write.{merged, row_of, is_enabled, write_lem}

-- In a store of whole words an aligned address is its own row.
pub row_of-aligned :
    (m : Mm) (addr : ℕ) → IsValid m → addr % m.word_size ≡ 0 → row_of m addr ≡ addr % m.size
row_of-aligned m addr v h = omega (
  arith,
  div-add-mod' (addr % m.size) m.word_size,
  mod-mod_of_dvd m.word_size addr (dvd_of_mod-eq-zero m.word_size v.whole),
)

-- A read at an aligned address is defined and returns the word there, the address taken modulo the
-- size of the store.
pub read_lem :
    (m : Mm) (addr : ℕ)
    → IsValid m
    → addr % m.word_size ≡ 0
    → read m addr ≡ ok (window m.cells (addr % m.size) m.word_size)
unfolding read
read_lem m addr v h = rw (mod_u64-ok addr m.size v.size_pos) (
    read_bytes-ok m.size m.cells (addr % m.size) m.word_size (
      omega (
        arith,
        row_of-aligned m addr v h,
        row-fits (addr % m.size) m.size m.word_size v.word_pos v.whole (mod-lt addr v.size_pos),
      )))

window-ext :
    (f g : ℕ → ℕ) (base n : ℕ)
    → ((x : ℕ) → base ≤ x → x < base + n → f x ≡ g x)
    → window f base n ≡ window g base n
window-ext f g base zero h = refl
window-ext f g base (suc n) h =
    ap₂ ◌∷◌ (h base (omega arith) (omega arith))
      (window-ext f g (base + 1) n (λ x p q. h x (omega arith) (omega arith)))

-- Two rows of `w` bytes are the same or apart.
rows-apart : (a b w : ℕ) → a * w ≢ b * w → (a * w + w ≤ b * w) ⊎ (b * w + w ≤ a * w)
rows-apart a b w h = elim (dec_lt a b) [
  | yes p ↦ inl (omega (arith, mul-le-mul_right w p, suc-mul a w))
  | no p ↦ elim (ℕ_discrete a b) [
    | yes e ↦ absurd (h (ap (λ (t : ℕ). t * w) e))
    | no ne ↦ inr (omega (arith, mul-le-mul_right {m = suc b} {n = a} w (omega arith), suc-mul b w))
  ]
]

pub after_write-IsValid :
    {m : Mm} (cells : ℕ → ℕ) → IsValid m → IsValid (record m { cells = cells })
after_write-IsValid cells v = record {
  word_pos = v.word_pos;
  narrow = v.narrow;
  size_pos = v.size_pos;
  whole = v.whole;
  power = v.power;
}

-- Outside its row a write changes nothing.
merged_other :
    (m : Mm) (addr : ℕ) (bytes : List ℕ) (strb size base x : ℕ)
    → (row_of m addr + m.word_size ≤ base) ⊎ (base + m.word_size ≤ row_of m addr)
    → base ≤ x
    → x < base + m.word_size
    → merged m addr bytes strb size x ≡ m.cells x
unfolding merged
merged_other m addr bytes strb size base x (inl a) p q = ground arith
merged_other m addr bytes strb size base x (inr a) p q = ground arith

-- A write leaves what a read returns from any other word as it was.
pub read-write_other :
    (m : Mm) (addr other : ℕ) (bytes : List ℕ) (strb size : ℕ)
    → IsValid m
    → size ≤ m.word_size
    → m.word_size ≤ length bytes
    → other % m.word_size ≡ 0
    → other % m.size ≢ row_of m addr
    → (write m addr bytes strb size >>= λ m'. read m' other) ≡ read m other
read-write_other m addr other bytes strb size v h k al ne =
    let e : other % m.size / m.word_size * m.word_size ≡ other % m.size =
      row_of-aligned m other v al in
    let apart : (row_of m addr + m.word_size ≤ other % m.size)
        ⊎ (other % m.size + m.word_size ≤ row_of m addr) =
      rw e at (
        rows-apart (addr % m.size / m.word_size) (other % m.size / m.word_size) m.word_size
          (λ q. ne (sym (q ∙ e)))) in
    rw
      (
        write_lem m addr bytes strb size v h k,
        read_lem _ other (after_write-IsValid (merged m addr bytes strb size) v) al,
        read_lem m other v al,
      )
      (ap ok (
        window-ext (merged m addr bytes strb size) m.cells (other % m.size) m.word_size
          (λ x p q. merged_other m addr bytes strb size (other % m.size) x apart p q)))

-- A word with the enabled lanes, from lane `i` on, taken from `bytes`.
abbrev pub blend : ℕ → ℕ → ℕ → List ℕ → ℕ → List ℕ → List ℕ
blend strb off size bytes i [] = []
blend strb off size bytes i (old ∷ rest) =
    (if is_enabled strb off size i then get_or bytes i 0 else old)
    ∷ blend strb off size bytes (i + 1) rest

pub window-merged :
    (m : Mm) (addr : ℕ) (bytes : List ℕ) (strb size i n : ℕ)
    → i + n ≤ m.word_size
    → window (merged m addr bytes strb size) (row_of m addr + i) n
      ≡ blend strb (addr % m.word_size) size bytes i (window m.cells (row_of m addr + i) n)
unfolding merged
window-merged m addr bytes strb size i zero h = refl
window-merged m addr bytes strb size i (suc n) h =
    let next : row_of m addr + i + 1 ≡ row_of m addr + (i + 1) = omega arith in
    let lane : row_of m addr + i - row_of m addr ≡ i = omega arith in
    rw (
      next,
      lane,
      le→leb (row_of m addr) (row_of m addr + i) (omega arith),
      lt→ltb (row_of m addr + i) (row_of m addr + m.word_size) (omega arith),
      window-merged m addr bytes strb size (i + 1) n (omega arith),
    )

-- The word that was written reads back with the enabled lanes from the data and the others unchanged.
pub read-write_same :
    (m : Mm) (addr other : ℕ) (bytes : List ℕ) (strb size : ℕ)
    → IsValid m
    → size ≤ m.word_size
    → m.word_size ≤ length bytes
    → other % m.word_size ≡ 0
    → other % m.size ≡ row_of m addr
    → (write m addr bytes strb size >>= λ m'. read m' other)
      ≡ (read m other >>= λ old. ok (blend strb (addr % m.word_size) size bytes 0 old))
read-write_same m addr other bytes strb size v h k al e =
    let start : row_of m addr + 0 ≡ row_of m addr = omega arith in
    rw
      (
        write_lem m addr bytes strb size v h k,
        read_lem _ other (after_write-IsValid (merged m addr bytes strb size) v) al,
        read_lem m other v al,
        e,
      )
      (ap ok (rw start at (window-merged m addr bytes strb size 0 m.word_size (omega arith))))
