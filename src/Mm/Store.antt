-- ===== src/Mm/Store.antt =====
-- What a write leaves in the store, byte by byte, and what a read returns.
use native.Mathlib.Nat.{div-add-mod', div-lt_iff_lt-mul, mul-le-mul_right, suc-mul}
use chipyard_fault_injection.Common.{
  ℕ, zero, suc, ◌+◌, ◌-◌, ◌*◌, ◌/◌, ◌%◌, ◌≤◌, ◌<◌, ◌≡◌, refl, ◌&&◌, inl, inr, List, [], ◌∷◌, ltb,
  leb, ◌==◌, if◌then◌else◌, get_or, length, ok, arith, Bool-cases, get_elem?-eq-get_or, ◌∙◌, ap,
  lt→ltb, ℕ_discrete, dec_lt,
}
use chipyard_fault_injection.Common.Bits.{test_bit}
use chipyard_fault_injection.Mm.{load_byte, store_byte, write_lanes, read_bytes}

-- A row of `w` bytes that starts below `n` ends by `n`, if rows divide the store.
pub row-fits : (a n w : ℕ) → 0 < w → n % w ≡ 0 → a < n → a / w * w + w ≤ n
row-fits a n w hw hd ha = omega (
  arith,
  div-add-mod' n w,
  mul-le-mul_right w
      ((div-lt_iff_lt-mul {k = w} {x = a} {y = n / w} hw).1 (omega (arith, div-add-mod' n w))),
  suc-mul (a / w) w,
)

-- `n` bytes from `base` on.
abbrev pub window : (ℕ → ℕ) → ℕ → ℕ → List ℕ
window cells base zero = []
window cells base (suc n) = cells base ∷ window cells (base + 1) n

pub length-window : (cells : ℕ → ℕ) (base n : ℕ) → length (window cells base n) ≡ n
length-window cells base zero = refl
length-window cells base (suc n) = ap suc (length-window cells (base + 1) n)

-- The byte at `x` after lanes `i` to `i + n` of `bytes` were stored at `base` under a strobe whose
-- lowest bit is lane `i`.
abbrev pub overlay : ℕ → ℕ → ℕ → ℕ → List ℕ → (ℕ → ℕ) → ℕ → ℕ
overlay base i n strb bytes cells x =
    if leb (base + i) x && ltb x (base + i + n) && test_bit strb (x - (base + i))
    then get_or bytes (x - base) 0
    else cells x

-- One lane, then the rest of them.
overlay-suc :
    (base i n strb : ℕ) (bytes : List ℕ) (cells first : ℕ → ℕ) (x : ℕ)
    → first x ≡ (if x == base + i && (strb % 2 == 1) then get_or bytes i 0 else cells x)
    → overlay base (i + 1) n (strb / 2) bytes first x ≡ overlay base i (suc n) strb bytes cells x
overlay-suc base i n strb bytes cells first x e = elim (ℕ_discrete x (base + i)) [
  | yes here ↦
      let here' : x - (base + i) ≡ 0 = omega arith in
      let lane : x - base ≡ i = omega arith in rw (here', lane) (ground arith)
  | no other ↦ elim (dec_lt x (base + i)) [
    | yes below ↦ ground arith
    | no above ↦
        let up : x - (base + i) ≡ suc (x - (base + (i + 1))) = omega arith in rw up (ground arith)
  ]
]

module _ (limit base : ℕ) (bytes : List ℕ) where
  abbrev Stored : ℕ → ℕ → ℕ → (ℕ → ℕ) → Type 0
  Stored i n strb cells =
      (next : ℕ → ℕ) × (write_lanes limit base i n strb bytes cells ≡ ok next)
      × ((x : ℕ) → next x ≡ overlay base i n strb bytes cells x)

  pub write_lanes-Stored :
      (i n strb : ℕ) (cells : ℕ → ℕ)
      → base + i + n ≤ limit
      → i + n ≤ length bytes
      → Stored i n strb cells
  unfolding write_lanes store_byte
  write_lanes-Stored i zero strb cells h k = (cells, refl, λ x. ground arith)
  write_lanes-Stored i (suc n) strb cells h k = elim (Bool-cases (strb % 2 == 1)) [
    | inl hit ↦
        let put : ℕ → ℕ = λ x. if x == base + i then get_or bytes i 0 else cells x in
        let (next, e, spec) =
          write_lanes-Stored (i + 1) n (strb / 2) put (omega arith) (omega arith) in
        (
          next,
          rw
              (
                hit,
                get_elem?-eq-get_or bytes i 0 (omega arith),
                lt→ltb (base + i) limit (omega arith),
              )
              e,
          λ x. spec x ∙ overlay-suc base i n strb bytes cells put x (rw hit (ground arith)),
        )
    | inr miss ↦
        let (next, e, spec) =
          write_lanes-Stored (i + 1) n (strb / 2) cells (omega arith) (omega arith) in
        (
          next,
          rw miss e,
          λ x. spec x ∙ overlay-suc base i n strb bytes cells cells x (rw miss (ground arith)),
        )
  ]

-- A read inside the store returns its bytes.
pub read_bytes-ok :
    (limit : ℕ) (cells : ℕ → ℕ) (base n : ℕ)
    → base + n ≤ limit
    → read_bytes limit cells base n ≡ ok (window cells base n)
unfolding read_bytes load_byte
read_bytes-ok limit cells base zero h = refl
read_bytes-ok limit cells base (suc n) h =
    rw (lt→ltb base limit (omega arith), read_bytes-ok limit cells (base + 1) n (omega arith))
