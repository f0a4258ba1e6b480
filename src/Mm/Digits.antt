-- ===== src/Mm/Digits.antt =====
-- The bytes that `parse_nibble` makes of two digits, in the files that `load_mem` reads.
use chipyard_fault_injection.Common.{
  ℕ, zero, suc, ◌+◌, ◌-◌, ◌*◌, ◌%◌, ◌<◌, ◌≡◌, refl, sym, subst, ◌∙◌, Bool, true, ◌&&◌, ◌||◌, leb,
  ◌==◌, if◌then◌else◌, bit_or, arith, Bool-cases, inl, inr,
}
use chipyard_fault_injection.Mm.{parse_nibble, parse_byte}

-- The digits 0 to 9 and a to f.
abbrev pub is_hex : ℕ → Bool
is_hex c = leb b'0' c && leb c b'9' || leb b'a' c && leb c b'f'

abbrev pub digit_value : ℕ → ℕ
digit_value c = if leb c b'9' then c - b'0' else c - b'a' + 10

-- The number that two digits spell; of other characters, what the code makes of them.
abbrev pub byte_value : ℕ → ℕ → ℕ
byte_value high low =
    if is_hex high && is_hex low
    then 16 * digit_value high + digit_value low
    else parse_byte high low

abbrev all_below : (ℕ → Bool) → ℕ → Bool
all_below holds zero = true
all_below holds (suc k) = holds k && all_below holds k

at_below : (holds : ℕ → Bool) (k n : ℕ) → all_below holds k ≡ true → n < k → holds n ≡ true
at_below holds zero n all lt = absurd (omega arith)
at_below holds (suc k) n all lt = elim (Bool-cases (n == k)) [
  | inl same ↦
      let e : n ≡ k = ground (arith, same) in
      let last : holds k ≡ true = ground (arith, all) in subst (λ m. holds m ≡ true) (sym e) last
  | inr apart ↦ at_below holds k n (ground (arith, all)) (ground (arith, apart, lt))
]

abbrev adds : ℕ → ℕ → Bool
adds n m = bit_or (n * 16) m == n * 16 + m

all_add : all_below (λ n. all_below (adds n) 16) 16 ≡ true
all_add = refl

bit_or-add : (n m : ℕ) → n < 16 → m < 16 → bit_or (n * 16) m ≡ n * 16 + m
bit_or-add n m lt lt' =
    let e : adds n m ≡ true =
      at_below (adds n) 16 m (at_below (λ n. all_below (adds n) 16) 16 n all_add lt) lt' in
    ground (arith, e)

digit_value-lt : (c : ℕ) → is_hex c ≡ true → digit_value c < 16
digit_value-lt c h = ground (arith, h)

parse_nibble-digit : (c : ℕ) → is_hex c ≡ true → parse_nibble c ≡ digit_value c
unfolding parse_nibble
parse_nibble-digit c h = ground (arith, h)

pub parse_byte-byte_value : (high low : ℕ) → parse_byte high low ≡ byte_value high low
unfolding parse_byte
parse_byte-byte_value high low = elim (Bool-cases (is_hex high && is_hex low)) [
  | inl both ↦
      let h : is_hex high ≡ true = ground (arith, both) in
      let l : is_hex low ≡ true = ground (arith, both) in
      let v = digit_value high in
      let w = digit_value low in
      let small : v * 16 % 256 ≡ v * 16 = omega (arith, digit_value-lt high h) in
      let small' : w % 256 ≡ w = omega (arith, digit_value-lt low l) in
      let sum : v * 16 + w ≡ 16 * v + w = omega arith in
      rw (both, parse_nibble-digit high h, parse_nibble-digit low l, small, small')
        (bit_or-add v w (digit_value-lt high h) (digit_value-lt low l) ∙ sum)
  | inr other ↦ rw other refl
]
