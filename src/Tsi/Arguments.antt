-- ===== src/Tsi/Arguments.antt =====
-- The plus-arguments of the serial front end, read back from their text.
use chipyard_fault_injection.Common.{
  ℕ, zero, suc, ◌+◌, ◌*◌, ◌^◌, ◌<◌, ◌≡◌, refl, sym, ap, ap₂, ◌∙◌, Bool, false, some, List, [], ◌∷◌,
  ◌++◌, ◌==◌, ok, length, length-append, arith, append_assoc, lt→ltb, u32,
}
use chipyard_fault_injection.Common.Text.{
  codes, starts_with, find_text, take, drop, strtoull_hex, hex_value, hex_from, skip_0x, is_space,
}
use chipyard_fault_injection.Tsi.{
  Config, parse_write, add_write, read_argument, read_arguments, configure, fresh,
}

-- Hexadecimal digits, and the number that they spell.
abbrev pub IsHex : List ℕ → Type 0
IsHex [] = Unit {0}
IsHex (c ∷ s) = (hex_value c < 16) × IsHex s

abbrev pub spelled : ℕ → List ℕ → ℕ
spelled acc [] = acc
spelled acc (c ∷ s) = spelled (acc * 16 + hex_value c) s

pub hex_from-IsHex : (acc : ℕ) (s : List ℕ) → IsHex s → hex_from acc s ≡ spelled acc s
hex_from-IsHex acc [] h = refl
hex_from-IsHex acc (c ∷ s) h =
    rw (lt→ltb (hex_value c) 16 h.0, hex_from) (hex_from-IsHex (acc * 16 + hex_value c) s h.1)

-- A digit is no blank, no sign, no 'x' and no ':'.
pub digit_plain :
    (c : ℕ)
    → hex_value c < 16
    → (is_space c ≡ false)
      × ((c == b'-') ≡ false)
      × ((c == b'+') ≡ false)
      × ((c == b'x') ≡ false)
      × ((c == b'X') ≡ false)
      × ((b':' == c) ≡ false)
digit_plain c h = ground arith

pub skip_0x-IsHex : (s : List ℕ) → IsHex s → skip_0x s ≡ s
skip_0x-IsHex [] h = refl
skip_0x-IsHex (z ∷ []) h = refl
skip_0x-IsHex (z ∷ x ∷ s) h = ground (arith, digit_plain x h.1.0)

strtoull-IsHex : (s : List ℕ) → IsHex s → spelled 0 s < 2 ^ 64 → strtoull_hex s ≡ spelled 0 s
strtoull-IsHex [] h lt = refl
strtoull-IsHex (c ∷ s) h lt =
    let plain = digit_plain c h.0 in
    rw (plain.0, plain.1, plain.2, skip_0x-IsHex (c ∷ s) h, hex_from-IsHex 0 (c ∷ s) h)
      (omega arith)

abbrev NoColon : List ℕ → Type 0
NoColon [] = Unit {0}
NoColon (c ∷ s) = ((b':' == c) ≡ false) × NoColon s

NoColon-IsHex : (s : List ℕ) → IsHex s → NoColon s
NoColon-IsHex [] h = tt
NoColon-IsHex (c ∷ s) h = ((digit_plain c h.0).5, NoColon-IsHex s h.1)

find_colon :
    (s rest : List ℕ)
    → NoColon s
    → find_text (codes ":0x") (s ++ (codes ":0x" ++ rest)) ≡ some (length s)
find_colon [] rest h = refl
find_colon (c ∷ s) rest h = rw (h.0, find_colon s rest h.1)

take_exact : (s rest : List ℕ) → take (length s) (s ++ rest) ≡ s
take_exact [] rest = refl
take_exact (c ∷ s) rest = ap (λ (t : List ℕ). c ∷ t) (take_exact s rest)

drop_exact : (n : ℕ) (s rest : List ℕ) → n ≡ length s → drop n (s ++ rest) ≡ rest
drop_exact zero [] rest e = refl
drop_exact zero (c ∷ s) rest e = absurd (omega arith)
drop_exact (suc n) [] rest e = absurd (omega arith)
drop_exact (suc n) (c ∷ s) rest e = drop_exact n s rest (omega arith)

-- The arguments that the constructor looks for, and one of any other form.
pub data Argument : Type 0 where
  init_write : List ℕ → List ℕ → Argument
  loadmem : List ℕ → Argument
  no_hart0_msip : Argument
  plain : List ℕ → Argument

abbrev pub text : Argument → List ℕ
text (init_write addr value) = codes "+init_write=0x" ++ (addr ++ (codes ":0x" ++ value))
text (loadmem path) = codes "+loadmem=" ++ path
text no_hart0_msip = codes "+no_hart0_msip"
text (plain s) = s

-- Numbers that fit their types, and plain arguments that do not begin with '+'.
abbrev pub IsArgument : Argument → Type 0
IsArgument (init_write addr value) =
    IsHex addr × IsHex value × (spelled 0 addr < 2 ^ 64) × (spelled 0 value < 2 ^ 32)
IsArgument (loadmem path) = Unit {0}
IsArgument no_hart0_msip = Unit {0}
IsArgument (plain s) = starts_with (codes "+") s ≡ false

abbrev pub apply : Bool → Config → Argument → Config
apply can c (init_write addr value) = record c {
  init_writes = c.init_writes ++ (spelled 0 addr, spelled 0 value) ∷ [];
}
apply can c (loadmem path) = record c { has_loadmem = can }
apply can c no_hart0_msip = record c { write_hart0_msip = false }
apply can c (plain s) = c

-- A text with the colon behind `s` splits there.
parse_write_split :
    (s value : List ℕ)
    → NoColon s
    → parse_write (s ++ (codes ":0x" ++ value))
      ≡ ok (strtoull_hex (drop 14 s), u32 (strtoull_hex value))
unfolding parse_write
parse_write_split s value h =
    let after : drop (length s + 3) (s ++ (codes ":0x" ++ value)) ≡ value =
      rw (sym (append_assoc s (codes ":0x") value)) (
        drop_exact (length s + 3) (s ++ codes ":0x") value
          (omega (arith, length-append s (codes ":0x")))) in
    rw (find_colon s value h, parse_write)
      (ap₂ (λ (a v : List ℕ). ok (strtoull_hex (drop 14 a), u32 (strtoull_hex v)))
        (take_exact s (codes ":0x" ++ value)) after)

NoColon-prefix : (addr : List ℕ) → IsHex addr → NoColon (codes "+init_write=0x" ++ addr)
NoColon-prefix addr h = ground (arith, NoColon-IsHex addr h)

parse_write-text :
    (addr value : List ℕ)
    → IsArgument (init_write addr value)
    → parse_write (text (init_write addr value)) ≡ ok (spelled 0 addr, spelled 0 value)
parse_write-text addr value h =
    parse_write_split (codes "+init_write=0x" ++ addr) value (NoColon-prefix addr h.0)
    ∙ rw (strtoull-IsHex addr h.0 h.2, strtoull-IsHex value h.1 (omega arith))
        (ap (λ (v : ℕ). ok (spelled 0 addr, v)) (omega arith))

pub plain_lem :
    (p s : List ℕ) → starts_with (codes "+") s ≡ false → starts_with (b'+' ∷ p) s ≡ false
plain_lem p [] e = refl
plain_lem p (c ∷ s) e = ground arith

read_argument-text :
    (can : Bool) (a : Argument) (c : Config)
    → IsArgument a
    → read_argument can (text a) c ≡ ok (apply can c a)
unfolding read_argument add_write
read_argument-text can (init_write addr value) c h = rw (parse_write-text addr value h)
read_argument-text can (loadmem path) c h = refl
read_argument-text can no_hart0_msip c h = refl
read_argument-text can (plain s) c h = rw (
  plain_lem (codes "loadmem=") s h,
  plain_lem (codes "init_write=0x") s h,
  plain_lem (codes "no_hart0_msip") s h,
)

abbrev pub AreArguments : List Argument → Type 0
AreArguments [] = Unit {0}
AreArguments (a ∷ args) = IsArgument a × AreArguments args

abbrev pub texts : List Argument → List (List ℕ)
texts [] = []
texts (a ∷ args) = text a ∷ texts args

abbrev pub apply_all : Bool → Config → List Argument → Config
apply_all can c [] = c
apply_all can c (a ∷ args) = apply_all can (apply can c a) args

read_arguments-texts :
    (can : Bool) (args : List Argument) (c : Config)
    → AreArguments args
    → read_arguments can (texts args) c ≡ ok (apply_all can c args)
unfolding read_arguments
read_arguments-texts can [] c h = refl
read_arguments-texts can (a ∷ args) c h =
    rw (read_argument-text can a c h.0) (read_arguments-texts can args (apply can c a) h.1)

-- The constructor reads its arguments back from their text: the start-up writes in order with their
-- addresses and values, the two switches, and nothing from an argument that does not begin with '+'.
pub configure-texts :
    (can : Bool) (args : List Argument)
    → AreArguments args
    → configure can (texts args) ≡ ok (apply_all can fresh args)
unfolding configure
configure-texts can args h = read_arguments-texts can args fresh h
