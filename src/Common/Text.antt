-- ===== src/Common/Text.antt =====
-- Text as a list of character codes: the parts of `std::string` and the C library that the code uses.
use Prim.Native.Char.{code}
use Prim.Native.String.{String}
use Prim.Native.Nat.{ℕ, zero, suc, ◌+◌, ◌-◌, ◌*◌, ◌/◌, ◌%◌, ◌^◌, min}
use mathlib.Core.Bool.{Bool, true, false, ◌&&◌, ◌||◌}
use mathlib.Core.Option.{Option, none, some}
use mathlib.Core.List.{List, [], ◌∷◌, ◌++◌}
use chipyard_fault_injection.Common.Tests.{ltb, leb, ◌==◌, if◌then◌else◌}
use chipyard_fault_injection.Common.Results.{Result, ok, err, int_overflow}

-- The codes of a literal.
abbrev pub codes : String → List ℕ
codes String.[] = []
codes (String.◌∷◌ c s) = code c ∷ codes s

abbrev pub drop {ℓ} : {A : Type ℓ} → ℕ → List A → List A
drop zero xs = xs
drop (suc n) [] = []
drop (suc n) (x ∷ xs) = drop n xs

abbrev pub take {ℓ} : {A : Type ℓ} → ℕ → List A → List A
take zero xs = []
take (suc n) [] = []
take (suc n) (x ∷ xs) = x ∷ take n xs

-- `s.find(p) == 0`, and `s.substr(0, n) == p` for a `p` of `n` characters.
abbrev pub starts_with : List ℕ → List ℕ → Bool
starts_with [] s = true
starts_with (p ∷ ps) [] = false
starts_with (p ∷ ps) (c ∷ s) = p == c && starts_with ps s

abbrev pub same_text : List ℕ → List ℕ → Bool
same_text [] [] = true
same_text [] (c ∷ s) = false
same_text (p ∷ ps) [] = false
same_text (p ∷ ps) (c ∷ s) = p == c && same_text ps s

abbrev pub one_later : Option ℕ → Option ℕ
one_later none = none
one_later (some i) = some (suc i)

-- `s.find(p)` for a `p` that is not empty; `none` is `npos`.
abbrev pub find_text : List ℕ → List ℕ → Option ℕ
find_text p [] = none
find_text p (c ∷ s) = if starts_with p (c ∷ s) then some 0 else one_later (find_text p s)

abbrev pub contains : ℕ → List ℕ → Bool
contains c [] = false
contains c (x ∷ xs) = x == c || contains c xs

-- A hexadecimal digit's value, 16 for any other character.
abbrev pub hex_value : ℕ → ℕ
hex_value c =
    if leb b'0' c && leb c b'9'
    then c - b'0'
    else if leb b'a' c && leb c b'f'
    then c - b'a' + 10
    else if leb b'A' c && leb c b'F'
    then c - b'A' + 10
    else 16

-- The digits at the front of a text, most significant first, and whether there was one.
abbrev pub hex_from : ℕ → List ℕ → ℕ
hex_from acc [] = acc
hex_from acc (c ∷ s) = elim (ltb (hex_value c) 16) [
  | true ↦ hex_from (acc * 16 + hex_value c) s
  | false ↦ acc
]

abbrev pub is_space : ℕ → Bool
is_space c = c == 32 || (leb 9 c && leb c 13)

abbrev pub skip_spaces : List ℕ → List ℕ
skip_spaces [] = []
skip_spaces (c ∷ s) = if is_space c then skip_spaces s else c ∷ s

abbrev pub skip_0x : List ℕ → List ℕ
skip_0x (z ∷ x ∷ s) = if z == b'0' && (x == b'x' || x == b'X') then s else z ∷ x ∷ s
skip_0x s = s

-- `strtoull(s, 0, 16)`: blanks, a sign, "0x", digits; too large a value gives the largest.
abbrev pub unsigned_hex : List ℕ → ℕ
unsigned_hex s = min (hex_from 0 (skip_0x s)) (2 ^ 64 - 1)

abbrev pub negated_hex : List ℕ → ℕ
negated_hex s =
    if ltb (hex_from 0 (skip_0x s)) (2 ^ 64)
    then (2 ^ 64 - hex_from 0 (skip_0x s)) % 2 ^ 64
    else 2 ^ 64 - 1

abbrev pub signed_hex : List ℕ → ℕ
signed_hex [] = 0
signed_hex (c ∷ s) =
    if c == b'-' then negated_hex s else if c == b'+' then unsigned_hex s else unsigned_hex (c ∷ s)

abbrev pub strtoull_hex : List ℕ → ℕ
strtoull_hex s = signed_hex (skip_spaces s)

-- A decimal digit's value, 10 for any other character, and the digits at the front of a text.
abbrev pub decimal_value : ℕ → ℕ
decimal_value c = if leb b'0' c && leb c b'9' then c - b'0' else 10

abbrev pub decimal_from : ℕ → List ℕ → ℕ
decimal_from acc [] = acc
decimal_from acc (c ∷ s) = elim (ltb (decimal_value c) 10) [
  | true ↦ decimal_from (acc * 10 + decimal_value c) s
  | false ↦ acc
]

-- `atoi(s)` and `atoll(s)` as a pattern of `w` bits; a value that does not fit is undefined.
abbrev pub fits_above : ℕ → ℕ → Result ℕ
fits_above w v = if ltb v (2 ^ (w - 1)) then ok v else err int_overflow

abbrev pub fits_below : ℕ → ℕ → Result ℕ
fits_below w v = if leb v (2 ^ (w - 1)) then ok ((2 ^ w - v) % 2 ^ w) else err int_overflow

abbrev pub signed_decimal : ℕ → List ℕ → Result ℕ
signed_decimal w [] = ok 0
signed_decimal w (c ∷ s) =
    if c == b'-'
    then fits_below w (decimal_from 0 s)
    else if c == b'+'
    then fits_above w (decimal_from 0 s)
    else fits_above w (decimal_from 0 (c ∷ s))

abbrev pub atoi : List ℕ → Result ℕ
atoi s = signed_decimal 32 (skip_spaces s)

abbrev pub atoll : List ℕ → Result ℕ
atoll s = signed_decimal 64 (skip_spaces s)

-- `str(n)`; `n + 1` digits are enough.
abbrev pub digits : ℕ → ℕ → List ℕ
digits zero n = []
digits (suc fuel) n =
    let high = digits fuel (n / 10) in
    if ltb n 10 then (b'0' + n) ∷ [] else high ++ (b'0' + n % 10) ∷ []

unfoldable pub decimal : ℕ → List ℕ
decimal n = digits (suc n) n

-- Texts one behind the other.
abbrev pub joined : List (List ℕ) → List ℕ
joined [] = []
joined (s ∷ texts) = s ++ joined texts
