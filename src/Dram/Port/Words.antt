-- ===== src/Dram/Port/Words.antt =====
-- Words as bytes, and machine numbers as they go through the port.
use native.Mathlib.Nat.{pow-suc}
use chipyard_fault_injection.Common.{
  ℕ, zero, suc, ◌+◌, ◌*◌, ◌/◌, ◌^◌, ◌≤◌, ◌<◌, ◌≡◌, refl, ap, List, [], ◌∷◌, length, ok, arith,
  sext32, u32,
}
use chipyard_fault_injection.Dram.Port.{bytes_of, load_word}

pub length-bytes_of : (n v : ℕ) → length (bytes_of n v) ≡ n
unfolding bytes_of
length-bytes_of zero v = refl
length-bytes_of (suc n) v = ap suc (length-bytes_of n (v / 256))

-- The number that the first `n` bytes spell, the lowest first.
abbrev pub spelled : ℕ → List ℕ → ℕ
spelled zero bytes = 0
spelled (suc n) [] = 0
spelled (suc n) (b ∷ bytes) = b + 256 * spelled n bytes

pub load_word-ok :
    (n : ℕ) (bytes : List ℕ) → n ≤ length bytes → load_word n bytes ≡ ok (spelled n bytes)
unfolding load_word
load_word-ok zero bytes h = refl
load_word-ok (suc n) [] h = absurd (omega arith)
load_word-ok (suc n) (b ∷ bytes) h = rw (load_word-ok n bytes (omega arith))

-- A word that is stored byte by byte is loaded again.
pub spelled-bytes_of : (n v : ℕ) → v < 256 ^ n → spelled n (bytes_of n v) ≡ v
unfolding bytes_of
spelled-bytes_of zero v h = omega arith
spelled-bytes_of (suc n) v h =
    omega (arith, spelled-bytes_of n (v / 256) (omega (arith, pow-suc 256 n)))

-- The conversions of an id cancel.
pub u32-sext32 : (a : ℕ) → a < 2 ^ 32 → u32 (sext32 a) ≡ a
u32-sext32 a h = ground arith

pub sext32-lt : (a : ℕ) → a < 2 ^ 32 → sext32 a < 2 ^ 64
sext32-lt a h = ground arith

pub sext32-small : (a : ℕ) → a < 2 ^ 31 → sext32 a ≡ a
sext32-small a h = ground arith
