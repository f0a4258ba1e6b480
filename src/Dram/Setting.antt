-- ===== src/Dram/Setting.antt =====
-- The options of the memory, read back from their text.
use chipyard_fault_injection.Common.{
  ℕ, ◌^◌, ◌<◌, ◌≡◌, refl, ap, ◌∙◌, true, false, List, [], ◌∷◌, ◌++◌, ok, arith, lt→ltb,
}
use chipyard_fault_injection.Common.Text.{codes, starts_with, same_text, hex_value}
use chipyard_fault_injection.Dram.{
  Settings, skip_prefix, below, stol_digits, stol_signed, stol_hex, set_address, read_setting,
  read_settings,
}
use chipyard_fault_injection.Tsi.Arguments.{
  IsHex, spelled, hex_from-IsHex, digit_plain, skip_0x-IsHex, plain_lem,
}

-- The options, and an argument of any other form.
pub data Setting : Type 0 where
  dramsim : Setting
  ini_dir loadmem_addr loadmem plain : List ℕ → Setting

abbrev pub text : Setting → List ℕ
text dramsim = codes "+dramsim"
text (ini_dir path) = codes "+dramsim_ini_dir=" ++ path
text (loadmem_addr digits) = codes "+loadmem_addr=" ++ digits
text (loadmem path) = codes "+loadmem=" ++ path
text (plain s) = s

-- Digits of a number that fits a `long`, and plain arguments that do not begin with '+'.
abbrev pub IsSetting : Setting → Type 0
IsSetting dramsim = Unit {0}
IsSetting (ini_dir path) = Unit {0}
IsSetting (loadmem_addr []) = ⊥
IsSetting (loadmem_addr (c ∷ s)) = IsHex (c ∷ s) × (spelled 0 (c ∷ s) < 2 ^ 63)
IsSetting (loadmem path) = Unit {0}
IsSetting (plain s) = starts_with (codes "+") s ≡ false

abbrev pub apply : Settings → Setting → Settings
apply s dramsim = record s { dramsim = true }
apply s (ini_dir path) = record s { ini_dir = path }
apply s (loadmem_addr digits) = record s { loadmem_addr = spelled 0 digits }
apply s (loadmem path) = record s { loadmem_file = path }
apply s (plain t) = s

below-ok : (limit v : ℕ) → v < limit → below limit v ≡ ok v
unfolding below
below-ok limit v lt = rw (lt→ltb v limit lt)

skip_prefix-IsHex : (c : ℕ) (s : List ℕ) → IsHex (c ∷ s) → skip_prefix (c ∷ s) ≡ c ∷ s
unfolding skip_prefix
skip_prefix-IsHex c s h = rw (skip_0x-IsHex (c ∷ s) h, lt→ltb (hex_value c) 16 h.0) refl

stol_hex-IsHex :
    (c : ℕ) (s : List ℕ)
    → IsHex (c ∷ s)
    → spelled 0 (c ∷ s) < 2 ^ 63
    → stol_hex (c ∷ s) ≡ ok (spelled 0 (c ∷ s))
unfolding stol_hex stol_signed stol_digits
stol_hex-IsHex c s h lt =
    let plain = digit_plain c h.0 in
    let value = hex_from-IsHex 0 (c ∷ s) h in
    let plain_digits : stol_digits (2 ^ 63) (c ∷ s) ≡ ok (spelled 0 (c ∷ s)) =
      rw (stol_digits, lt→ltb (hex_value c) 16 h.0)
        (ap (below (2 ^ 63)) value ∙ below-ok (2 ^ 63) (spelled 0 (c ∷ s)) lt) in
    rw (plain.0, plain.1, plain.2, skip_prefix-IsHex c s h) plain_digits

same_plain : (p s : List ℕ) → starts_with (codes "+") s ≡ false → same_text (b'+' ∷ p) s ≡ false
same_plain p [] e = refl
same_plain p (c ∷ s) e = ground arith

read_setting-text :
    (a : Setting) (s : Settings) → IsSetting a → read_setting (text a) s ≡ ok (apply s a)
unfolding read_setting set_address
read_setting-text dramsim s h = refl
read_setting-text (ini_dir path) s h = refl
read_setting-text (loadmem_addr []) s h = absurd h
read_setting-text (loadmem_addr (c ∷ d)) s h = rw (stol_hex-IsHex c d h.0 h.1)
read_setting-text (loadmem path) s h = refl
read_setting-text (plain t) s h = rw (
  same_plain (codes "dramsim") t h,
  plain_lem (codes "dramsim_ini_dir=") t h,
  plain_lem (codes "loadmem_addr=") t h,
  plain_lem (codes "loadmem=") t h,
)

abbrev pub AreSettings : List Setting → Type 0
AreSettings [] = Unit {0}
AreSettings (a ∷ args) = IsSetting a × AreSettings args

abbrev pub settings_texts : List Setting → List (List ℕ)
settings_texts [] = []
settings_texts (a ∷ args) = text a ∷ settings_texts args

abbrev pub apply_settings : Settings → List Setting → Settings
apply_settings s [] = s
apply_settings s (a ∷ args) = apply_settings (apply s a) args

-- The arguments of the memory are read back from their text, the later ones over the earlier ones;
-- an argument that does not begin with '+' sets nothing.
pub read_settings-texts :
    (args : List Setting) (s : Settings)
    → AreSettings args
    → read_settings (settings_texts args) s ≡ ok (apply_settings s args)
unfolding read_settings
read_settings-texts [] s h = refl
read_settings-texts (a ∷ args) s h =
    rw (read_setting-text a s h.0) (read_settings-texts args (apply s a) h.1)
