-- ===== src/Serial/Options.antt =====
-- `remove_vcs_simv_opt` in place is the filter that its comment describes.
use chipyard_fault_injection.Common.{
  ℕ, zero, suc, ◌+◌, ◌-◌, ◌≤◌, ◌<◌, ◌≡◌, refl, sym, ap, ap₂, ◌∙◌, true, false, some, List, [], ◌∷◌,
  ◌++◌, if◌then◌else◌, get_or, set, length, length-append, append_assoc, append-nil, arith,
  Bool-cases, inl, inr, lt→ltb,
}
use chipyard_fault_injection.Serial.{is_simv_opt, shift_down, remove_loop, remove_vcs_simv_opt}

abbrev pub Args : Type 0
Args = List (List ℕ)

-- The arguments that are no VCS options, in order.
abbrev pub kept : Args → Args
kept [] = []
kept (a ∷ args) = if is_simv_opt a then kept args else a ∷ kept args

ap₃ :
    {A B C D : Type 0} (f : A → B → C → D) {a a' : A} {b b' : B} {c c' : C}
    → a ≡ a'
    → b ≡ b'
    → c ≡ c'
    → f a b c ≡ f a' b' c'
ap₃ f p q r = λ i. f (p i) (q i) (r i)

get_or-middle :
    (pre : Args) (x : List ℕ) (rest : Args) (d : List ℕ)
    → get_or (pre ++ x ∷ rest) (length pre) d ≡ x
get_or-middle [] x rest d = refl
get_or-middle (p ∷ pre) x rest d = get_or-middle pre x rest d

set-middle :
    (pre : Args) (x y : List ℕ) (rest : Args)
    → set (pre ++ x ∷ rest) (length pre) y ≡ pre ++ y ∷ rest
set-middle [] x y rest = refl
set-middle (p ∷ pre) x y rest = ap (λ (q : Args). p ∷ q) (set-middle pre x y rest)

-- One entry more in front of the position.
snoc : (pre : Args) (x : List ℕ) (rest : Args) → pre ++ x ∷ rest ≡ (pre ++ x ∷ []) ++ rest
snoc pre x rest = sym (append_assoc pre (x ∷ []) rest)

length-snoc : (pre : Args) (x : List ℕ) → length (pre ++ x ∷ []) ≡ length pre + 1
length-snoc pre x = omega (arith, length-append pre (x ∷ []))

get_or-next :
    (pre : Args) (x y : List ℕ) (rest : Args) → get_or (pre ++ x ∷ y ∷ rest) (length pre + 1) [] ≡ y
get_or-next pre x y rest =
    rw (← length-snoc pre x, snoc pre x (y ∷ rest)) (get_or-middle (pre ++ x ∷ []) y rest [])

shift_down_lem :
    (mid pre : Args) (x : List ℕ) (stale : Args)
    → (stale' : Args) × (shift_down (length mid) (length pre) (pre ++ x ∷ (mid ++ stale))
        ≡ pre ++ (mid ++ stale'))
unfolding shift_down
shift_down_lem [] pre x stale = (x ∷ stale, refl)
shift_down_lem (y ∷ mid) pre x stale =
    let (stale', e) = shift_down_lem mid (pre ++ y ∷ []) y stale in
    (
      stale',
      ap₂ (shift_down (length mid)) (sym (length-snoc pre y)) (
            ap (set (pre ++ x ∷ y ∷ (mid ++ stale)) (length pre))
              (get_or-next pre x y (mid ++ stale))
            ∙ set-middle pre x y (y ∷ (mid ++ stale))
            ∙ snoc pre y (y ∷ (mid ++ stale)))
          ∙ e
          ∙ append_assoc pre (y ∷ []) (mid ++ stale'),
    )

-- One round of the loop.
module _ (fuel idx argc : ℕ) (argv : Args) where
  remove_stop : argc ≤ idx → remove_loop (suc fuel) idx argc argv ≡ some (argc, argv)
  unfolding remove_loop
  remove_stop h = ground arith

  remove_drop :
      idx < argc
      → is_simv_opt (get_or argv idx []) ≡ true
      → remove_loop (suc fuel) idx argc argv
        ≡ remove_loop fuel idx (argc - 1) (shift_down (argc - 1 - idx) idx argv)
  unfolding remove_loop
  remove_drop h e = rw (lt→ltb idx argc h, e)

  remove_keep :
      idx < argc
      → is_simv_opt (get_or argv idx []) ≡ false
      → remove_loop (suc fuel) idx argc argv ≡ remove_loop fuel (idx + 1) argc argv
  unfolding remove_loop
  remove_keep h e = rw (lt→ltb idx argc h, e)

-- The loop from position `length pre`, where `rest` is what is still to be looked at.
remove_loop_lem :
    (fuel : ℕ) (pre rest stale : Args)
    → length rest < fuel
    → (stale' : Args) × (remove_loop fuel
          (length pre)
          (length pre + length rest)
          (pre ++ (rest ++ stale))
        ≡ some (length (pre ++ kept rest), pre ++ (kept rest ++ stale')))
remove_loop_lem zero pre rest stale h = absurd (omega arith)
remove_loop_lem (suc fuel) pre [] stale h =
    let none_left : length pre + 0 ≡ length pre = omega arith in
    (
      stale,
      remove_stop fuel (length pre) (length pre + 0) (pre ++ stale) (omega arith)
          ∙ rw (none_left, append-nil),
    )
remove_loop_lem (suc fuel) pre (x ∷ rest) stale h =
    let here : get_or (pre ++ x ∷ (rest ++ stale)) (length pre) [] ≡ x =
      get_or-middle pre x (rest ++ stale) [] in
    elim (Bool-cases (is_simv_opt x)) [
      | inl drop ↦
          let (moved, e) = shift_down_lem rest pre x stale in
          let (stale', f) = remove_loop_lem fuel pre rest moved (omega arith) in
          let count : length pre + suc (length rest) - 1 ≡ length pre + length rest = omega arith in
          let rounds : length pre + suc (length rest) - 1 - length pre ≡ length rest =
            omega arith in
          (
            stale',
            remove_drop fuel (length pre) (length pre + suc (length rest))
                  (pre ++ x ∷ (rest ++ stale)) (omega arith) (ap is_simv_opt here ∙ drop)
                ∙ ap₂ (remove_loop fuel (length pre)) count (
                    ap (λ (n : ℕ). shift_down n (length pre) (pre ++ x ∷ (rest ++ stale))) rounds
                    ∙ e)
                ∙ rw drop f,
          )
      | inr keep ↦
          let (stale', f) = remove_loop_lem fuel (pre ++ x ∷ []) rest stale (omega arith) in
          let same : length (pre ++ x ∷ []) + length rest ≡ length pre + suc (length rest) =
            omega (arith, length-snoc pre x) in
          (
            stale',
            remove_keep fuel (length pre) (length pre + suc (length rest))
                  (pre ++ x ∷ (rest ++ stale)) (omega arith) (ap is_simv_opt here ∙ keep)
                ∙ ap₃ (remove_loop fuel) (sym (length-snoc pre x)) (sym same)
                    (snoc pre x (rest ++ stale))
                ∙ f
                ∙ rw (keep, append_assoc, append_assoc),
          )
    ]

-- The in-place removal ends, and leaves in the first `argc` entries of `argv` exactly the arguments
-- that are no VCS options, in their order.
pub remove_vcs_simv_opt_lem :
    (argv : Args)
    → (stale : Args) × (remove_vcs_simv_opt (length argv) argv
        ≡ some (length (kept argv), kept argv ++ stale))
unfolding remove_vcs_simv_opt
remove_vcs_simv_opt_lem argv =
    let (stale, e) = remove_loop_lem (suc (length argv)) [] argv [] (omega arith) in
    let start : 0 + length argv ≡ length argv = omega arith in (stale, rw (append-nil, start) at e)
