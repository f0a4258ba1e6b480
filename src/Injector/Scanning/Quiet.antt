-- ===== src/Injector/Scanning/Quiet.antt =====
-- A text with one match: what `re.findall` and `re.sub` make of it.
use chipyard_fault_injection.Common.{
  ℕ, zero, suc, ◌-◌, ◌≡◌, refl, ap, sym, ◌∙◌, Bool, true, false, ◌&&◌, Option, none, some, List, [],
  ◌∷◌, ◌++◌, length, length-append, append-nil, arith,
}
use chipyard_fault_injection.Injector.Scanning.{Match, find_all, sub_all, findall, sub}

abbrev is_none : Option Match → Bool
is_none none = true
is_none (some m) = false

none-is_none : (o : Option Match) → is_none o ≡ true → o ≡ none
none-is_none none e = refl
none-is_none (some m) e = absurd (cc e)

module _ (pattern_at : List ℕ → Option Match) where
  -- No match begins in a text, whatever it runs on into.
  abbrev pub Quiet : List ℕ → List ℕ → Type 0
  Quiet [] rest = Unit {0}
  Quiet (c ∷ s) rest = (pattern_at ((c ∷ s) ++ rest) ≡ none) × Quiet s rest

  abbrev pub is_quiet : List ℕ → List ℕ → Bool
  is_quiet [] rest = true
  is_quiet (c ∷ s) rest = is_none (pattern_at ((c ∷ s) ++ rest)) && is_quiet s rest

  pub is_quiet-Quiet : (s rest : List ℕ) → is_quiet s rest ≡ true → Quiet s rest
  is_quiet-Quiet [] rest e = tt
  is_quiet-Quiet (c ∷ s) rest e = (
    none-is_none (pattern_at ((c ∷ s) ++ rest)) (ground (arith, e)),
    is_quiet-Quiet s rest (ground (arith, e)),
  )

  find_all-Quiet :
      (before s : List ℕ)
      → Quiet before s
      → find_all pattern_at zero (before ++ s) ≡ find_all pattern_at zero s
  unfolding find_all
  find_all-Quiet [] s quiet = refl
  find_all-Quiet (c ∷ before) s quiet = rw (quiet.0) (find_all-Quiet before s quiet.1)

  sub_all-Quiet :
      (replacement before s : List ℕ)
      → Quiet before s
      → sub_all pattern_at replacement zero (before ++ s)
        ≡ before ++ sub_all pattern_at replacement zero s
  unfolding sub_all
  sub_all-Quiet replacement [] s quiet = refl
  sub_all-Quiet replacement (c ∷ before) s quiet =
      rw (quiet.0) (ap (λ (l : List ℕ). c ∷ l) (sub_all-Quiet replacement before s quiet.1))

  find_all-empty : (passing : ℕ) → find_all pattern_at passing [] ≡ []
  unfolding find_all
  find_all-empty zero = refl
  find_all-empty (suc passing) = refl

  sub_all-empty :
      (replacement : List ℕ) (passing : ℕ) → sub_all pattern_at replacement passing [] ≡ []
  unfolding sub_all
  sub_all-empty replacement zero = refl
  sub_all-empty replacement (suc passing) = refl

  find_all-end : (s : List ℕ) → Quiet s [] → find_all pattern_at zero s ≡ []
  find_all-end s quiet =
      ap (find_all pattern_at zero) (sym (append-nil s))
      ∙ find_all-Quiet s [] quiet
      ∙ find_all-empty zero

  sub_all-end : (replacement s : List ℕ) → Quiet s [] → sub_all pattern_at replacement zero s ≡ s
  sub_all-end replacement s quiet =
      ap (sub_all pattern_at replacement zero) (sym (append-nil s))
      ∙ sub_all-Quiet replacement s [] quiet
      ∙ ap (λ (l : List ℕ). s ++ l) (sub_all-empty replacement zero)
      ∙ append-nil s

  find_all-pass :
      (passed s : List ℕ)
      → find_all pattern_at (length passed) (passed ++ s) ≡ find_all pattern_at zero s
  unfolding find_all
  find_all-pass [] s = refl
  find_all-pass (c ∷ passed) s = find_all-pass passed s

  sub_all-pass :
      (replacement passed s : List ℕ)
      → sub_all pattern_at replacement (length passed) (passed ++ s)
        ≡ sub_all pattern_at replacement zero s
  unfolding sub_all
  sub_all-pass replacement [] s = refl
  sub_all-pass replacement (c ∷ passed) s = sub_all-pass replacement passed s

  to_pass :
      (xs post : List ℕ) (m : Match)
      → m.rest ≡ post
      → length (xs ++ post) - length m.rest ≡ length xs
  to_pass xs post m remains =
      omega (arith, length-append xs post, ap (λ (l : List ℕ). length l) remains)

  find_all-match :
      (c : ℕ) (xs post : List ℕ) (m : Match)
      → pattern_at (c ∷ xs ++ post) ≡ some m
      → m.rest ≡ post
      → Quiet post []
      → find_all pattern_at zero (c ∷ xs ++ post) ≡ m ∷ []
  unfolding find_all
  find_all-match c xs post m matched remains quiet = rw matched (
      ap (λ (k : ℕ). m ∷ find_all pattern_at k (xs ++ post)) (to_pass xs post m remains)
      ∙ ap (λ (l : List Match). m ∷ l) (find_all-pass xs post ∙ find_all-end post quiet))

  sub_all-match :
      (replacement : List ℕ) (c : ℕ) (xs post : List ℕ) (m : Match)
      → pattern_at (c ∷ xs ++ post) ≡ some m
      → m.rest ≡ post
      → Quiet post []
      → sub_all pattern_at replacement zero (c ∷ xs ++ post) ≡ replacement ++ post
  unfolding sub_all
  sub_all-match replacement c xs post m matched remains quiet = rw matched (
      ap (λ (k : ℕ). replacement ++ sub_all pattern_at replacement k (xs ++ post))
        (to_pass xs post m remains)
      ∙ ap (λ (l : List ℕ). replacement ++ l)
          (sub_all-pass replacement xs post ∙ sub_all-end replacement post quiet))

  -- A text with one match in it, and the text with the match replaced.
  pub findall-once :
      (before : List ℕ) (c : ℕ) (xs post : List ℕ) (m : Match)
      → Quiet before (c ∷ xs ++ post)
      → pattern_at (c ∷ xs ++ post) ≡ some m
      → m.rest ≡ post
      → Quiet post []
      → findall pattern_at (before ++ (c ∷ xs ++ post)) ≡ m ∷ []
  unfolding findall
  findall-once before c xs post m quiet matched remains quiet' =
      find_all-Quiet before (c ∷ xs ++ post) quiet
      ∙ find_all-match c xs post m matched remains quiet'

  pub sub_once :
      (replacement before : List ℕ) (c : ℕ) (xs post : List ℕ) (m : Match)
      → Quiet before (c ∷ xs ++ post)
      → pattern_at (c ∷ xs ++ post) ≡ some m
      → m.rest ≡ post
      → Quiet post []
      → sub pattern_at replacement (before ++ (c ∷ xs ++ post)) ≡ before ++ (replacement ++ post)
  unfolding sub
  sub_once replacement before c xs post m quiet matched remains quiet' =
      sub_all-Quiet replacement before (c ∷ xs ++ post) quiet
      ∙ ap (λ (l : List ℕ). before ++ l)
          (sub_all-match replacement c xs post m matched remains quiet')
