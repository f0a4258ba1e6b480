-- ===== src/Injector/Paths/Rendered.antt =====
-- A path that is written from its names reads back.
use chipyard_fault_injection.Common.{
  ℕ, ◌≡◌, refl, ap, ◌∙◌, Bool, true, false, not, some, List, [], ◌∷◌, ◌++◌, ◌==◌, arith,
}
use chipyard_fault_injection.Injector.Paths.{
  is_word, word, behind_word, is_empty, words_behind, path_parts, line, path_remainder,
}

-- A name of Verilog: word characters, at least one.
abbrev pub AllWord : List ℕ → Type 0
AllWord [] = Unit {0}
AllWord (c ∷ s) = (is_word c ≡ true) × AllWord s

abbrev pub IsName : List ℕ → Type 0
IsName s = AllWord s × (is_empty s ≡ false)

abbrev pub AllNames : List (List ℕ) → Type 0
AllNames [] = Unit {0}
AllNames (n ∷ ns) = IsName n × AllNames ns

-- The rest of a path behind its last name, such as `:slt` or `/:slt:3`: it does not carry a name on,
-- holds no further name, and stays in one line.
abbrev pub no_word_first : List ℕ → Bool
no_word_first [] = true
no_word_first (c ∷ s) = not (is_word c)

abbrev pub OneLine : List ℕ → Type 0
OneLine [] = Unit {0}
OneLine (c ∷ s) = (c == 10 ≡ false) × OneLine s

pub record IsTarget (tail : List ℕ) : Type 0 where
  pub apart : no_word_first tail ≡ true
  pub nameless : path_parts tail ≡ []
  pub one_line : OneLine tail

-- The path with these names.
abbrev pub rendered : List (List ℕ) → List ℕ → List ℕ
rendered [] tail = tail
rendered (n ∷ ns) tail = b'/' ∷ n ++ rendered ns tail

pub word-append : (n s : List ℕ) → AllWord n → no_word_first s ≡ true → word (n ++ s) ≡ n
unfolding word
word-append [] [] all apart = refl
word-append [] (c ∷ s) all apart = ground (arith, apart)
word-append (c ∷ n) s all apart =
    rw (all.0) (ap (λ (w : List ℕ). c ∷ w) (word-append n s all.1 apart))

pub behind_word-append :
    (n s : List ℕ) → AllWord n → no_word_first s ≡ true → behind_word (n ++ s) ≡ s
unfolding behind_word
behind_word-append [] [] all apart = refl
behind_word-append [] (c ∷ s) all apart = ground (arith, apart)
behind_word-append (c ∷ n) s all apart = rw (all.0) (behind_word-append n s all.1 apart)

-- No slash is a word character.
no_slash : (c : ℕ) → is_word c ≡ true → c == b'/' ≡ false
unfolding is_word
no_slash c w = ground arith

path_parts-append : (n s : List ℕ) → AllWord n → path_parts (n ++ s) ≡ path_parts s
unfolding path_parts words_behind
path_parts-append [] s all = refl
path_parts-append (c ∷ n) s all = rw (no_slash c all.0) (path_parts-append n s all.1)

rendered-apart :
    (ns : List (List ℕ)) (tail : List ℕ)
    → no_word_first tail ≡ true
    → no_word_first (rendered ns tail) ≡ true
unfolding is_word
rendered-apart [] tail apart = apart
rendered-apart (n ∷ ns) tail apart = refl

pub path_parts-rendered :
    (ns : List (List ℕ)) (tail : List ℕ)
    → AllNames ns
    → IsTarget tail
    → path_parts (rendered ns tail) ≡ ns
unfolding path_parts words_behind
path_parts-rendered [] tail names target = target.nameless
path_parts-rendered (n ∷ ns) tail names target =
    rw
      (
        word-append n (rendered ns tail) (names.0).0 (rendered-apart ns tail target.apart),
        (names.0).1,
      )
      (ap (λ (l : List (List ℕ)). n ∷ l)
        (path_parts-append n (rendered ns tail) (names.0).0
          ∙ path_parts-rendered ns tail names.1 target))

line-OneLine : (s : List ℕ) → OneLine s → line s ≡ s
unfolding line
line-OneLine [] one = refl
line-OneLine (c ∷ s) one = rw (one.0) (ap (λ (l : List ℕ). c ∷ l) (line-OneLine s one.1))

-- No line ends inside a word.
no_line_end : (c : ℕ) → is_word c ≡ true → c == 10 ≡ false
unfolding is_word
no_line_end c w = ground arith

OneLine-append : (n s : List ℕ) → AllWord n → OneLine s → OneLine (n ++ s)
OneLine-append [] s all one = one
OneLine-append (c ∷ n) s all one = (no_line_end c all.0, OneLine-append n s all.1 one)

rendered-OneLine :
    (ns : List (List ℕ)) (tail : List ℕ) → AllNames ns → OneLine tail → OneLine (rendered ns tail)
rendered-OneLine [] tail names one = one
rendered-OneLine (n ∷ ns) tail names one =
    (refl, OneLine-append n (rendered ns tail) (names.0).0 (rendered-OneLine ns tail names.1 one))

pub path_remainder-rendered :
    (n m : List ℕ) (ns : List (List ℕ)) (tail : List ℕ)
    → AllNames (n ∷ m ∷ ns)
    → IsTarget tail
    → path_remainder (rendered (n ∷ m ∷ ns) tail) ≡ some (rendered (m ∷ ns) tail)
unfolding path_remainder
path_remainder-rendered n m ns tail names target =
    let next : List ℕ = rendered (m ∷ ns) tail in
    let apart : no_word_first next ≡ true = rendered-apart (m ∷ ns) tail target.apart in
    rw
      (
        word-append n next (names.0).0 apart,
        behind_word-append n next (names.0).0 apart,
        (names.0).1,
      )
      (ap (λ (l : List ℕ). some l)
        (line-OneLine next (rendered-OneLine (m ∷ ns) tail names.1 target.one_line)))
