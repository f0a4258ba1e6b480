-- ===== src/Injector/Scanning/Bus.antt =====
-- A declaration with bounds is found.
use chipyard_fault_injection.Common.{
  ℕ, ◌≡◌, refl, ap, ◌∙◌, Bool, true, false, Option, some, List, [], ◌∷◌, ◌++◌, append_assoc,
}
use chipyard_fault_injection.Common.Text.{codes}
use chipyard_fault_injection.Injector.Paths.{is_empty}
use chipyard_fault_injection.Injector.Paths.Rendered.{IsName}
use chipyard_fault_injection.Injector.Scanning.{
  Match, is_blank, is_digit, match_low, match_high, match_bounds, bounded, match_gap, with_rest,
  followed_by, match_behind, match_keyword, match_wire,
}
use chipyard_fault_injection.Injector.Scanning.Declared.{
  AllOf, IsGap, none_first, strip_prefix-append, front_of-append, behind_front-append,
  name_no_blank, keyword_of, no_wire,
}

-- The bounds of a bus: digits, at least one, and a digit.
pub record IsBounds (high : List ℕ) (low : ℕ) : Type 0 where
  pub digits : AllOf is_digit high
  pub some_digit : is_empty high ≡ false
  pub digit : is_digit low ≡ true

-- `[high:low]` in front of a text.
abbrev pub in_brackets : List ℕ → ℕ → List ℕ → List ℕ
in_brackets high low s = b'[' ∷ high ++ (b':' ∷ low ∷ b']' ∷ s)

match_low-bounds :
    (high : List ℕ) (low : ℕ) (s : List ℕ)
    → is_digit low ≡ true
    → match_low high (b':' ∷ low ∷ b']' ∷ s) ≡ some (high, low ∷ [], s)
unfolding match_low
match_low-bounds high low s digit = rw digit refl

colon_no_digit : (s : List ℕ) → none_first is_digit (b':' ∷ s) ≡ true
unfolding is_digit
colon_no_digit s = refl

bracket_no_blank : (s : List ℕ) → none_first is_blank (b'[' ∷ s) ≡ true
unfolding is_blank
bracket_no_blank s = refl

match_bounds-in_brackets :
    (high : List ℕ) (low : ℕ) (s : List ℕ)
    → IsBounds high low
    → match_bounds (in_brackets high low s) ≡ some (high, low ∷ [], s)
unfolding match_bounds match_high
match_bounds-in_brackets [] low s ok = absurd (cc (ok.some_digit))
match_bounds-in_brackets (c ∷ high) low s ok =
    let tail = b':' ∷ low ∷ b']' ∷ s in
    rw
      (
        ok.digits.0,
        front_of-append is_digit (c ∷ high) tail ok.digits (colon_no_digit (low ∷ b']' ∷ s)),
        behind_front-append is_digit (c ∷ high) tail ok.digits (colon_no_digit (low ∷ b']' ∷ s)),
      )
      (match_low-bounds (c ∷ high) low s ok.digit)

-- The text between the keyword and the name of a bus.
abbrev pub bus_gap : List ℕ → List ℕ → ℕ → List ℕ → List ℕ
bus_gap gap high low gap' =
    gap ++ (codes "[" ++ (high ++ (codes ":" ++ ((low ∷ []) ++ (codes "]" ++ gap')))))

split_gap :
    (gap high : List ℕ) (low : ℕ) (gap' s : List ℕ)
    → bus_gap gap high low gap' ++ s ≡ gap ++ in_brackets high low (gap' ++ s)
split_gap gap high low gap' s = simp (append_assoc)

match_gap-bus :
    (keyword gap high : List ℕ) (low : ℕ) (gap' name s : List ℕ)
    → IsGap gap
    → IsBounds high low
    → AllOf is_blank gap'
    → IsName name
    → match_gap keyword (gap ++ in_brackets high low (gap' ++ (name ++ s)))
      ≡ some (record {
        keyword = keyword;
        gap = bus_gap gap high low gap';
        bounds = some (high, low ∷ []);
        rest = name ++ s;
      })
unfolding match_gap bounded
match_gap-bus keyword [] high low gap' name s blank bounds blank' named = absurd (cc (blank.1))
match_gap-bus keyword (c ∷ gap) high low gap' name s blank bounds blank' named =
    let after = high ++ (b':' ∷ low ∷ b']' ∷ gap' ++ (name ++ s)) in
    let behind = in_brackets high low (gap' ++ (name ++ s)) in
    rw (
      blank.0.0,
      front_of-append is_blank (c ∷ gap) behind blank.0 (bracket_no_blank after),
      behind_front-append is_blank (c ∷ gap) behind blank.0 (bracket_no_blank after),
      match_bounds-in_brackets high low (gap' ++ (name ++ s)) bounds,
      front_of-append is_blank gap' (name ++ s) blank' (name_no_blank name s named),
      behind_front-append is_blank gap' (name ++ s) blank' (name_no_blank name s named),
    )

module _ (gap high : List ℕ) (low : ℕ) (gap' name ending post : List ℕ) (blank : IsGap gap)
    (bounds : IsBounds high low) (blank' : AllOf is_blank gap') (named : IsName name) where
  abbrev pub bus_found : List ℕ → List ℕ → Match
  bus_found keyword rest = record {
    keyword = keyword;
    gap = bus_gap gap high low gap';
    bounds = some (high, low ∷ []);
    rest = rest;
  }

  match_keyword-bus :
      (keyword : List ℕ)
      → match_keyword keyword name ending
          (keyword ++ (bus_gap gap high low gap' ++ (name ++ (ending ++ post))))
        ≡ some (bus_found keyword post)
  unfolding match_keyword match_behind followed_by with_rest
  match_keyword-bus keyword =
      ap (match_behind keyword name ending)
        (strip_prefix-append keyword (bus_gap gap high low gap' ++ (name ++ (ending ++ post))))
      ∙ ap (λ (s : List ℕ). followed_by ending (followed_by name (match_gap keyword s)))
          (split_gap gap high low gap' (name ++ (ending ++ post)))
      ∙ ap (λ (o : Option Match). followed_by ending (followed_by name o))
          (match_gap-bus keyword gap high low gap' name (ending ++ post) blank bounds blank' named)
      ∙ ap
          (λ (o : Option (List ℕ)).
            followed_by ending (with_rest (bus_found keyword (name ++ (ending ++ post))) o))
          (strip_prefix-append name (ending ++ post))
      ∙ ap (with_rest (bus_found keyword (ending ++ post))) (strip_prefix-append ending post)

pub match_wire-bus :
    (assigned : Bool) (gap high : List ℕ) (low : ℕ) (gap' name post : List ℕ)
    → IsGap gap
    → IsBounds high low
    → AllOf is_blank gap'
    → IsName name
    → match_wire name
        (keyword_of assigned ++ (bus_gap gap high low gap' ++ (name ++ (codes " = " ++ post))))
      ≡ some (record {
        keyword = keyword_of assigned;
        gap = bus_gap gap high low gap';
        bounds = some (high, low ∷ []);
        rest = post;
      })
unfolding match_wire
match_wire-bus true gap high low gap' name post blank bounds blank' named =
    rw (no_wire name (codes " = ") (bus_gap gap high low gap' ++ (name ++ (codes " = " ++ post)))) (
      match_keyword-bus gap high low gap' name (codes " = ") post blank bounds blank' named
        (codes "assign"))
match_wire-bus false gap high low gap' name post blank bounds blank' named = rw (
    match_keyword-bus gap high low gap' name (codes " = ") post blank bounds blank' named
      (codes "wire"))
