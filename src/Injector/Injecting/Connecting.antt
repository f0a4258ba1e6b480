-- ===== src/Injector/Injecting/Connecting.antt =====
-- The ports of the faults at a child that is declared once.
mod Tests
use chipyard_fault_injection.Common.{
  ℕ, ◌≡◌, refl, ap, ◌∙◌, false, none, some, List, [], ◌∷◌, ◌++◌, append_assoc, append-nil, Result,
  ok,
}
use chipyard_fault_injection.Common.Text.{codes, joined, contains}
use chipyard_fault_injection.Injector.Paths.Rendered.{
  IsName, OneLine, word-append, behind_word-append,
}
use chipyard_fault_injection.Injector.Instances.{Instance, Instances, module_of}
use chipyard_fault_injection.Injector.Instances.Lookup.{find_child}
use chipyard_fault_injection.Injector.Routing.{port_string}
use chipyard_fault_injection.Injector.Scanning.{Match, strip_prefix, findall, sub}
use chipyard_fault_injection.Injector.Scanning.Quiet.{Quiet, findall-once, sub_once}
use chipyard_fault_injection.Injector.Scanning.Declared.{strip_prefix-append}
use chipyard_fault_injection.Injector.Scanning.Lines.{
  behind_text, match_line, line_behind, match_declaration, match_child,
}
use chipyard_fault_injection.Injector.Injecting.{first_match, template, child_type, connect_child}

-- A match that is one text.
abbrev found : List ℕ → List ℕ → Match
found s post = record { keyword = s; gap = []; bounds = none; rest = post }

match_line-found :
    (line post : List ℕ)
    → OneLine line
    → match_line (line ++ (10 ∷ post)) ≡ some (found (line ++ 10 ∷ []) post)
unfolding match_line
match_line-found [] post one = refl
match_line-found (c ∷ line) post one =
    rw (one.0) (ap (behind_text (c ∷ [])) (match_line-found line post one.1))

-- A line behind a text that is there.
line_behind-found :
    (s opened line post : List ℕ)
    → OneLine line
    → line_behind s (strip_prefix opened (opened ++ (line ++ (10 ∷ post))))
      ≡ some (found (s ++ (line ++ 10 ∷ [])) post)
line_behind-found s opened line post one =
    ap (line_behind s) (strip_prefix-append opened (line ++ (10 ∷ post)))
    ∙ ap (behind_text s) (match_line-found line post one)

-- `name (` with the rest of its line.
abbrev pub declaration : List ℕ → List ℕ → List ℕ
declaration name line = name ++ (codes " (" ++ (line ++ 10 ∷ []))

abbrev pub instantiated : List ℕ → List ℕ → List ℕ → List ℕ
instantiated type name line = type ++ (codes " " ++ declaration name line)

-- A text with the end of the line and of the whole set apart.
split_declaration :
    (name line post : List ℕ)
    → declaration name line ++ post ≡ (name ++ codes " (") ++ (line ++ (10 ∷ post))
split_declaration name line post = simp (append_assoc)

match_declaration-found :
    (name line post : List ℕ)
    → OneLine line
    → match_declaration name (declaration name line ++ post)
      ≡ some (found (declaration name line) post)
unfolding match_declaration
match_declaration-found name line post one =
    ap (match_declaration name) (split_declaration name line post)
    ∙ line_behind-found (name ++ codes " (") (name ++ codes " (") line post one
    ∙ ap (λ (s : List ℕ). some (found s post)) (append_assoc name (codes " (") (line ++ 10 ∷ []))

match_child-found :
    (type name line post : List ℕ)
    → IsName type
    → OneLine line
    → match_child name (instantiated type name line ++ post)
      ≡ some (found (instantiated type name line) post)
unfolding match_child
match_child-found type name line post named one =
    let opened = codes " " ++ (name ++ codes " (") in
    let split : instantiated type name line ++ post ≡ type ++ (opened ++ (line ++ (10 ∷ post))) =
      simp (append_assoc) in
    ap (match_child name) split
    ∙ rw
        (
          word-append type (opened ++ (line ++ (10 ∷ post))) named.0 refl,
          named.1,
          behind_word-append type (opened ++ (line ++ (10 ∷ post))) named.0 refl,
        )
        (line_behind-found (type ++ opened) opened line post one
          ∙ ap (λ (s : List ℕ). some (found s post)) (simp (append_assoc)))

findall-declaration :
    (before name line post : List ℕ)
    → IsName name
    → OneLine line
    → Quiet (match_declaration name) before (declaration name line ++ post)
    → Quiet (match_declaration name) post []
    → findall (match_declaration name) (before ++ (declaration name line ++ post))
      ≡ found (declaration name line) post ∷ []
findall-declaration before [] line post named one quiet quiet' = absurd (cc (named.1))
findall-declaration before (c ∷ name) line post named one quiet quiet' =
    findall-once (match_declaration (c ∷ name)) before c (name ++ (codes " (" ++ (line ++ 10 ∷ [])))
      post (found (declaration (c ∷ name) line) post) quiet
      (match_declaration-found (c ∷ name) line post one) refl quiet'

sub-child :
    (replacement before type name line post : List ℕ)
    → IsName type
    → OneLine line
    → Quiet (match_child name) before (instantiated type name line ++ post)
    → Quiet (match_child name) post []
    → sub (match_child name) replacement (before ++ (instantiated type name line ++ post))
      ≡ before ++ (replacement ++ post)
sub-child replacement before [] name line post named one quiet quiet' = absurd (cc (named.1))
sub-child replacement before (c ∷ type) name line post named one quiet quiet' =
    sub_once (match_child name) replacement before c (type ++ (codes " " ++ declaration name line))
      post (found (instantiated (c ∷ type) name line) post) quiet
      (match_child-found (c ∷ type) name line post named one) refl quiet'

-- The declaration of the child with its new type, and with the ports on lines of their own.
abbrev pub connected : Instance → List ℕ → List ℕ → List ℕ → List ℕ
connected c name line numbers = joined (
    instantiated ((module_of c).type) name line
    ∷ codes "\t\t"
    ∷ port_string (codes "fault_inputs") numbers
    ∷ codes ",\n\t\t"
    ∷ port_string (codes "fault_outputs") numbers
    ∷ codes ",\n"
    ∷ [])

-- A child that is declared in one place of the text, where `re` finds no other match, and a text for it
-- without a backslash: its declaration gets the type that the child has now, and the ports of its
-- faults behind its first line; the rest of the text stays as it is.
pub connect_child-once :
    (random : ℕ → ℕ → ℕ → ℕ) (sha256 : List ℕ → List ℕ) (escapes : List ℕ → Result (List ℕ))
    (children : Instances) (c : Instance) (numbers before type name line post : List ℕ)
    → find_child name children ≡ some c
    → IsName type
    → IsName name
    → OneLine line
    → Quiet (match_declaration name) (before ++ (type ++ codes " ")) (declaration name line ++ post)
    → Quiet (match_declaration name) post []
    → Quiet (match_child name) before (instantiated type name line ++ post)
    → Quiet (match_child name) post []
    → contains 92 (connected c name line numbers) ≡ false
    → connect_child random sha256 escapes children name numbers
        (before ++ (instantiated type name line ++ post))
      ≡ ok (before ++ (connected c name line numbers ++ post))
unfolding connect_child child_type template
connect_child-once random sha256 escapes children c numbers before type name line post there typed
      named one quiet quiet' apart apart' plain =
    let text = before ++ (instantiated type name line ++ post) in
    let split : text ≡ (before ++ (type ++ codes " ")) ++ (declaration name line ++ post) =
      simp (append_assoc) in
    let declarations : findall (match_declaration name) text
        ≡ found (declaration name line) post ∷ [] =
      ap (findall (match_declaration name)) split
      ∙ findall-declaration (before ++ (type ++ codes " ")) name line post named one quiet quiet' in
    let assembled : joined (
          (module_of c).type
          ∷ codes " "
          ∷ declaration name line
          ∷ codes "\t\t"
          ∷ port_string (codes "fault_inputs") numbers
          ∷ codes ",\n\t\t"
          ∷ port_string (codes "fault_outputs") numbers
          ∷ codes ",\n"
          ∷ [])
        ≡ connected c name line numbers =
      simp (append_assoc, append-nil) in
    rw (there, declarations, assembled, plain)
      (ap (λ (t : List ℕ). ok t)
        (sub-child (connected c name line numbers) before type name line post typed one apart
          apart'))
