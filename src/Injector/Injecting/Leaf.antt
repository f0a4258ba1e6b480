-- ===== src/Injector/Injecting/Leaf.antt =====
-- `inject_faults` of an instance with one fault, in its own module.
use chipyard_fault_injection.Common.{
  ℕ, ◌≡◌, refl, ap, sym, ◌∙◌, Bool, none, some, List, [], ◌∷◌, ◌++◌, append_assoc, Result, ok,
}
use chipyard_fault_injection.Common.Text.{codes}
use chipyard_fault_injection.Injector.Paths.{path_parts, wire_name_parts}
use chipyard_fault_injection.Injector.Paths.Rendered.{IsName}
use chipyard_fault_injection.Injector.Instances.{Instance, Instances, module_instance}
use chipyard_fault_injection.Injector.Scanning.{match_text, before_rest, match_wire}
use chipyard_fault_injection.Injector.Scanning.Quiet.{Quiet, sub_once}
use chipyard_fault_injection.Injector.Scanning.Declared.{IsGap, strip_prefix-append}
use chipyard_fault_injection.Injector.Substitution.{Names}
use chipyard_fault_injection.Injector.Substitution.Once.{declared}
use chipyard_fault_injection.Injector.Substitution.Scalar.{with_fault, inject_fault-scalar}
use chipyard_fault_injection.Injector.Injecting.{
  opened_module, port_lines, fault_io_bounds, add_ports, bus_index, inject_here, inject_path,
  inject_paths, connect_children, change_header, inject_faults,
}

-- The only fault of a module.
abbrev pub only_fault : List ℕ → Names
only_fault wire = record {
  sample_wire = wire;
  fault_input_wire = codes "fault_inputs";
  fault_output_wire = codes "fault_outputs";
}

-- The type of a module whose text has this behind the header, its fault put in.
abbrev pub digested : (List ℕ → List ℕ) → List ℕ → List ℕ → List ℕ
digested sha256 type body = type ++ (codes "_" ++ sha256 (opened_module type ++ body))

-- An instance with one fault.
abbrev pub leaf : List ℕ → List ℕ → List ℕ → List ℕ → Instances → Instance
leaf type text name path children =
    module_instance (record { type = type; module_text = text }) name (path ∷ []) children

-- The lines of its ports.
abbrev pub two_ports : List ℕ
two_ports = codes "\tinput\t\t\tfault_inputs,\n\toutput\t\t\tfault_outputs,\n"

port_lines-one : port_lines 1 ≡ two_ports
unfolding port_lines fault_io_bounds
port_lines-one = refl

match_text-append :
    (p s : List ℕ)
    → match_text p (p ++ s) ≡ some (record { keyword = p; gap = []; bounds = none; rest = s })
unfolding match_text
match_text-append p s = ap (before_rest p) (strip_prefix-append p s)

add_ports-opened :
    (type new_type body : List ℕ) (n : ℕ)
    → Quiet (match_text (opened_module type)) body []
    → add_ports type new_type n (opened_module type ++ body)
      ≡ opened_module new_type ++ (port_lines n ++ body)
unfolding add_ports
add_ports-opened type new_type body n quiet =
    sub_once (match_text (opened_module type)) (opened_module new_type ++ port_lines n) [] b'm'
      (codes "odule " ++ (type ++ codes "(\n")) body
      (record { keyword = opened_module type; gap = []; bounds = none; rest = body }) tt
      (match_text-append (opened_module type) body) refl quiet
    ∙ append_assoc (opened_module new_type) (port_lines n) body

module _ (random : ℕ → ℕ → ℕ → ℕ) (sha256 : List ℕ → List ℕ)
    (escapes : List ℕ → Result (List ℕ)) where
  inject_here-scalar :
      (path wire : List ℕ) (bits : List (List ℕ)) (assigned : Bool) (gap before post : List ℕ)
      → wire_name_parts path ≡ wire ∷ bits
      → IsGap gap
      → IsName wire
      → Quiet (match_wire wire) before (declared assigned gap wire ++ post)
      → Quiet (match_wire wire) post []
      → inject_here random sha256 escapes 1 0 path (before ++ (declared assigned gap wire ++ post))
        ≡ ok (before ++ (with_fault assigned gap (only_fault wire) ++ post))
  unfolding inject_here
  inject_here-scalar path wire bits assigned gap before post parts blank named quiet quiet' =
      rw parts (
        inject_fault-scalar (random 0) (only_fault wire) (bus_index (wire ∷ bits)) assigned gap
          before post blank named quiet quiet')

  inject_paths-only :
      (path own text text' : List ℕ)
      → path_parts path ≡ own ∷ []
      → inject_here random sha256 escapes 1 0 path text ≡ ok text'
      → inject_paths random sha256 escapes 1 0 (path ∷ []) (text, []) ≡ ok (text', [])
  unfolding inject_paths inject_path
  inject_paths-only path own text text' parts here = rw (parts, here)

  inject_faults-only :
      (type body name path own text : List ℕ) (children : Instances)
      → path_parts path ≡ own ∷ []
      → inject_here random sha256 escapes 1 0 path text ≡ ok (opened_module type ++ body)
      → Quiet (match_text (opened_module type)) body []
      → inject_faults random sha256 escapes none (leaf type text name path children)
        ≡ ok (
            leaf
              (digested sha256 type body)
              (opened_module (digested sha256 type body) ++ (port_lines 1 ++ body))
              name
              path
              children)
  unfolding inject_faults connect_children change_header
  inject_faults-only type body name path own text children parts here quiet =
      rw (inject_paths-only path own text (opened_module type ++ body) parts here) (
        ap (λ (t : List ℕ). ok (leaf (digested sha256 type body) t name path children))
          (add_ports-opened type (digested sha256 type body) body 1 quiet))

  -- An instance whose only fault is in its own module, in a wire of one bit that is declared, or
  -- assigned, once, where `re` finds no other match for the wire, and no other header of the module in
  -- the text that results: `inject_faults` puts the two ports of the fault behind the header, drives
  -- the wire by the one and the other by the wire's original value, and leaves the rest of the text
  -- as it is; the type of the module, in its header too, gets the digest of the text with the fault
  -- and without the ports.
  pub inject_faults-leaf :
      (type name path own wire : List ℕ) (bits : List (List ℕ)) (assigned : Bool)
      (gap before post : List ℕ) (children : Instances)
      → path_parts path ≡ own ∷ []
      → wire_name_parts path ≡ wire ∷ bits
      → IsGap gap
      → IsName wire
      → Quiet (match_wire wire) (opened_module type ++ before) (declared assigned gap wire ++ post)
      → Quiet (match_wire wire) post []
      → Quiet
          (match_text (opened_module type))
          (before ++ (with_fault assigned gap (only_fault wire) ++ post))
          []
      → inject_faults random sha256 escapes none (
          leaf type
            (opened_module type ++ (before ++ (declared assigned gap wire ++ post)))
            name
            path
            children)
        ≡ (let body = before ++ (with_fault assigned gap (only_fault wire) ++ post) in
            ok (
              leaf
                (digested sha256 type body)
                (opened_module (digested sha256 type body) ++ (two_ports ++ body))
                name
                path
                children))
  inject_faults-leaf type name path own wire bits assigned gap before post children parts wires
        blank named quiet quiet' headers =
      let body = before ++ (with_fault assigned gap (only_fault wire) ++ post) in
      let here : inject_here random sha256 escapes 1 0 path
            (opened_module type ++ (before ++ (declared assigned gap wire ++ post)))
          ≡ ok (opened_module type ++ body) =
        ap (inject_here random sha256 escapes 1 0 path)
          (sym (append_assoc (opened_module type) before (declared assigned gap wire ++ post)))
        ∙ inject_here-scalar path wire bits assigned gap (opened_module type ++ before) post wires
            blank named quiet quiet'
        ∙ ap (λ (t : List ℕ). ok t)
            (append_assoc (opened_module type) before
              (with_fault assigned gap (only_fault wire) ++ post)) in
      inject_faults-only type body name path own
        (opened_module type ++ (before ++ (declared assigned gap wire ++ post))) children parts here
        headers
      ∙ ap
          (λ (ports : List ℕ). ok (
            leaf (digested sha256 type body)
              (opened_module (digested sha256 type body) ++ (ports ++ body)) name path children))
          port_lines-one
