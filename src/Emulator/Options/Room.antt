-- ===== src/Emulator/Options/Room.antt =====
-- `verilated_argv` has `argc` entries: it never overflows.
use chipyard_fault_injection.Common.{
  ◌%◌, ◌^◌, Ends, Ends-bind, if-elim, ℕ, suc, ◌+◌, ◌≤◌, ◌<◌, ◌≡◌, ◌&&◌, ◌||◌, not, List, [], ◌∷◌,
  leb, ◌==◌, if◌then◌else◌, Fault, Result, ok, err, ◌>>=◌, int_overflow, arith, length,
  length-append, lt→ltb,
}
use chipyard_fault_injection.Common.Text.{
  codes, starts_with, same_text, signed_decimal, skip_spaces,
}
use chipyard_fault_injection.Emulator.Options.{
  Options, Names, Turn, breaks, done_processing, exits, retry, push, is_named, plain_argument,
  switch, trace_option,
}
use chipyard_fault_injection.Emulator.Options.Switch.{passes, Fewer}

-- `atoi` and `atoll` are undefined on a number that does not fit.
abbrev pub OnlyIntOverflow : Fault → Type 0
OnlyIntOverflow int_overflow = Unit {0}
OnlyIntOverflow fault = ⊥

-- A value with the property, or the overflow of a number.
abbrev pub Safe {ℓ} : {A : Type ℓ} → (A → Type 0) → Result A → Type 0
Safe P r = Ends OnlyIntOverflow P r

push-Safe :
    (argc n : ℕ) (arg : List ℕ) (o : Options)
    → length o.verilated_argv ≤ n
    → n < argc
    → Safe (λ (o' : Options). length o'.verilated_argv ≤ suc n) (push argc arg o)
unfolding push
push-Safe argc n arg o le lt =
    rw (lt→ltb (length o.verilated_argv) argc (omega arith))
      (omega (arith, length-append o.verilated_argv (arg ∷ [])))

decimal-Safe : (w : ℕ) (s : List ℕ) → Safe (λ (v : ℕ). Unit {0}) (signed_decimal w s)
decimal-Safe w [] = tt
decimal-Safe w (c ∷ s) = ground arith

pub Fewer-Safe :
    (names : Names) (P : Turn → Type 0) (n : ℕ) (r : Result Turn)
    → Fewer names n r
    → Safe P r
    → Safe (λ t. P t × (passes names t < n)) r
Fewer-Safe names P n (err fault) below safe = safe
Fewer-Safe names P n (ok turn) below safe = (safe, below)

module _ (names : Names) (argc : ℕ) where
  -- A value of `getopt_long` that may take an entry or give the argument back.
  abbrev pub takes_entry : ℕ → ℕ
  takes_entry c = if c == 1 || (c == b'P' || leb names.htif_optind c) then 1 else 0

  abbrev pub Fits : ℕ → Turn → Type 0
  Fits optind (breaks o) = length o.verilated_argv ≤ optind
  Fits optind (done_processing n o) = (length o.verilated_argv ≤ n) × (n ≤ argc)
  Fits optind (exits n) = Unit {0}
  Fits optind (retry c arg o) = length o.verilated_argv + takes_entry c ≤ optind

  push_retry-Safe :
      (optind c : ℕ) (arg : List ℕ) (o : Options)
      → length o.verilated_argv + 1 ≤ optind
      → optind ≤ argc
      → takes_entry c ≡ 0
      → Safe (Fits optind) (push argc arg o >>= (λ (o' : Options). ok (retry c arg o')))
  push_retry-Safe optind c arg o room le quiet =
      Ends-bind OnlyIntOverflow
        (λ (o' : Options). length o'.verilated_argv ≤ suc (length o.verilated_argv)) (Fits optind)
        (push argc arg o) (λ (o' : Options). ok (retry c arg o'))
        (push-Safe argc (length o.verilated_argv) arg o (omega arith) (omega arith))
        (λ o' small. omega (arith, quiet))

  number-Safe :
      (w optind : ℕ) (arg : List ℕ) (f : ℕ → Options)
      → ((v : ℕ) → length (f v).verilated_argv ≤ optind)
      → Safe (Fits optind) (signed_decimal w (skip_spaces arg) >>= (λ (v : ℕ). ok (breaks (f v))))
  number-Safe w optind arg f small =
      Ends-bind OnlyIntOverflow (λ (v : ℕ). Unit {0}) (Fits optind)
        (signed_decimal w (skip_spaces arg)) (λ (v : ℕ). ok (breaks (f v)))
        (decimal-Safe w (skip_spaces arg)) (λ v u. small v)

  trace_option-Safe :
      (c : ℕ) (arg : List ℕ) (optind : ℕ) (o : Options)
      → length o.verilated_argv ≤ optind
      → Safe (Fits optind) (trace_option names argc c arg o)
  unfolding trace_option
  trace_option-Safe c arg optind o small =
      ground (arith, number-Safe 64 optind arg (λ (v : ℕ). record o { start = v }) (λ v. small))

  push_breaks-Safe :
      (optind : ℕ) (arg : List ℕ) (o : Options)
      → length o.verilated_argv + 1 ≤ optind
      → optind ≤ argc
      → Safe (Fits optind) (push argc arg o >>= (λ (o' : Options). ok (breaks o')))
  push_breaks-Safe optind arg o room le =
      Ends-bind OnlyIntOverflow
        (λ (o' : Options). length o'.verilated_argv ≤ suc (length o.verilated_argv)) (Fits optind)
        (push argc arg o) (λ (o' : Options). ok (breaks o'))
        (push-Safe argc (length o.verilated_argv) arg o (omega arith) (omega arith))
        (λ o' grown. omega (arith, grown))

  -- The values of HTIF's long options lie above every character.
  module _ (wide : 255 < names.htif_optind) where
    plain_argument-Safe :
        (arg : List ℕ) (optind : ℕ) (o : Options)
        → length o.verilated_argv + 1 ≤ optind
        → optind ≤ argc
        → Safe (Fits optind) (plain_argument names argc arg optind o)
    unfolding plain_argument
    plain_argument-Safe arg optind o room le =
        if-elim (Safe (Fits optind)) (not (starts_with (codes "+") arg)) (λ e. omega arith)
          (λ e.
            if-elim (Safe (Fits optind)) (same_text (codes "+verbose") arg) (λ e. ground arith)
              (λ e.
                if-elim (Safe (Fits optind)) (starts_with (codes "+max-cycles=") arg)
                  (λ e. ground arith)
                  (λ e.
                    if-elim (Safe (Fits optind))
                      (names.vm_trace && starts_with (codes "+dump-start=") arg) (λ e. ground arith)
                      (λ e.
                        if-elim (Safe (Fits optind)) (starts_with (codes "+cycle-count") arg)
                          (λ e. ground arith)
                          (λ e.
                            if-elim (Safe (Fits optind)) (same_text (codes "+permissive") arg)
                              (λ e. push_retry-Safe optind b'p' arg o room le (ground arith))
                              (λ e.
                                if-elim (Safe (Fits optind))
                                  (same_text (codes "+permissive-off") arg)
                                  (λ e. push_retry-Safe optind b'o' arg o room le (ground arith))
                                  (λ e.
                                    if-elim (Safe (Fits optind)) o.verilog_plusargs_legal
                                      (λ legal.
                                        if-elim (Safe (Fits optind))
                                          (is_named names.verilog_plusargs arg) (λ e. ground arith)
                                          (λ e. ground arith))
                                      (λ legal.
                                        if-elim (Safe (Fits optind)) (is_named names.htif_names arg)
                                          (λ e. omega arith)
                                          (λ e.
                                            if-elim (Safe (Fits optind)) o.opterr
                                              (λ e. ground arith) (λ e. ground arith))))))))))

    pub switch-Safe :
        (c : ℕ) (arg : List ℕ) (optind : ℕ) (o : Options)
        → length o.verilated_argv + takes_entry c ≤ optind
        → optind ≤ argc
        → Safe (Fits optind) (switch names argc c arg optind o)
    unfolding switch
    switch-Safe c arg optind o room le =
        let small : length o.verilated_argv ≤ optind = omega (arith, room) in
        ground (
          arith,
          room,
          small,
          plain_argument-Safe arg optind o,
          number-Safe 64 optind arg (λ (v : ℕ). record o { max_cycles = v }) (λ v. small),
          trace_option-Safe c arg optind o small,
          number-Safe 32 optind arg (λ (v : ℕ). record o { random_seed = v }) (λ v. small),
          number-Safe 32 optind arg (λ (v : ℕ). record o { rbb_port = v % 2 ^ 16 }) (λ v. small),
          push_breaks-Safe optind arg o,
        )
