-- ===== src/Emulator/Options/Switch.antt =====
-- Every argument is settled after at most three passes through the switch.
use chipyard_fault_injection.Common.{
  if-elim, ℕ, zero, suc, ◌≤◌, ◌<◌, ◌&&◌, ◌||◌, not, Option, none, some, List, [], ◌∷◌, ◌++◌, ltb,
  ◌==◌, if◌then◌else◌, Result, ok, err, ◌>>=◌, arith, length,
}
use chipyard_fault_injection.Common.Text.{codes, starts_with, same_text}
use chipyard_fault_injection.Emulator.Options.{
  Options, Names, Turn, breaks, done_processing, exits, retry, push, is_named, plain_argument,
  trace_option, switch, settle,
}

-- The passes that a `retry` may still take.
abbrev pub passes : Names → Turn → ℕ
passes names (breaks o) = 0
passes names (done_processing n o) = 0
passes names (exits n) = 0
passes names (retry c optarg o) =
    if c == 1
    then (if o.verilog_plusargs_legal then 3 else 2)
    else if (c == b'v' || c == b'x') && names.vm_trace
    then 1
    else if c == b'?'
        || (c == b'P' || (c == b'V' || (c == b'm' || (c == b'c' || (c == b'p' || c == b'o')))))
    then 1
    else 2

-- A pass that faults, or leaves fewer than `n` passes.
abbrev pub Fewer : Names → ℕ → Result Turn → Type 0
Fewer names n (err fault) = Unit {0}
Fewer names n (ok turn) = passes names turn < n

Fewer-push :
    (names : Names) (n argc c : ℕ) (arg : List ℕ) (o : Options)
    → ((o' : Options) → passes names (retry c arg o') < n)
    → Fewer names n (push argc arg o >>= (λ (o' : Options). ok (retry c arg o')))
unfolding push
Fewer-push names n argc c arg o below =
    if-elim (λ (r : Result Options). Fewer names n (r >>= (λ (o' : Options). ok (retry c arg o'))))
      (ltb (length o.verilated_argv) argc)
      (λ e. below (record o { verilated_argv = o.verilated_argv ++ arg ∷ [] })) (λ e. tt)

-- A fault, or an end that is no `retry`.
abbrev pub IsSettled : Result (Option Turn) → Type 0
IsSettled (err fault) = Unit {0}
IsSettled (ok none) = ⊥
IsSettled (ok (some (retry c arg o))) = ⊥
IsSettled (ok (some turn)) = Unit {0}

IsSettled-bind :
    (names : Names) (n : ℕ) (r : Result Turn) (f : Turn → Result (Option Turn))
    → Fewer names n r
    → ((t : Turn) → passes names t < n → IsSettled (f t))
    → IsSettled (r >>= f)
IsSettled-bind names n (err fault) f below settled = tt
IsSettled-bind names n (ok turn) f below settled = settled turn below

module _ (names : Names) (argc : ℕ) where
  plain_argument-Fewer :
      (arg : List ℕ) (optind : ℕ) (o : Options)
      → Fewer names
          (if o.verilog_plusargs_legal then 3 else 2)
          (plain_argument names argc arg optind o)
  unfolding plain_argument
  plain_argument-Fewer arg optind o =
      let n : ℕ = if o.verilog_plusargs_legal then 3 else 2 in
      let two : 1 < n = ground arith in
      if-elim (Fewer names n) (not (starts_with (codes "+") arg)) (λ e. omega (arith, two))
        (λ e.
          if-elim (Fewer names n) (same_text (codes "+verbose") arg) (λ e. omega (arith, two))
            (λ e.
              if-elim (Fewer names n) (starts_with (codes "+max-cycles=") arg)
                (λ e. omega (arith, two))
                (λ e.
                  if-elim (Fewer names n) (names.vm_trace && starts_with (codes "+dump-start=") arg)
                    (λ e. ground (arith, two, e))
                    (λ e.
                      if-elim (Fewer names n) (starts_with (codes "+cycle-count") arg)
                        (λ e. omega (arith, two))
                        (λ e.
                          if-elim (Fewer names n) (same_text (codes "+permissive") arg)
                            (λ e. Fewer-push names n argc b'p' arg o (λ o'. omega (arith, two)))
                            (λ e.
                              if-elim (Fewer names n) (same_text (codes "+permissive-off") arg)
                                (λ e. Fewer-push names n argc b'o' arg o (λ o'. omega (arith, two)))
                                (λ e.
                                  if-elim (Fewer names n) o.verilog_plusargs_legal
                                    (λ legal.
                                      if-elim (Fewer names n) (is_named names.verilog_plusargs arg)
                                        (λ e. omega (arith, two)) (λ e. ground (arith, legal)))
                                    (λ legal.
                                      if-elim (Fewer names n) (is_named names.htif_names arg)
                                        (λ e. omega (arith, two))
                                        (λ e.
                                          if-elim (Fewer names n) o.opterr (λ e. omega (arith, two))
                                            (λ e. omega (arith, two)))))))))))

  trace_option-Fewer :
      (c : ℕ) (arg : List ℕ) (o : Options)
      → Fewer names (passes names (retry c arg o)) (trace_option names argc c arg o)
  unfolding trace_option
  trace_option-Fewer c arg o = ground arith

  pub switch-Fewer :
      (c : ℕ) (arg : List ℕ) (optind : ℕ) (o : Options)
      → Fewer names (passes names (retry c arg o)) (switch names argc c arg optind o)
  unfolding switch
  switch-Fewer c arg optind o =
      ground (arith, plain_argument-Fewer arg optind o, trace_option-Fewer c arg o)

  settle-IsSettled :
      (fuel : ℕ) (turn : Turn) (optind : ℕ)
      → passes names turn ≤ fuel
      → IsSettled (settle names argc fuel turn optind)
  unfolding settle
  settle-IsSettled fuel (breaks o) optind le = tt
  settle-IsSettled fuel (done_processing n o) optind le = tt
  settle-IsSettled fuel (exits n) optind le = tt
  settle-IsSettled zero (retry c arg o) optind le = absurd (ground arith)
  settle-IsSettled (suc fuel) (retry c arg o) optind le =
      IsSettled-bind names (passes names (retry c arg o)) (switch names argc c arg optind o)
        (λ (turn : Turn). settle names argc fuel turn optind) (switch-Fewer c arg optind o)
        (λ turn below. settle-IsSettled fuel turn optind (omega arith))

  -- Whatever `getopt_long` returned and whatever came before, three passes through the switch settle
  -- an argument: no `goto retry` is left.
  pub settle_lem :
      (c : ℕ) (arg : List ℕ) (optind : ℕ) (o : Options)
      → IsSettled (settle names argc 3 (retry c arg o) optind)
  settle_lem c arg optind o = settle-IsSettled 3 (retry c arg o) optind (ground arith)
