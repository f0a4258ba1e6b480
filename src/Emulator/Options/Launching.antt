-- ===== src/Emulator/Options/Launching.antt =====
-- The options and the arguments that the simulation starts with.
use chipyard_fault_injection.Common.{
  Ends-bind, if-elim, ℕ, zero, suc, ◌+◌, ◌≤◌, ◌<◌, ◌≡◌, refl, Option, none, some, List, [], ◌∷◌,
  ◌++◌, ◌==◌, Result, ok, arith, length, length-append, append-nil, append_assoc, ◌∙◌, lt→ltb,
}
use chipyard_fault_injection.Common.Text.{drop}
use chipyard_fault_injection.Emulator.Options.{
  Options, Names, Script, ends, gives, Turn, breaks, done_processing, exits, retry, push, switch,
  settle, after, read_options, copy_rest, collect, finish, read_arguments, Launch, launches,
  returns_early, unsettled, defaults,
}
use chipyard_fault_injection.Emulator.Options.Switch.{passes, switch-Fewer}
use chipyard_fault_injection.Emulator.Options.Room.{
  OnlyIntOverflow, Safe, Fewer-Safe, takes_entry, Fits, switch-Safe,
}

copy_rest-push :
    (argc : ℕ) (arg : List ℕ) (args : List (List ℕ)) (o : Options)
    → length o.verilated_argv < argc
    → copy_rest argc (arg ∷ args) o
      ≡ copy_rest argc args (record o { verilated_argv = o.verilated_argv ++ arg ∷ [] })
unfolding copy_rest push
copy_rest-push argc arg args o lt = rw (lt→ltb (length o.verilated_argv) argc lt)

-- The arguments that are left are added at the end, in order.
copy_rest_lem :
    (argc : ℕ) (args : List (List ℕ)) (o : Options)
    → length o.verilated_argv + length args ≤ argc
    → copy_rest argc args o ≡ ok (record o { verilated_argv = o.verilated_argv ++ args })
unfolding copy_rest
copy_rest_lem argc [] o le = rw (append-nil)
copy_rest_lem argc (arg ∷ args) o le =
    copy_rest-push argc arg args o (omega arith)
    ∙ copy_rest_lem argc args (record o { verilated_argv = o.verilated_argv ++ arg ∷ [] })
        (omega (arith, length-append o.verilated_argv (arg ∷ [])))
    ∙ rw (append_assoc)

length-drop :
    (n : ℕ) (args : List (List ℕ)) → n ≤ length args → length (drop n args) + n ≡ length args
length-drop zero args le = omega arith
length-drop (suc n) [] le = absurd (omega arith)
length-drop (suc n) (a ∷ args) le = omega (arith, length-drop n args (omega arith))

module _ (names : Names) (argc : ℕ) where
  module _ (wide : 255 < names.htif_optind) where
    -- What settling an argument, and what reading them all, comes to.
    abbrev Settled : ℕ → Option Turn → Type 0
    Settled optind none = ⊥
    Settled optind (some (retry c arg o)) = ⊥
    Settled optind (some turn) = Fits names argc optind turn

    abbrev Reached : Option Turn → Type 0
    Reached (some (done_processing n o)) = (length o.verilated_argv ≤ n) × (n ≤ argc)
    Reached (some (exits n)) = Unit {0}
    Reached turn = ⊥

    settle-Safe :
        (fuel : ℕ) (turn : Turn) (optind : ℕ)
        → optind ≤ argc
        → Fits names argc optind turn
        → passes names turn ≤ fuel
        → Safe (Settled optind) (settle names argc fuel turn optind)
    unfolding settle
    settle-Safe fuel (breaks o) optind le fits few = fits
    settle-Safe fuel (done_processing n o) optind le fits few = fits
    settle-Safe fuel (exits n) optind le fits few = tt
    settle-Safe zero (retry c arg o) optind le fits few = absurd (ground arith)
    settle-Safe (suc fuel) (retry c arg o) optind le fits few =
        Ends-bind OnlyIntOverflow
          (λ (t : Turn). Fits names argc optind t × (passes names t < passes names (retry c arg o)))
          (Settled optind) (switch names argc c arg optind o)
          (λ (t : Turn). settle names argc fuel t optind)
          (Fewer-Safe names (Fits names argc optind) (passes names (retry c arg o))
            (switch names argc c arg optind o) (switch-Fewer names argc c arg optind o)
            (switch-Safe names argc wide c arg optind o fits le))
          (λ t both. settle-Safe fuel t optind le both.0 (omega (arith, both.1)))

    -- What `getopt_long` documents of `optind`: it grows, by at least one for an argument that is no
    -- option or a long option, and stays within `argc`.
    abbrev pub Documented : ℕ → Script → Type 0
    Documented before (ends optind) = (before ≤ optind) × (optind ≤ argc)
    Documented before (gives c arg optind script) =
        (before + takes_entry names argc c ≤ optind) × (optind ≤ argc) × Documented optind script

    after-Safe :
        (optind : ℕ) (turn : Option Turn) (rest : Options → Result (Option Turn))
        → optind ≤ argc
        → Settled optind turn
        → ((o : Options) → length o.verilated_argv ≤ optind → Safe Reached (rest o))
        → Safe Reached (after names argc turn rest)
    unfolding after
    after-Safe optind none rest le settled go = absurd settled
    after-Safe optind (some (breaks o)) rest le settled go = go o settled
    after-Safe optind (some (done_processing n o)) rest le settled go = settled
    after-Safe optind (some (exits n)) rest le settled go = tt
    after-Safe optind (some (retry c arg o)) rest le settled go = absurd settled

    read_options-Safe :
        (script : Script) (before : ℕ) (o : Options)
        → Documented before script
        → length o.verilated_argv ≤ before
        → Safe Reached (read_options names argc script o)
    unfolding read_options
    read_options-Safe (ends optind) before o doc small = omega (arith, doc)
    read_options-Safe (gives c arg optind script) before o doc small =
        Ends-bind OnlyIntOverflow (Settled optind) Reached
          (settle names argc 3 (retry c arg o) optind)
          (λ (t : Option Turn).
            after names argc t (λ (o : Options). read_options names argc script o))
          (settle-Safe 3 (retry c arg o) optind doc.1 (omega (arith, doc)) (ground arith))
          (λ t settled.
            after-Safe optind t (λ (o : Options). read_options names argc script o) doc.1 settled
              (λ o' small'. read_options-Safe script optind o' doc.2 small'))

    -- The simulation's arguments fit their array and end with those from some index on, the first of
    -- which is the binary.
    abbrev pub Launched : List (List ℕ) → Launch → Type 0
    Launched argv (launches o) =
        (optind : ℕ) × (before : List (List ℕ)) × (optind < argc)
        × (o.verilated_argv ≡ before ++ drop optind argv)
        × (length o.verilated_argv ≤ argc)
    Launched argv (returns_early n) = Unit {0}
    Launched argv unsettled = ⊥

    collect-Safe :
        (argv : List (List ℕ)) (optind : ℕ) (o : Options)
        → length argv ≡ argc
        → length o.verilated_argv ≤ optind
        → optind ≤ argc
        → Safe (Launched argv) (collect names argc argv optind o)
    unfolding collect
    collect-Safe argv optind o whole small le =
        if-elim (Safe (Launched argv)) (optind == argc) (λ e. tt)
          (λ ne.
            let fits = length-drop optind argv (omega (arith, whole)) in
            rw (copy_rest_lem argc (drop optind argv) o (omega (arith, fits, whole))) (
              optind,
              o.verilated_argv,
              ground (arith, ne),
              refl,
              omega (arith, length-append o.verilated_argv (drop optind argv), fits, whole),
            ))

    finish-Safe :
        (argv : List (List ℕ)) (turn : Option Turn)
        → length argv ≡ argc
        → Reached turn
        → Safe (Launched argv) (finish names argc argv turn)
    unfolding finish
    finish-Safe argv none whole reached = absurd reached
    finish-Safe argv (some (breaks o)) whole reached = absurd reached
    finish-Safe argv (some (done_processing n o)) whole reached =
        collect-Safe argv n o whole reached.0 reached.1
    finish-Safe argv (some (exits n)) whole reached = tt
    finish-Safe argv (some (retry c arg o)) whole reached = absurd reached

    -- With values of HTIF's long options above 255, and `argc` arguments, and if `getopt_long` moves
    -- `optind` as documented: reading the arguments ends without a `goto retry` that is left, and with
    -- no fault but a number that overflows `atoi` or `atoll`, so without a write beyond the `argc`
    -- entries of `verilated_argv`. Where the simulation starts, its arguments end with those from an
    -- index below `argc` on, in order, and have at most `argc` entries.
    pub read_arguments_lem :
        (seed : ℕ) (program : List ℕ) (args : List (List ℕ)) (script : Script)
        → suc (length args) ≡ argc
        → Documented 1 script
        → Safe
            (Launched (program ∷ args))
            (read_arguments names argc (program ∷ args) script (defaults seed program))
    unfolding read_arguments
    read_arguments_lem seed program args script whole doc =
        Ends-bind OnlyIntOverflow Reached (Launched (program ∷ args))
          (read_options names argc script (defaults seed program))
          (λ (t : Option Turn). finish names argc (program ∷ args) t)
          (read_options-Safe script 1 (defaults seed program) doc (omega arith))
          (λ t reached. finish-Safe (program ∷ args) t whole reached)
