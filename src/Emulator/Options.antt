-- ===== src/Emulator/Options.antt =====
-- emulator.cc, lines 113 to 274: the options of the program.
pub mod Switch
pub mod Room
pub mod Launching
use chipyard_fault_injection.Common.{
  ℕ, zero, suc, ◌+◌, ◌-◌, ◌%◌, ◌^◌, Bool, true, false, ◌&&◌, ◌||◌, not, Option, none, some, List,
  [], ◌∷◌, ◌++◌, ltb, leb, ◌==◌, if◌then◌else◌, Result, ok, err, ◌>>=◌, out_of_bounds, length,
}
use chipyard_fault_injection.Common.Text.{codes, starts_with, same_text, drop, atoi, atoll}

pub record Options : Type 0 where
  pub max_cycles : ℕ
  pub random_seed : ℕ
  pub rbb_port : ℕ
  pub print_cycles : Bool
  pub verbose : Bool
  pub opterr : Bool
  pub verilog_plusargs_legal : Bool
  pub verilated_argv : List (List ℕ)
  pub vcdfile_name : Option (List ℕ)
  pub start : ℕ

-- What HTIF of fesvr and the generated list of plus-arguments give, whether the build traces, and
-- whether a file opens for writing.
pub record Names : Type 0 where
  pub htif_optind : ℕ
  pub htif_names : List (List ℕ)
  pub verilog_plusargs : List (List ℕ)
  pub vm_trace : Bool
  pub fopen : List ℕ → Bool

-- The calls of `getopt_long`: the value, `optarg` and `optind` after each, up to the value -1.
pub data Script : Type 0 where
  ends : ℕ → Script
  gives : ℕ → List ℕ → ℕ → Script → Script

-- `verilated_argv[verilated_argc++] = arg` in an array of `argc` entries.
unfoldable pub push : ℕ → List ℕ → Options → Result Options
push argc arg o =
    if ltb (length o.verilated_argv) argc
    then ok (record o { verilated_argv = o.verilated_argv ++ arg ∷ [] })
    else err out_of_bounds

-- Line 274, for the arguments from `optind` on.
unfoldable pub copy_rest : ℕ → List (List ℕ) → Options → Result Options
copy_rest argc [] o = ok o
copy_rest argc (arg ∷ args) o = do o ← push argc arg o; copy_rest argc args o

-- The loops over the names: one stands behind the '+'.
unfoldable pub is_named : List (List ℕ) → List ℕ → Bool
is_named [] arg = false
is_named (name ∷ names) arg = starts_with name (drop 1 arg) || is_named names arg

-- How a pass through the switch ends: with `break`, at `done_processing` with its `optind`, with
-- `return`, or at `retry` with a new `c` and `optarg`.
pub data Turn : Type 0 where
  breaks : Options → Turn
  done_processing : ℕ → Options → Turn
  exits : ℕ → Turn
  retry : ℕ → List ℕ → Options → Turn

-- How reading the arguments ends: with the options for the simulation, or with `return`.
-- `unsettled` stands for a `goto retry` that is left.
pub data Launch : Type 0 where
  launches : Options → Launch
  returns_early : ℕ → Launch
  unsettled : Launch

-- Lines 113 to 130, where `seed` comes from the time and the process.
abbrev pub defaults : ℕ → List ℕ → Options
defaults seed program = record {
  max_cycles = 2 ^ 64 - 1;
  random_seed = seed;
  rbb_port = 0;
  print_cycles = false;
  verbose = false;
  opterr = true;
  verilog_plusargs_legal = true;
  verilated_argv = program ∷ [];
  vcdfile_name = none;
  start = 0;
}

module _ (names : Names) (argc : ℕ) where
  -- `case 1`: an argument that is no option.
  unfoldable pub plain_argument : List ℕ → ℕ → Options → Result Turn
  plain_argument arg optind o =
      if not (starts_with (codes "+") arg)
      then ok (done_processing (optind - 1) o)
      else if same_text (codes "+verbose") arg
      then ok (retry b'V' arg o)
      else if starts_with (codes "+max-cycles=") arg
      then ok (retry b'm' (drop 12 arg) o)
      else if names.vm_trace && starts_with (codes "+dump-start=") arg
      then ok (retry b'x' (drop 12 arg) o)
      else if starts_with (codes "+cycle-count") arg
      then ok (retry b'c' arg o)
      else if same_text (codes "+permissive") arg
      then (do o ← push argc arg o; ok (retry b'p' arg o))
      else if same_text (codes "+permissive-off") arg
      then (do o ← push argc arg o; ok (retry b'o' arg o))
      else if o.verilog_plusargs_legal
      then (if is_named names.verilog_plusargs arg
          then ok (retry b'P' arg o)
          else ok (retry 1 arg (record o { verilog_plusargs_legal = false })))
      else if is_named names.htif_names arg
      then ok (done_processing (optind - 1) o)
      else if o.opterr
      then ok (retry b'?' arg o)
      else ok (retry b'P' arg o)

  -- The cases of the build that traces, 'v' and 'x'.
  unfoldable pub trace_option : ℕ → List ℕ → Options → Result Turn
  trace_option c optarg o =
      if c == b'x'
      then (do cycle ← atoll optarg; ok (breaks (record o { start = cycle })))
      else if same_text (codes "-") optarg || names.fopen optarg
      then ok (breaks (record o { vcdfile_name = some optarg }))
      else ok (exits 1)

  -- The switch.
  unfoldable pub switch : ℕ → List ℕ → ℕ → Options → Result Turn
  switch c optarg optind o =
      if c == b'?'
      then ok (exits 1)
      else if c == b'c'
      then ok (breaks (record o { print_cycles = true }))
      else if c == b'h'
      then ok (exits 0)
      else if c == b'm'
      then (do cycles ← atoll optarg; ok (breaks (record o { max_cycles = cycles })))
      else if c == b's'
      then (do seed ← atoi optarg; ok (breaks (record o { random_seed = seed })))
      else if c == b'r'
      then (do port ← atoi optarg; ok (breaks (record o { rbb_port = port % 2 ^ 16 })))
      else if c == b'V'
      then ok (breaks (record o { verbose = true }))
      else if c == b'p'
      then ok (breaks (record o { opterr = false }))
      else if c == b'o'
      then ok (breaks (record o { opterr = true }))
      else if (c == b'v' || c == b'x') && names.vm_trace
      then trace_option c optarg o
      else if c == 1
      then plain_argument optarg optind o
      else if c == b'P'
      then (do o ← push argc optarg o; ok (breaks o))
      else if leb names.htif_optind c
      then ok (done_processing (optind - 1) o)
      else ok (retry b'?' optarg o)

  -- The switch again after each `goto retry`, on fuel; a value without a `retry` ends it.
  unfoldable pub settle : ℕ → Turn → ℕ → Result (Option Turn)
  settle fuel (breaks o) optind = ok (some (breaks o))
  settle fuel (done_processing n o) optind = ok (some (done_processing n o))
  settle fuel (exits n) optind = ok (some (exits n))
  settle zero (retry c optarg o) optind = ok none
  settle (suc fuel) (retry c optarg o) optind = do
    turn ← switch c optarg optind o
    settle fuel turn optind

  -- The loop from line 132. A `retry` needs at most three passes.
  unfoldable pub after : Option Turn → (Options → Result (Option Turn)) → Result (Option Turn)
  after (some (breaks o)) rest = rest o
  after turn rest = ok turn

  unfoldable pub read_options : Script → Options → Result (Option Turn)
  read_options (ends optind) o = ok (some (done_processing optind o))
  read_options (gives c optarg optind script) o = do
    turn ← settle 3 (retry c optarg o) optind
    after turn (λ (o : Options). read_options script o)

  -- Lines 266 to 274.
  unfoldable pub collect : List (List ℕ) → ℕ → Options → Result Launch
  collect argv optind o =
      if optind == argc
      then ok (returns_early 1)
      else (do o ← copy_rest argc (drop optind argv) o; ok (launches o))

  unfoldable pub finish : List (List ℕ) → Option Turn → Result Launch
  finish argv (some (done_processing optind o)) = collect argv optind o
  finish argv (some (exits n)) = ok (returns_early n)
  finish argv turn = ok unsettled

  unfoldable pub read_arguments : List (List ℕ) → Script → Options → Result Launch
  read_arguments argv script o = do turn ← read_options script o; finish argv turn
