-- ===== src/Emulator/Capped.antt =====
-- The cycles that the options allow: a number of 64 bits, whatever the command line.
use chipyard_fault_injection.Common.{
  ℕ, zero, suc, ◌%◌, ◌^◌, ◌<◌, not, Option, none, some, List, [], ◌∷◌, ◌==◌, ◌&&◌, if-both, Result,
  ok, ◌>>=◌, Ends-bind, AnyFault, Gives, Any, Any-Gives, arith,
}
use chipyard_fault_injection.Common.Text.{
  codes, starts_with, same_text, drop, atoi, atoll, signed_decimal, skip_spaces,
}
use chipyard_fault_injection.Emulator.Options.{
  Options, Names, Script, ends, gives, Turn, breaks, done_processing, exits, retry, push, is_named,
  plain_argument, trace_option, switch, settle, after, read_options, copy_rest, collect, finish,
  read_arguments, Launch, launches, returns_early, unsettled,
}

abbrev pub Capped : Options → Type 0
Capped o = o.max_cycles < 2 ^ 64

abbrev pub TurnCapped : Turn → Type 0
TurnCapped (breaks o) = Capped o
TurnCapped (done_processing n o) = Capped o
TurnCapped (exits n) = Unit {0}
TurnCapped (retry c arg o) = Capped o

abbrev pub MayCapped : Option Turn → Type 0
MayCapped none = Unit {0}
MayCapped (some turn) = TurnCapped turn

abbrev pub LaunchCapped : Launch → Type 0
LaunchCapped (launches o) = Capped o
LaunchCapped (returns_early n) = Unit {0}
LaunchCapped unsettled = Unit {0}

signed_decimal-Gives : (s : List ℕ) → Gives (λ v. v < 2 ^ 64) (signed_decimal 64 s)
signed_decimal-Gives [] = omega arith
signed_decimal-Gives (c ∷ s) = ground arith

push-Capped : (argc : ℕ) (arg : List ℕ) (o : Options) → Capped o → Gives Capped (push argc arg o)
unfolding push
push-Capped argc arg o h = ground arith

push_then-Capped :
    (argc : ℕ) (arg : List ℕ) (o : Options) (f : Options → Turn)
    → ((o' : Options) → Capped o' → TurnCapped (f o'))
    → Capped o
    → Gives TurnCapped (push argc arg o >>= (λ (o' : Options). ok (f o')))
push_then-Capped argc arg o f keeps h =
    Ends-bind AnyFault Capped TurnCapped (push argc arg o) (λ (o' : Options). ok (f o'))
      (push-Capped argc arg o h) keeps

module _ (names : Names) (argc : ℕ) where
  plain_argument-Capped :
      (arg : List ℕ) (optind : ℕ) (o : Options)
      → Capped o
      → Gives TurnCapped (plain_argument names argc arg optind o)
  unfolding plain_argument
  plain_argument-Capped arg optind o h =
      let P : Result Turn → Type 0 = Gives TurnCapped in
      if-both P (not (starts_with (codes "+") arg)) h (
        if-both P (same_text (codes "+verbose") arg) h (
          if-both P (starts_with (codes "+max-cycles=") arg) h (
            if-both P (names.vm_trace && starts_with (codes "+dump-start=") arg) h (
              if-both P (starts_with (codes "+cycle-count") arg) h (
                if-both P (same_text (codes "+permissive") arg)
                  (push_then-Capped argc arg o (retry b'p' arg) (λ o' k. k) h)
                  (if-both P (same_text (codes "+permissive-off") arg)
                    (push_then-Capped argc arg o (retry b'o' arg) (λ o' k. k) h)
                    (if-both P o.verilog_plusargs_legal
                      (if-both P (is_named names.verilog_plusargs arg) h h)
                      (if-both P (is_named names.htif_names arg) h (if-both P o.opterr h h)))))))))

  trace_option-Capped :
      (c : ℕ) (arg : List ℕ) (o : Options)
      → Capped o
      → Gives TurnCapped (trace_option names argc c arg o)
  unfolding trace_option
  trace_option-Capped c arg o h = ground (
    arith,
    Ends-bind AnyFault Any TurnCapped (atoll arg) (λ (v : ℕ). ok (breaks (record o { start = v })))
        (Any-Gives (atoll arg)) (λ v u. h),
  )

  switch-Capped :
      (c : ℕ) (arg : List ℕ) (optind : ℕ) (o : Options)
      → Capped o
      → Gives TurnCapped (switch names argc c arg optind o)
  unfolding switch
  switch-Capped c arg optind o h = ground (
    arith,
    plain_argument-Capped arg optind o h,
    trace_option-Capped c arg o h,
    push_then-Capped argc arg o breaks (λ o' k. k) h,
    Ends-bind AnyFault (λ v. v < 2 ^ 64) TurnCapped (atoll arg)
        (λ (v : ℕ). ok (breaks (record o { max_cycles = v })))
        (signed_decimal-Gives (skip_spaces arg)) (λ v k. k),
    Ends-bind AnyFault Any TurnCapped (atoi arg)
        (λ (v : ℕ). ok (breaks (record o { random_seed = v }))) (Any-Gives (atoi arg)) (λ v u. h),
    Ends-bind AnyFault Any TurnCapped (atoi arg)
        (λ (v : ℕ). ok (breaks (record o { rbb_port = v % 2 ^ 16 }))) (Any-Gives (atoi arg))
        (λ v u. h),
  )

  settle-Capped :
      (fuel : ℕ) (turn : Turn) (optind : ℕ)
      → TurnCapped turn
      → Gives (λ (t : Option Turn). MayCapped t) (settle names argc fuel turn optind)
  unfolding settle
  settle-Capped fuel (breaks o) optind h = h
  settle-Capped fuel (done_processing n o) optind h = h
  settle-Capped fuel (exits n) optind h = tt
  settle-Capped zero (retry c arg o) optind h = tt
  settle-Capped (suc fuel) (retry c arg o) optind h =
      Ends-bind AnyFault TurnCapped MayCapped (switch names argc c arg optind o)
        (λ (t : Turn). settle names argc fuel t optind) (switch-Capped c arg optind o h)
        (λ t k. settle-Capped fuel t optind k)

  after-Capped :
      (turn : Option Turn) (rest : Options → Result (Option Turn))
      → MayCapped turn
      → ((o : Options) → Capped o → Gives MayCapped (rest o))
      → Gives MayCapped (after names argc turn rest)
  unfolding after
  after-Capped none rest h go = tt
  after-Capped (some (breaks o)) rest h go = go o h
  after-Capped (some (done_processing n o)) rest h go = h
  after-Capped (some (exits n)) rest h go = tt
  after-Capped (some (retry c arg o)) rest h go = h

  read_options-Capped :
      (script : Script) (o : Options)
      → Capped o
      → Gives MayCapped (read_options names argc script o)
  unfolding read_options
  read_options-Capped (ends optind) o h = h
  read_options-Capped (gives c arg optind script) o h =
      Ends-bind AnyFault MayCapped MayCapped (settle names argc 3 (retry c arg o) optind)
        (λ (t : Option Turn).
          after names argc t (λ (o : Options). read_options names argc script o))
        (settle-Capped 3 (retry c arg o) optind h)
        (λ t k.
          after-Capped t (λ (o : Options). read_options names argc script o) k
            (λ o' k'. read_options-Capped script o' k'))

  copy_rest-Capped :
      (args : List (List ℕ)) (o : Options) → Capped o → Gives Capped (copy_rest argc args o)
  unfolding copy_rest
  copy_rest-Capped [] o h = h
  copy_rest-Capped (arg ∷ args) o h =
      Ends-bind AnyFault Capped Capped (push argc arg o) (λ (o' : Options). copy_rest argc args o')
        (push-Capped argc arg o h) (λ o' k. copy_rest-Capped args o' k)

  finish-Capped :
      (argv : List (List ℕ)) (turn : Option Turn)
      → MayCapped turn
      → Gives LaunchCapped (finish names argc argv turn)
  unfolding finish collect
  finish-Capped argv none h = tt
  finish-Capped argv (some (breaks o)) h = tt
  finish-Capped argv (some (done_processing n o)) h = if-both (Gives LaunchCapped) (n == argc) tt (
      Ends-bind AnyFault Capped LaunchCapped (copy_rest argc (drop n argv) o)
        (λ (o' : Options). ok (launches o')) (copy_rest-Capped (drop n argv) o h) (λ o' k. k))
  finish-Capped argv (some (exits n)) h = tt
  finish-Capped argv (some (retry c arg o)) h = tt

  -- The simulation starts with a number of cycles below 2 ^ 64.
  pub read_arguments-Capped :
      (argv : List (List ℕ)) (script : Script) (o : Options)
      → Capped o
      → Gives LaunchCapped (read_arguments names argc argv script o)
  unfolding read_arguments
  read_arguments-Capped argv script o h =
      Ends-bind AnyFault MayCapped LaunchCapped (read_options names argc script o)
        (λ (t : Option Turn). finish names argc argv t) (read_options-Capped script o h)
        (λ t k. finish-Capped argv t k)
