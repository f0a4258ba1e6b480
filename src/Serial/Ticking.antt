-- ===== src/Serial/Ticking.antt =====
-- The calls of `serial_tick`: the front end is made by the first one.
use chipyard_fault_injection.Common.{
  ℕ, suc, ◌≡◌, refl, ap, Bool, true, false, Option, none, some, List, [], ◌∷◌, ◌++◌, ◌==◌, length,
  arith, Result, ok, ◌>>=◌,
}
use chipyard_fault_injection.Common.Text.{take}
use chipyard_fault_injection.Common.Calls.{calls, states, last_of, each, calls_lem}
use chipyard_fault_injection.Tsi.{TsiApi, Tsi, fresh}
use chipyard_fault_injection.Tsi.Arguments.{
  Argument, AreArguments, texts, apply_all, configure-texts,
}
use chipyard_fault_injection.Serial.{
  Host, Ports, removed, behind_program, make_tsi, get_tsi, outputs, status, serial_tick,
}
use chipyard_fault_injection.Serial.Options.{Args, kept, remove_vcs_simv_opt_lem}

take_prefix : (xs ys : Args) → take (length xs) (xs ++ ys) ≡ xs
take_prefix [] ys = refl
take_prefix (x ∷ xs) ys = ap (λ (t : Args). x ∷ t) (take_prefix xs ys)

behind_program_lem :
    (program : List ℕ) (args stale : Args)
    → behind_program (suc (length args)) (program ∷ (args ++ stale)) ≡ ok args
unfolding behind_program
behind_program_lem program args stale =
    let some_argc : (suc (length args) == 0) ≡ false = ground arith in
    rw (some_argc, take_prefix args stale)

module _ (api : TsiApi) (host : Host api) where
  make_tsi_lem :
      (raw : Bool) (program : List ℕ) (args : List Argument) (stale : Args)
      → AreArguments args
      → make_tsi api host raw (suc (length (texts args))) (program ∷ (texts args ++ stale))
        ≡ ok (record {
          config = apply_all true fresh args;
          is_loadmem = raw;
          base = host.construct (program ∷ texts args);
        })
  unfolding make_tsi
  make_tsi_lem raw program args stale h = rw (
    behind_program_lem program (texts args) stale,
    configure-texts true args h,
    take_prefix (texts args) stale,
  )

  get_tsi_lem :
      (raw : Bool) (argv : Args) (program : List ℕ) (args : List Argument)
      → kept argv ≡ program ∷ texts args
      → AreArguments args
      → get_tsi api host raw (some argv) none
        ≡ ok (record {
          config = apply_all true fresh args;
          is_loadmem = raw;
          base = host.construct (program ∷ texts args);
        })
  unfolding get_tsi removed
  get_tsi_lem raw argv program args e h =
      let (stale, left) = remove_vcs_simv_opt_lem argv in
      rw (left, e) (make_tsi_lem raw program args stale h)

-- What the simulator passes to one call.
pub record Cycle : Type 0 where
  pub out_valid : Bool
  pub out_bits : ℕ
  pub in_ready : Bool

module _ (api : TsiApi) (host : Host api) where
  -- One exchange with the host.
  abbrev pub exchange : Cycle → Tsi api → Tsi api
  exchange x s = host.switch_to_host (host.tick x.out_valid x.out_bits x.in_ready s)

  abbrev pub seen : Tsi api → Ports × ℕ
  seen s = (outputs api host s, status api host s)

module _ (api : TsiApi) (host : Host api) (raw : Bool) (info : Option Args) where
  abbrev pub serial_call : Option (Tsi api) → Cycle → Result (Tsi api × (Ports × ℕ))
  serial_call tsi x = do
    (s, ports, word) ← serial_tick api host raw info tsi x.out_valid x.out_bits x.in_ready
    ok (s, (ports, word))

  serial_call-some :
      (s : Tsi api) (x : Cycle)
      → serial_call (some s) x ≡ ok (exchange api host x s, seen api host (exchange api host x s))
  unfolding serial_tick get_tsi
  serial_call-some s x = refl

  serial_call-none :
      (made : Tsi api)
      → get_tsi api host raw info none ≡ ok made
      → (x : Cycle)
      → serial_call none x ≡ ok (exchange api host x made, seen api host (exchange api host x made))
  unfolding serial_tick
  serial_call-none made e x = rw e

-- On a command line whose arguments, without the simulator's options, are a program and arguments of
-- the front end: the first call makes the front end from these, with the switches and the start-up
-- writes that they ask for, and every call exchanges data with the host once. Each call hands out the
-- ports and the exit word of the state that it leaves.
pub serial_calls_lem :
    (api : TsiApi) (host : Host api) (raw : Bool) (argv : Args) (program : List ℕ)
    (args : List Argument) (x : Cycle) (xs : List Cycle)
    → kept argv ≡ program ∷ texts args
    → AreArguments args
    → let tick = serial_call api host raw (some argv) in
      let s : Tsi api = record {
        config = apply_all true fresh args;
        is_loadmem = raw;
        base = host.construct (program ∷ texts args);
      } in
      let later = states (exchange api host) s (x ∷ xs) in
      calls tick none (x ∷ xs) ≡ ok (some (last_of s later), each (seen api host) later)
serial_calls_lem api host raw argv program args x xs e h =
    calls_lem (serial_call api host raw (some argv)) (exchange api host) (seen api host)
      (record {
        config = apply_all true fresh args;
        is_loadmem = raw;
        base = host.construct (program ∷ texts args);
      })
      x xs
      (serial_call-none api host raw (some argv) _ (get_tsi_lem api host raw argv program args e h)
        x)
      (serial_call-some api host raw (some argv))
