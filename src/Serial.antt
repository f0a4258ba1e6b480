-- ===== src/Serial.antt =====
-- SimSerial.cc: the arguments that are kept from HTIF, and the tick of the serial front end.
pub mod Options
pub mod Ticking
mod Tests
use chipyard_fault_injection.Common.{
  Result, ok, err, ◌>>=◌, aborted, length_error, unfinished, exit_word, ℕ, zero, suc, ◌+◌, ◌-◌,
  Bool, true, false, ◌&&◌, not, Option, none, some, List, [], ◌∷◌, ◌++◌, ltb, ◌==◌, if◌then◌else◌,
  get_or, set, length,
}
use chipyard_fault_injection.Common.Text.{contains, drop, take}
use chipyard_fault_injection.Tsi.{TsiApi, Config, Tsi, configure}

-- Line 14: `-X???=`, with one dash.
unfoldable pub is_simv_opt : List ℕ → Bool
is_simv_opt str =
    ltb 1 (length str)
    && get_or str 0 0 == b'-'
    && not (get_or str 1 0 == b'-')
    && contains b'=' str

-- Lines 16 to 19: `argv[i] = argv[i + 1]` for `n` rounds from `i` on.
unfoldable pub shift_down : ℕ → ℕ → List (List ℕ) → List (List ℕ)
shift_down zero i argv = argv
shift_down (suc n) i argv = shift_down n (i + 1) (set argv i (get_or argv (i + 1) []))

-- The loop from line 12, on fuel: `argc` and `argv` at its end, `none` if the fuel runs out.
unfoldable pub remove_loop : ℕ → ℕ → ℕ → List (List ℕ) → Option (ℕ × List (List ℕ))
remove_loop zero idx argc argv = none
remove_loop (suc fuel) idx argc argv =
    let removed = remove_loop fuel idx (argc - 1) (shift_down (argc - 1 - idx) idx argv) in
    let kept = remove_loop fuel (idx + 1) argc argv in
    if ltb idx argc
    then (if is_simv_opt (get_or argv idx []) then removed else kept)
    else some (argc, argv)

unfoldable pub remove_vcs_simv_opt : ℕ → List (List ℕ) → Option (ℕ × List (List ℕ))
remove_vcs_simv_opt argc argv = remove_loop (suc argc) 0 argc argv

-- The host side of fesvr, which `switch_to_host` runs: it works on the front end through the virtual
-- methods of Tsi, so its state is the whole front end.
pub record Host (api : TsiApi) : Type 0 where
  pub construct : List (List ℕ) → api.State
  pub tick : Bool → ℕ → Bool → Tsi api → Tsi api
  pub switch_to_host : Tsi api → Tsi api
  pub in_valid : Tsi api → Bool
  pub in_bits : Tsi api → ℕ
  pub out_ready : Tsi api → Bool
  pub done : Tsi api → Bool
  pub exit_code : Tsi api → ℕ

-- The ports that a call drives.
pub record Ports : Type 0 where
  pub in_valid : Bool
  pub in_bits : ℕ
  pub out_ready : Bool

unfoldable pub removed : Option (ℕ × List (List ℕ)) → Result (ℕ × List (List ℕ))
removed none = err unfinished
removed (some left) = ok left

-- The arguments of a front end: a vector from `argv + 1` to `argv + argc`, of no negative length.
unfoldable pub behind_program : ℕ → List (List ℕ) → Result (List (List ℕ))
behind_program argc argv = if argc == 0 then err length_error else ok (drop 1 (take argc argv))

module _ (api : TsiApi) (host : Host api) where
  -- `raw` is what `is_loadmem` is before anything sets it.
  unfoldable pub make_tsi : Bool → ℕ → List (List ℕ) → Result (Tsi api)
  make_tsi raw argc argv = do
    args ← behind_program argc argv
    config ← configure true args
    ok (record { config = config; is_loadmem = raw; base = host.construct (take argc argv) })

  -- Lines 40 to 50: `info` is what the simulator says of its command line.
  unfoldable pub get_tsi : Bool → Option (List (List ℕ)) → Option (Tsi api) → Result (Tsi api)
  get_tsi raw info (some s) = ok s
  get_tsi raw none none = err aborted
  get_tsi raw (some argv) none = do
    (argc, argv) ← removed (remove_vcs_simv_opt (length argv) argv)
    make_tsi raw argc argv

  unfoldable pub outputs : Tsi api → Ports
  outputs s = record {
    in_valid = host.in_valid s;
    in_bits = host.in_bits s;
    out_ready = host.out_ready s;
  }

  unfoldable pub status : Tsi api → ℕ
  status s = exit_word (host.done s) (host.exit_code s)

  unfoldable pub serial_tick :
      Bool
      → Option (List (List ℕ))
      → Option (Tsi api)
      → Bool
      → ℕ
      → Bool
      → Result (Tsi api × Ports × ℕ)
  serial_tick raw info tsi out_valid out_bits in_ready = do
    s ← get_tsi raw info tsi
    let s = host.switch_to_host (host.tick out_valid out_bits in_ready s)
    ok (s, outputs s, status s)
