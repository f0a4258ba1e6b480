-- ===== src/Serial/Tests.antt =====
-- Removing simulator options from a concrete command line.
use chipyard_fault_injection.Common.{◌≡◌, refl, some, [], ◌∷◌, ◌++◌, length}
use chipyard_fault_injection.Common.Text.{codes}
use chipyard_fault_injection.Common.{suc, false, true, ltb, ok, ℕ, List, none, refl}
use chipyard_fault_injection.Common.Calls.{calls, each}
use chipyard_fault_injection.Tsi.{TsiApi, Tsi}
use chipyard_fault_injection.Tsi.Arguments.{Argument, no_hart0_msip, plain, texts}
use chipyard_fault_injection.Serial.Ticking.{Cycle, serial_call, seen, serial_calls_lem}
use chipyard_fault_injection.Serial.{
  Host, is_simv_opt, shift_down, remove_loop, remove_vcs_simv_opt,
}
use chipyard_fault_injection.Serial.Options.{Args, kept, remove_vcs_simv_opt_lem}

abbrev line : Args
line = codes "simv" ∷ codes "-cm=line" ∷ codes "--a=b" ∷ codes "-q=1" ∷ codes "+x=1" ∷ []

remove_run :
    remove_vcs_simv_opt 5 line
    ≡ some (3, codes "simv" ∷ codes "--a=b" ∷ codes "+x=1" ∷ codes "+x=1" ∷ codes "+x=1" ∷ [])
unfolding remove_vcs_simv_opt remove_loop is_simv_opt shift_down
remove_run = refl

remove_vcs_simv_opt_lem_example :
    (stale : Args) × (remove_vcs_simv_opt (length line) line
      ≡ some (length (kept line), kept line ++ stale))
remove_vcs_simv_opt_lem_example = remove_vcs_simv_opt_lem line

-- A host that counts its ticks.
abbrev api : TsiApi
api = record {
  State = ℕ;
  write_chunk = λ c n. n;
  read_chunk = λ addr nbytes n. (n, []);
  switch_to_target = λ n. n;
  program_chunks = [];
  reset_chunks = [];
}

abbrev host : Host api
host = record {
  construct = length;
  tick = λ valid bits ready s. record s { base = suc s.base };
  switch_to_host = λ s. s;
  in_valid = λ s. true;
  in_bits = λ s. s.base;
  out_ready = λ s. true;
  done = λ s. ltb 4 s.base;
  exit_code = λ s. 3;
}

abbrev arguments : List Argument
arguments = no_hart0_msip ∷ plain (codes "--a=b") ∷ []

abbrev command : Args
command = codes "simv" ∷ codes "-cm=line" ∷ codes "+no_hart0_msip" ∷ codes "--a=b" ∷ []

abbrev cycle : Cycle
cycle = record { out_valid = false; out_bits = 0; in_ready = true }

abbrev made : Tsi api
made = record {
  config = record { has_loadmem = false; write_hart0_msip = false; init_writes = [] };
  is_loadmem = false;
  base = 3;
}

serial_calls_lem_example :
    calls (serial_call api host false (some command)) none (cycle ∷ cycle ∷ [])
    ≡ ok (
      some (record made { base = 5 }),
      each (seen api host) (record made { base = 4 } ∷ record made { base = 5 } ∷ []),
    )
unfolding is_simv_opt
serial_calls_lem_example =
    serial_calls_lem api host false command (codes "simv") arguments cycle (cycle ∷ []) kept_command
      (tt, (refl, tt))
  where
    kept_command : kept command ≡ codes "simv" ∷ texts arguments
    kept_command = refl
