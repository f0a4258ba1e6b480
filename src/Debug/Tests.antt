-- ===== src/Debug/Tests.antt =====
-- A debug module that counts its ticks and ends with the most negative code.
use chipyard_fault_injection.Common.{
  ℕ, suc, ◌^◌, ◌≡◌, true, false, some, none, [], ◌∷◌, ok, ltb, length,
}
use chipyard_fault_injection.Common.Text.{codes}
use chipyard_fault_injection.Common.Calls.{calls, each}
use chipyard_fault_injection.Debug.{DtmApi}
use chipyard_fault_injection.Debug.Ticking.{Call, debug_call, seen, debug_calls_lem}

abbrev counter : DtmApi
counter = record {
  State = ℕ;
  construct = length;
  tick = λ ready valid resp n. suc n;
  resp_ready = λ n. true;
  req_valid = λ n. false;
  req_addr = λ n. n;
  req_op = λ n. 1;
  req_data = λ n. 0;
  done = λ n. ltb 3 n;
  exit_code = λ n. 2 ^ 31;
}

abbrev call : Call
call = record {
  info = some (codes "simv" ∷ codes "a.elf" ∷ []);
  req_ready = true;
  resp_valid = false;
  resp = 0;
  bits = 0;
}

-- The second call would not be told the command line.
debug_calls_lem_example :
    calls (debug_call counter) none (call ∷ record call { info = none } ∷ [])
    ≡ ok (some 4, each (seen counter) (3 ∷ 4 ∷ []))
debug_calls_lem_example = debug_calls_lem counter call (record call { info = none } ∷ [])
