-- ===== src/Debug.antt =====
-- SimDTM.cc: the tick of the debug transport module. `dtm_t` belongs to fesvr and is a parameter.
pub mod Ticking
mod Tests
use chipyard_fault_injection.Common.{
  ℕ, Bool, true, false, Option, none, some, List, Result, ok, err, ◌>>=◌, aborted, exit_word,
}

-- `dtm_t::resp`.
pub record Resp : Type 0 where
  pub resp : ℕ
  pub bits : ℕ

pub record DtmApi : Type 1 where
  pub State : Type 0
  pub construct : List (List ℕ) → State
  pub tick : Bool → Bool → Resp → State → State
  pub resp_ready : State → Bool
  pub req_valid : State → Bool
  pub req_addr : State → ℕ
  pub req_op : State → ℕ
  pub req_data : State → ℕ
  pub done : State → Bool
  pub exit_code : State → ℕ

-- The ports that a call drives.
pub record Ports : Type 0 where
  pub debug_resp_ready : Bool
  pub debug_req_valid : Bool
  pub debug_req_bits_addr : ℕ
  pub debug_req_bits_op : ℕ
  pub debug_req_bits_data : ℕ

module _ (api : DtmApi) where
  open api use {State, construct, resp_ready, req_valid, req_addr, req_op, req_data, exit_code}

  -- The global `dtm`; `info` is what the simulator says of its command line.
  unfoldable pub get_dtm : Option (List (List ℕ)) → Option State → Result State
  get_dtm info (some dtm) = ok dtm
  get_dtm none none = err aborted
  get_dtm (some argv) none = ok (construct argv)

  unfoldable pub outputs : State → Ports
  outputs dtm = record {
    debug_resp_ready = resp_ready dtm;
    debug_req_valid = req_valid dtm;
    debug_req_bits_addr = req_addr dtm;
    debug_req_bits_op = req_op dtm;
    debug_req_bits_data = req_data dtm;
  }

  unfoldable pub status : State → ℕ
  status dtm = exit_word (api.done dtm) (exit_code dtm)

  unfoldable pub debug_tick :
      Option (List (List ℕ)) → Option State → Bool → Bool → ℕ → ℕ → Result (State × Ports × ℕ)
  debug_tick info dtm debug_req_ready debug_resp_valid debug_resp_bits_resp debug_resp_bits_data =
      do
        dtm ← get_dtm info dtm
        let resp_bits : Resp = record { resp = debug_resp_bits_resp; bits = debug_resp_bits_data }
        let dtm = api.tick debug_req_ready debug_resp_valid resp_bits dtm
        ok (dtm, outputs dtm, status dtm)
