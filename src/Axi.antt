-- ===== src/Axi.antt =====
-- The AXI4 channels of a memory model, as mm.h declares them for `tick` and the ready/valid methods.
use chipyard_fault_injection.Common.{ℕ, Bool, List}

-- The arguments of `tick`. `w_data` is what the pointer of that name points to.
pub record Inputs : Type 0 where
  pub reset : Bool
  pub ar_valid : Bool
  pub ar_addr : ℕ
  pub ar_id : ℕ
  pub ar_size : ℕ
  pub ar_len : ℕ
  pub aw_valid : Bool
  pub aw_addr : ℕ
  pub aw_id : ℕ
  pub aw_size : ℕ
  pub aw_len : ℕ
  pub w_valid : Bool
  pub w_strb : ℕ
  pub w_data : List ℕ
  pub w_last : Bool
  pub r_ready : Bool
  pub b_ready : Bool

-- `mm_rresp_t`, one beat of a read burst.
pub record Rresp : Type 0 where
  pub id : ℕ
  pub bytes : List ℕ
  pub last : Bool
