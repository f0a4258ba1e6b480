-- ===== src/Magic/Ideal.antt =====
-- The memory that `mm_magic_t` promises: bytes, at most one write burst, and two queues of responses.
-- It has no machine words, no faults and no order of handlers inside a cycle.
use chipyard_fault_injection.Common.{
  ℕ, ◌+◌, ◌-◌, ◌^◌, Bool, List, [], ◌∷◌, ◌++◌, Option, none, some, ◌==◌, u64, if◌then◌else◌, tail,
}
use chipyard_fault_injection.Axi.{Inputs, Rresp}
use chipyard_fault_injection.Mm.{Mm}
use chipyard_fault_injection.Mm.Write.{merged}
use chipyard_fault_injection.Magic.Channels.{replies_of}

-- The next beat goes to `addr`; `left` beats are to come.
pub record Burst : Type 0 where
  pub addr : ℕ
  pub id : ℕ
  pub bytes : ℕ
  pub left : ℕ

pub record Ideal : Type 0 where
  pub store : Mm
  pub burst : Option Burst
  pub acks : List ℕ
  pub replies : List Rresp

abbrev taken {ℓ} : {A : Type ℓ} → Bool → List A → List A
taken ready xs = if ready then tail xs else xs

-- The write channel: an address opens a burst, each beat of data moves it on, the last one ends it
-- with an acknowledgement.
abbrev pub write_step : Ideal → Inputs → Option Burst → Ideal
write_step i x none =
    if x.aw_valid
    then record i {
      burst =
          some
            (record { addr = x.aw_addr; id = x.aw_id; bytes = 2 ^ x.aw_size; left = x.aw_len + 1 });
    }
    else i
write_step i x (some b) =
    if x.w_valid
    then record i {
      store = record i.store { cells = merged i.store b.addr x.w_data x.w_strb b.bytes };
      burst =
          if b.left == 1
          then none
          else some (record b { addr = u64 (b.addr + b.bytes); left = b.left - 1 });
      acks = if b.left == 1 then i.acks ++ b.id ∷ [] else i.acks;
    }
    else i

-- One cycle. A read burst is answered from the bytes before the cycle's write.
abbrev pub step : Ideal → Inputs → Ideal
step i x =
    if x.reset
    then record i { acks = []; replies = [] }
    else write_step
        (record i {
          acks = taken x.b_ready i.acks;
          replies = taken x.r_ready i.replies ++ (if x.ar_valid then replies_of i.store x else []);
        })
        x i.burst
