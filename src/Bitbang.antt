-- ===== src/Bitbang.antt =====
-- remote_bitbang.h, remote_bitbang.cc and SimJTAG.cc: the JTAG server that OpenOCD connects to.
-- What the socket calls return is a script of events; a loop that uses up its script waits.
pub mod Commands
pub mod Session
pub mod Exit
pub mod Quitting
mod Tests
use chipyard_fault_injection.Common.{
  ℕ, zero, suc, ◌+◌, ◌-◌, ◌*◌, ◌%◌, ◌^◌, Bool, true, false, ◌&&◌, not, Option, none, some, List, [],
  ◌∷◌, ◌++◌, ltb, ◌==◌, if◌then◌else◌, Result, ok, err, Fault, aborted, ◌>>◌, guard, u32,
}

-- `remote_bitbang_t`. The receive buffer of the header is used by nothing.
pub record Bitbang : Type 0 where
  pub err_code : ℕ
  pub tck : ℕ
  pub tms : ℕ
  pub tdi : ℕ
  pub trstn : ℕ
  pub tdo : ℕ
  pub quit : ℕ
  pub socket_fd : ℕ
  pub client_fd : ℕ

-- What `accept`, `read` and `write` come back with. `again` is EAGAIN, `failed` any other error,
-- `closed` a read of 0 bytes, `stalled` a write of 0 bytes.
pub data Accepted : Type 0 where
  again failed : Accepted
  client : ℕ → Accepted

pub data Received : Type 0 where
  again failed closed : Received
  byte : ℕ → Received

pub data Sent : Type 0 where
  failed stalled written : Sent

pub record World : Type 0 where
  pub accepts : List Accepted
  pub reads : List Received
  pub writes : List Sent
  pub output : List ℕ

pub data Outcome {ℓ} (A : Type ℓ) : Type ℓ where
  returns : A → Outcome A
  stops : Fault → Outcome A
  waits : Outcome A

infixl 10 ◌>>=◌
abbrev pub ◌>>=◌ {ℓ κ} : {A : Type ℓ} {B : Type κ} → Outcome A → (A → Outcome B) → Outcome B
stops fault >>= rest = stops fault
waits >>= rest = waits
returns value >>= rest = rest value

-- Whether each call of the constructor succeeds; the bytes that are not set there come from `raw`.
pub record Sockets : Type 0 where
  pub socket_fd : Option ℕ
  pub setsockopt_ok : Bool
  pub bind_ok : Bool
  pub listen_ok : Bool
  pub getsockname_ok : Bool

unfoldable pub init : ℕ → Sockets → Result Bitbang
init raw calls = elim calls.socket_fd [
  | none ↦ err aborted
  | some fd ↦
      guard calls.setsockopt_ok aborted
      >> (guard calls.bind_ok aborted
          >> (guard calls.listen_ok aborted
              >> (guard calls.getsockname_ok aborted
                  >> ok (record {
                    err_code = 0;
                    tck = 1;
                    tms = 1;
                    tdi = 1;
                    trstn = 1;
                    tdo = raw;
                    quit = 0;
                    socket_fd = fd;
                    client_fd = 0;
                  }))))
]

-- The loop of `accept`: the descriptor of the client, and the events left.
unfoldable pub await_client : List Accepted → Outcome (ℕ × List Accepted)
await_client [] = waits
await_client (again ∷ rest) = await_client rest
await_client (failed ∷ rest) = stops aborted
await_client (client fd ∷ rest) = returns (fd, rest)

unfoldable pub accept : Bitbang → World → Outcome (Bitbang × World)
accept s w = do
  (fd, rest) ← await_client w.accepts
  returns (record s { client_fd = fd }, record w { accepts = rest })

unfoldable pub reset : Bitbang → Bitbang
reset s = s

unfoldable pub set_pins : Bitbang → ℕ → ℕ → ℕ → Bitbang
set_pins s tck tms tdi = record s { tck = tck; tms = tms; tdi = tdi }

-- The loop of `execute_command` that reads one byte.
unfoldable pub await_command : List Received → Outcome (ℕ × List Received)
await_command [] = waits
await_command (again ∷ rest) = await_command rest
await_command (failed ∷ rest) = stops aborted
await_command (closed ∷ rest) = await_command rest
await_command (byte c ∷ rest) = returns (c, rest)

-- The switch: the new state, and the byte to send if there is one.
unfoldable pub dispatch : Bitbang → ℕ → Bitbang × Option ℕ
dispatch s c =
    if c == b'B'
    then (s, none)
    else if c == b'b'
    then (s, none)
    else if c == b'r'
    then (reset s, none)
    else if c == b'0'
    then (set_pins s 0 0 0, none)
    else if c == b'1'
    then (set_pins s 0 0 1, none)
    else if c == b'2'
    then (set_pins s 0 1 0, none)
    else if c == b'3'
    then (set_pins s 0 1 1, none)
    else if c == b'4'
    then (set_pins s 1 0 0, none)
    else if c == b'5'
    then (set_pins s 1 0 1, none)
    else if c == b'6'
    then (set_pins s 1 1 0, none)
    else if c == b'7'
    then (set_pins s 1 1 1, none)
    else if c == b'R'
    then (s, some (if s.tdo == 0 then b'0' else b'1'))
    else if c == b'Q'
    then (record s { quit = 1 }, none)
    else (s, none)

-- The loop that sends one byte.
unfoldable pub await_write : List Sent → Outcome (List Sent)
await_write [] = waits
await_write (failed ∷ rest) = stops aborted
await_write (stalled ∷ rest) = await_write rest
await_write (written ∷ rest) = returns rest

unfoldable pub reply : Option ℕ → World → Outcome World
reply none w = returns w
reply (some c) w = do
  rest ← await_write w.writes
  returns (record w { writes = rest; output = w.output ++ c ∷ [] })

unfoldable pub hang_up : Bitbang → Bitbang
hang_up s = if s.quit == 0 then s else record s { client_fd = 0 }

unfoldable pub execute_command : Bitbang → World → Outcome (Bitbang × World)
execute_command s w = do
  (c, rest) ← await_command w.reads
  w ← reply (dispatch s c).1 (record w { reads = rest })
  returns (hang_up (dispatch s c).0, w)

pub record Pins : Type 0 where
  pub tck : ℕ
  pub tms : ℕ
  pub tdi : ℕ
  pub trstn : ℕ

unfoldable pub tick : Bitbang → World → ℕ → Outcome (Bitbang × World × Pins)
tick s w tdo = do
  (s, w) ← if ltb 0 s.client_fd then execute_command (record s { tdo = tdo }) w else accept s w
  returns (s, w, record { tck = s.tck; tms = s.tms; tdi = s.tdi; trstn = s.trstn })

unfoldable pub done : Bitbang → ℕ
done s = s.quit

unfoldable pub exit_code : Bitbang → ℕ
exit_code s = s.err_code

unfoldable pub or_else : Result Bitbang → Outcome Bitbang
or_else (ok s) = returns s
or_else (err fault) = stops fault

-- `jtag` of SimJTAG.cc, made by the first call.
unfoldable pub get_jtag : ℕ → Sockets → Option Bitbang → Outcome Bitbang
get_jtag raw calls none = or_else (init raw calls)
get_jtag raw calls (some s) = returns s

-- The value of `jtag_tick` is 0 until the end, then an odd code.
unfoldable pub status : Bitbang → ℕ
status s = if done s == 0 then 0 else u32 (exit_code s * 2) + 1

unfoldable pub jtag_tick :
    ℕ → Sockets → Option Bitbang → World → ℕ → Outcome (Bitbang × World × Pins × ℕ)
jtag_tick raw calls jtag w tdo = do
  s ← get_jtag raw calls jtag
  (s, w, pins) ← tick s w tdo
  returns (s, w, pins, status s)
