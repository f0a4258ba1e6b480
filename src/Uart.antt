-- ===== src/Uart.antt =====
-- uart.h, uart.cc and SimUART.cc: a UART on standard input and output, a pseudo-terminal or a log.
-- What the reads bring is a script of events, one for each call of `read`.
pub mod Stream
pub mod Interrupt
mod Tests
use chipyard_fault_injection.Common.{
  ℕ, zero, suc, ◌+◌, Bool, true, false, ◌&&◌, not, Option, none, some, List, [], ◌∷◌, ◌++◌, ◌==◌,
  if◌then◌else◌, Result, ok, err, ◌>>=◌, exited,
}

pub record Uart : Type 0 where
  pub print_file : Bool
  pub inputfd : ℕ
  pub outputfd : ℕ

-- What the constructor's calls give: the pseudo-terminal, whether `symlink` succeeds, the log file.
pub record Files : Type 0 where
  pub ptyfd : ℕ
  pub symlink_ok : Bool
  pub logfd : ℕ

-- The global `specialchar`, what is still to be typed (`none` for a read that brings nothing) and
-- what was written, each byte with its descriptor.
pub record Console : Type 0 where
  pub specialchar : ℕ
  pub typed : List (Option ℕ)
  pub written : List (ℕ × ℕ)

abbrev sigint : ℕ
sigint = 2

unfoldable pub sighand : ℕ → Console → Console
sighand s c = record c { specialchar = if s == sigint then 3 else 0 }

-- Lines 46 to 80: the descriptors before the log file is opened.
unfoldable pub attach : Files → ℕ → Result Uart
attach files uartno =
    if uartno == 0
    then ok (record { print_file = false; inputfd = 0; outputfd = 1 })
    else if files.symlink_ok
    then ok (record { print_file = false; inputfd = files.ptyfd; outputfd = files.ptyfd })
    else err (exited 1)

unfoldable pub init : Files → Bool → ℕ → Result Uart
init files has_prefix uartno = do
  u ← attach files uartno
  ok (if has_prefix then record u { print_file = true; outputfd = files.logfd } else u)

-- One `read` of one byte.
unfoldable pub read_key : Console → Option ℕ × Console
read_key c = elim c.typed [ [] ↦ (none, c) | key ∷ rest ↦ (key, record c { typed = rest }) ]

-- Lines 114 to 125: the byte for the target, if there is one.
unfoldable pub next_input : Console → Option ℕ × Console
next_input c =
    if c.specialchar == 0 then read_key c else (some c.specialchar, record c { specialchar = 0 })

-- The ports that a call drives.
pub record Ports : Type 0 where
  pub out_ready : Bool
  pub in_valid : Bool
  pub in_bits : ℕ

unfoldable pub offer : ℕ → Option ℕ → Ports
offer in_bits none = record { out_ready = true; in_valid = false; in_bits = in_bits }
offer in_bits (some key) = record { out_ready = true; in_valid = true; in_bits = key }

-- `in_bits` is what the port held, `write_ok` whether a write succeeds.
unfoldable pub tick : Uart → Console → Bool → ℕ → Bool → ℕ → Bool → Result (Console × Ports)
tick u c out_valid out_bits in_ready in_bits write_ok = do
  let (key, c) = if in_ready then next_input c else (none, c)
  let ports = offer in_bits key
  if ports.out_ready && out_valid
      then (if write_ok
          then ok (record c { written = c.written ++ (u.outputfd, out_bits) ∷ [] }, ports)
          else err (exited 1))
      else ok (c, ports)

-- SimUART.cc keeps one UART in a global, which each call of `uart_init` replaces.
abbrev is_empty : List ℕ → Bool
is_empty [] = true
is_empty (x ∷ xs) = false

unfoldable pub uart_init : Files → List ℕ → ℕ → Result Uart
uart_init files filename uartno = init files (not (is_empty filename)) uartno

unfoldable pub uart_tick :
    Option Uart → Console → Bool → ℕ → Bool → ℕ → Bool → Result (Console × Ports)
uart_tick none c out_valid out_bits in_ready in_bits write_ok =
    ok (c, record { out_ready = false; in_valid = false; in_bits = in_bits })
uart_tick (some u) c out_valid out_bits in_ready in_bits write_ok =
    tick u c out_valid out_bits in_ready in_bits write_ok
