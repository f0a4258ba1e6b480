-- ===== src/Bitbang/Commands.antt =====
-- The command characters of the remote bit-bang protocol.
use chipyard_fault_injection.Common.{
  ℕ, ◌-◌, ◌/◌, ◌%◌, ◌≡◌, Bool, ◌&&◌, Option, none, some, leb, ◌==◌, if◌then◌else◌, arith,
}
use chipyard_fault_injection.Bitbang.{Bitbang, dispatch, set_pins, reset}

-- The characters '0' to '7' drive the pins: the bits of the digit, from the highest, are TCK, TMS
-- and TDI.
abbrev pub is_drive : ℕ → Bool
is_drive c = leb b'0' c && leb c b'7'

abbrev pub drive : Bitbang → ℕ → Bitbang
drive s c =
    if is_drive c
    then record s { tck = (c - b'0') / 4; tms = (c - b'0') / 2 % 2; tdi = (c - b'0') % 2 }
    else s

abbrev pub answer : ℕ → ℕ → Option ℕ
answer tdo c = if c == b'R' then some (if tdo == 0 then b'0' else b'1') else none

-- Every command but 'Q' drives the pins by its digit and leaves the rest of the state; 'R' alone is
-- answered, by TDO; 'Q' only sets `quit`.
pub dispatch_lem :
    (s : Bitbang) (c : ℕ)
    → dispatch s c ≡ ((if c == b'Q' then record s { quit = 1 } else drive s c), answer s.tdo c)
unfolding dispatch set_pins reset
dispatch_lem s c = ground arith
