-- ===== src/Emulator/Ending.antt =====
-- `main` as a whole: it ends.
use chipyard_fault_injection.Common.{
  ℕ, ◌≡◌, Bool, true, false, ◌&&◌, Option, none, some, Fault, aborted, ◌⊎◌,
}
use chipyard_fault_injection.Bitbang.{Bitbang, Sockets}
use chipyard_fault_injection.Emulator.Options.{Options}
use chipyard_fault_injection.Emulator.Options.Room.{OnlyIntOverflow}

-- An exit code is there.
abbrev pub Exits : Option ℕ → Type 0
Exits r = (code : ℕ) × (r ≡ some code)

-- Whether every call of the constructor of the JTAG server succeeds.
abbrev pub has_socket : Option ℕ → Bool
has_socket none = false
has_socket (some fd) = true

abbrev pub all_succeed : Sockets → Bool
all_succeed calls =
    has_socket calls.socket_fd
    && (calls.setsockopt_ok && (calls.bind_ok && (calls.listen_ok && calls.getsockname_ok)))

-- A number that `atoi` or `atoll` does not hold, or a call that fails for some port.
abbrev pub Stops : (ℕ → Sockets) → Fault → Type 0
Stops sockets fault =
    OnlyIntOverflow fault ⊎ ((fault ≡ aborted) × (port : ℕ) × (all_succeed (sockets port) ≡ false))

abbrev Anything : Bitbang → Type 0
Anything s = Unit {0}
