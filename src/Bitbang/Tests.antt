-- ===== src/Bitbang/Tests.antt =====
-- A debugger that reads TDO and drives the pins: the theorems at inputs that meet their hypotheses.
use chipyard_fault_injection.Common.{◌≡◌, refl, [], ◌∷◌, none, some, true, arith, replicate}
use chipyard_fault_injection.Bitbang.{
  Bitbang, World, again, client, closed, byte, stalled, written, returns, waits, Sockets, init,
  accept, await_client, await_command, dispatch, await_write, reply, hang_up, execute_command, tick,
  done, exit_code, or_else, get_jtag, status, jtag_tick,
}
use chipyard_fault_injection.Bitbang.Session.{Script, driven, session, session_lem}
use chipyard_fault_injection.Bitbang.Exit.{Ensures, hang_up-waits}
use chipyard_fault_injection.Bitbang.Quitting.{Valued, jtag_calls, jtag_calls_lem}

abbrev server : Bitbang
server = record {
  err_code = 0;
  tck = 1;
  tms = 1;
  tdi = 1;
  trstn = 1;
  tdo = 0;
  quit = 0;
  socket_fd = 3;
  client_fd = 4;
}

-- Read TDO, then clock TMS = 1, TDI = 0.
abbrev script : Script
script = (b'R', 1) ∷ (b'2', 0) ∷ (b'6', 0) ∷ []

abbrev world : World
world = record {
  accepts = [];
  reads = again ∷ byte b'R' ∷ byte b'2' ∷ closed ∷ byte b'6' ∷ [];
  writes = stalled ∷ written ∷ [];
  output = [];
}

session_lem_example :
    (w : World) × (session server world script ≡ returns (driven server script, w))
    × (w.output ≡ b'1' ∷ [])
session_lem_example = session_lem server world script (omega arith) (omega arith) (omega arith) tt

driven_pins : driven server script ≡ record server { tck = 1; tms = 1; tdi = 0 }
driven_pins = refl

abbrev sockets : Sockets
sockets = record {
  socket_fd = some 3;
  setsockopt_ok = true;
  bind_ok = true;
  listen_ok = true;
  getsockname_ok = true;
}

-- A client connects, reads TDO and quits.
abbrev quitting : World
quitting = record {
  accepts = again ∷ client 4 ∷ [];
  reads = byte b'R' ∷ again ∷ byte b'Q' ∷ byte b'0' ∷ [];
  writes = written ∷ [];
  output = [];
}

abbrev quit_world : World
quit_world = record { accepts = []; reads = byte b'0' ∷ []; writes = []; output = b'1' ∷ [] }

quit_values :
    jtag_calls 0 sockets none quitting (0 ∷ 1 ∷ 0 ∷ []) ≡ returns (quit_world, 0 ∷ 0 ∷ 1 ∷ [])
unfolding jtag_calls jtag_tick get_jtag or_else init tick accept await_client execute_command
    await_command dispatch reply await_write hang_up status done exit_code
quit_values = refl

jtag_calls_lem_example :
    Ensures (Valued 0 quitting) (jtag_calls 0 sockets none quitting (0 ∷ 1 ∷ 0 ∷ []))
jtag_calls_lem_example = jtag_calls_lem 0 sockets none quitting (0 ∷ 1 ∷ 0 ∷ []) tt

hang_up-waits_example : tick server (record world { reads = replicate 5 closed }) 0 ≡ waits
hang_up-waits_example =
    hang_up-waits server (record world { reads = replicate 5 closed }) 0 5 (omega arith) refl
