-- ===== src/Emulator/Tests.antt =====
-- A harness that only counts, and a command line: the theorems at inputs that meet their hypotheses.
use chipyard_fault_injection.Common.{
  ℕ, suc, ◌≡◌, refl, true, false, none, some, List, [], ◌∷◌, arith, ltb, leb, ◌==◌, ◌||◌,
  if◌then◌else◌,
}
use chipyard_fault_injection.Common.Text.{codes, same_text}
use chipyard_fault_injection.Emulator.Options.{Names, Script, ends, gives, defaults, read_arguments}
use chipyard_fault_injection.Emulator.Options.Room.{Safe}
use chipyard_fault_injection.Emulator.Options.Launching.{Launched, read_arguments_lem}
use chipyard_fault_injection.Bitbang.{Sockets}
use chipyard_fault_injection.Emulator.Tracing.{traced_run}
use chipyard_fault_injection.Emulator.Tracing.Recording.{traced_run_lem}
use chipyard_fault_injection.Emulator.Tracing.Dumped.{since, all_half_cycles}
use chipyard_fault_injection.Emulator.Simulation.{Harness, bring_up, run}
use chipyard_fault_injection.Emulator.Simulation.Loop.{EndsAfter, cycles}
use chipyard_fault_injection.Emulator.Simulation.Exit.{code_at, run_lem}

-- Counts its evaluations; the TSI front end ends with code 3 after 210 of them.
abbrev counting : Harness
counting = record {
  State = ℕ;
  eval = λ reset clock n. suc n;
  dtm = λ n. none;
  jtag = λ n. some (record { done = false; exit_code = 0 });
  set_jtag = λ server n. n;
  tsi = λ n. some (record { done = ltb 210 n; exit_code = if ltb 210 n then 3 else 0 });
  io_success = λ n. false;
}

-- Does nothing.
abbrev idle : Harness
idle = record {
  State = Unit {0};
  eval = λ reset clock s. s;
  dtm = λ s. none;
  jtag = λ s. some (record { done = false; exit_code = 0 });
  set_jtag = λ server s. s;
  tsi = λ s. none;
  io_success = λ s. false;
}

run_lem_example :
    (n : ℕ) × EndsAfter counting 300 300 n (bring_up counting 0)
    × (run counting 300 300 0
        ≡ some (code_at counting 300 (cycles counting n (bring_up counting 0))))
run_lem_example = run_lem counting 300 300 0 (omega arith) (omega arith) (omega arith)

abbrev names : Names
names = record {
  htif_optind = 1024;
  vm_trace = true;
  fopen = λ name. same_text (codes "boom.vcd") name;
  htif_names = codes "rfb" ∷ codes "disk=" ∷ [];
  verilog_plusargs = codes "uart_tx" ∷ codes "jtag_rbb_enable" ∷ [];
}

abbrev arguments : List (List ℕ)
arguments =
    codes "-c" ∷ codes "+uart_tx=0" ∷ codes "+max-cycles=50" ∷ codes "a.elf" ∷ codes "x" ∷ []

abbrev script : Script
script = gives b'c' [] 2 (
    gives 1 (codes "+uart_tx=0") 3
      (gives 1 (codes "+max-cycles=50") 4 (gives 1 (codes "a.elf") 5 (ends 5))))

read_arguments_lem_example :
    Safe
      (Launched names 6 (omega arith) (codes "emulator" ∷ arguments))
      (read_arguments names 6 (codes "emulator" ∷ arguments) script (defaults 0 (codes "emulator")))
read_arguments_lem_example =
    read_arguments_lem names 6 (omega arith) 0 (codes "emulator") arguments script refl
      (ground arith)

-- The ports below 1024 are taken.
abbrev sockets : ℕ → Sockets
sockets port = record {
  socket_fd = some 3;
  setsockopt_ok = true;
  bind_ok = port == 0 || leb 1024 port;
  listen_ok = true;
  getsockname_ok = true;
}

traced_run_lem_example :
    (n : ℕ) × (code : ℕ) × EndsAfter counting 300 300 n (bring_up counting 0)
    × (run counting 300 300 0 ≡ some code)
    × (traced_run counting 103 300 300 0
        ≡ some (code, since counting 103 (all_half_cycles counting n 0)))
traced_run_lem_example =
    traced_run_lem counting 103 300 300 0 (omega arith) (omega arith) (omega arith)
