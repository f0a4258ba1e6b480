-- ===== src/Lib.antt =====
-- The C++ runtime that drives the simulation of a Chipyard SoC, which stands beside the generated
-- hardware in chipyard.TestHarness.SmallBoomConfig, and the Python scripts that put faults into
-- that hardware, in injector. The paths below are relative to the first directory, those of
-- the scripts to the second.
--
-- The parts and their files. The Verilated test harness calls the runtime through tick functions,
-- once a cycle; `main` of emulator.cc evaluates the harness and asks the front ends whether they are
-- done.
-- - Mm (mm.h, mm.cc: `mm_t`): the backing store, with the byte lanes of `write` and `read`. `Mm.init`,
--   `write`, `read` and `load_mem` are the methods. The bytes are a function of the address together
--   with the size of the mapping; an access at or beyond the size is the fault `out_of_bounds`.
-- - Magic (mm.h, mm.cc: `mm_magic_t`): the AXI memory without delay, on top of Mm. `tick` runs the
--   handlers `accept_read`, `accept_address`, `accept_data` and `finish` in the order of the source,
--   with the fire signals computed first. Magic/Ideal is an abstract AXI memory, and Magic/Refine
--   relates the two; Run, Burst, Order, Delivery and Reset are about many cycles, Sized about the
--   words that `r_data` points to. Axi has the arguments of `tick` and `mm_rresp_t`.
-- - Dramsim (mm_dramsim2.h, mm_dramsim2.cc: `mm_dramsim2_t`): the memory with the delays of DRAMSim.
--   `tick` issues a request with `issue`, runs the handlers and ends with `advance`, which runs the
--   callbacks `read_complete` and `write_complete`. Dramsim/Pending has the invariant of the queues,
--   Exclusive that of the busy ids, Returning that of the ranges; Serving puts them together.
-- - Dram (SimDRAM.cc): `memory_init`, which reads the options of the memory, makes a Magic or a
--   Dramsim and loads a file into it. Dram/Port is `memory_tick`, the port to the hardware: the
--   conversions of its arguments and the virtual calls of the model; Port/Boot puts the two together.
-- - Bitbang (remote_bitbang.h, remote_bitbang.cc, SimJTAG.cc): the JTAG server. What `accept`, `read`
--   and `write` return is a script of events. Quitting is about the calls of `jtag_tick`.
-- - Uart (uart.h, uart.cc, SimUART.cc): the console. The keys that `read` brings are a script. Stream is
--   about many cycles, Interrupt about those with a Ctrl-C.
-- - Serial (SimSerial.cc) and Tsi (testchip_tsi.h, testchip_tsi.cc): the serial front end, its
--   command line, its start-up writes, its program load, and `serial_tick`.
-- - Debug (SimDTM.cc): `debug_tick`. Common/Calls has the calls of a function that makes its global
--   object when it is first called, which Debug and Serial share.
-- - Emulator (emulator.cc): `main`. Options reads the arguments with the retries of its switch,
--   those for the trace in the build with VM_TRACE only, Simulation is the reset, the main loop and
--   the exit code, Tracing the same with the dumps of the waves (Same: the two end alike). Ending is
--   about `main` as a whole, with the JTAG server of Bitbang that it makes.
-- - Injector (the scripts). Paths has the regular expressions for fault paths such as `/Root/alu/:slt`
--   (ModuleInstance.py); Building the making of the tree from the texts of the modules
--   (ModuleTree.py); Instances the tree of module instances with `mark_fault`; Routing what
--   `inject_faults` of an instance hands to its children, and the port strings; Traversal the loops of
--   `inject_faults` and `dump` over the tree (ModuleTree.py); Scanning the patterns of Module.py with
--   `re.findall` and `re.sub`, and in Lines those of ModuleInstance.py; Substitution `inject_fault`,
--   which is about the text of one module (Module.py), and Injecting `inject_faults` of an instance
--   (ModuleInstance.py); Driver the text of the fault driver (fault_driver.py). An instance is a value
--   in the tree, so that its parent is its place, and texts are ASCII codes. An IndexError is
--   `out_of_range`, a ValueError or TypeError `invalid_argument`, and the use of a None `null_pointer`.
-- - Common: results and faults, machine words, bits, text, and lists.
--
-- Conventions. A call ends in `ok` or in the `Fault` that stops the program: a failed assertion, an
-- abort or exit, an uncaught exception, a trap, or undefined behaviour, so that `ok` rules them out.
-- A `uint64_t` is a number below 2 ^ 64, an `int` its 32-bit pattern, and both wrap where written.
-- `<<` on an `int` is defined below a shift of 32, as from C++20 on and as compilers do.
--
-- Fuel. `remove_loop` gets the number of arguments and one more, since a round drops an argument or
-- passes one; the switch of the options gets 3 passes, since a plus-argument is retried as such once
-- and then under a letter; the main loop of the emulator gets the number of cycles that it may run.
-- The loops on socket events are structural on the script, and `waits` where it is used up. The loops
-- over the tree of instances get two rounds for each instance, and one. `find_children` is bounded in
-- the depth of its calls, and a bound above the rank of the root is enough.
--
-- Parameters: `mmap`; the memory system of DRAMSim (`DramApi`), with counts of its pending
-- transactions (`Counts`); what constructors leave uninitialised (`raw`); `tsi_t` of fesvr
-- (`TsiApi`, and `Host` for its side of the front end) and `dtm_t` (`DtmApi`); `getopt_long` (a script
-- of its results), the names and numbers of HTIF's options, the generated list of plus-arguments,
-- whether the build traces and whether a file opens (`Names`); the Verilated harness with the state of
-- its front ends (`Harness`); the calls on files and sockets; the dict of the modules, the numbers that
-- the scripts draw, the digest of a text, and what `re.sub` makes of a replacement with a backslash.
--
-- Not modelled: verilator.h, which hands the bytes of a trace to `fwrite`; the seeding of the random
-- generators; messages to the user; the destructors; the generated Verilog, which is another language;
-- and of the scripts the splitting of a file into modules, the lists of their ports and wires
-- (`parse_file`, `_parse_io`, `extract_wires`), and the writing back of the injected instances into
-- the tree by the loop over it, whose order alone is modelled.
pub mod Common
pub mod Axi
pub mod Mm
pub mod Magic
pub mod Dramsim
pub mod Dram
pub mod Bitbang
pub mod Uart
pub mod Serial
pub mod Debug
pub mod Tsi
pub mod Emulator
pub mod Injector
