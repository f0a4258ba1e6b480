-- ===== src/Tsi/Tests.antt =====
-- The serial front end on concrete arguments and a target that lists its writes.
use chipyard_fault_injection.Common.{◌≡◌, refl, true, false, List, [], ◌∷◌, ◌++◌, ok, arith}
use chipyard_fault_injection.Common.Text.{codes}
use chipyard_fault_injection.Tsi.{TsiApi, Chunk, Config, load_program, configure, fresh, reset}
use chipyard_fault_injection.Tsi.Arguments.{
  Argument, init_write, loadmem, no_hart0_msip, plain, texts, apply_all, configure-texts,
}
use chipyard_fault_injection.Tsi.Target.{reset-load_program, tsi_of}

abbrev api : TsiApi
api = record {
  State = List Chunk;
  write_chunk = λ c s. s ++ c ∷ [];
  read_chunk = λ addr n s. (s, []);
  switch_to_target = λ s. s;
  program_chunks = (16, 7 ∷ []) ∷ [];
  reset_chunks = (32, 1 ∷ []) ∷ [];
}

abbrev arguments : List Argument
arguments =
    init_write (codes "1f") (codes "2A")
    ∷ loadmem (codes "a.elf")
    ∷ plain (codes "a.elf")
    ∷ no_hart0_msip
    ∷ []

configure_run :
    apply_all true fresh arguments
    ≡ record { has_loadmem = true; write_hart0_msip = false; init_writes = (31, 42) ∷ [] }
configure_run = refl

configure-texts_example : configure true (texts arguments) ≡ ok (apply_all true fresh arguments)
configure-texts_example = configure-texts true arguments (
  ((omega arith, (omega arith, tt)), (omega arith, (omega arith, tt)), omega arith, omega arith),
  (tt, (refl, (tt, tt))),
)

abbrev board : Config
board = record { has_loadmem = false; write_hart0_msip = true; init_writes = (4, 258) ∷ [] }

reset-load_program_example :
    reset api (load_program api (tsi_of api board true []))
    ≡ tsi_of api board false ((16, 7 ∷ []) ∷ (4, 2 ∷ 1 ∷ 0 ∷ 0 ∷ []) ∷ (32, 1 ∷ []) ∷ [])
reset-load_program_example = reset-load_program api (tsi_of api board true [])
