-- ===== src/Testing/Main.antt =====
-- The second copy of the test machinery, in src/main.rs: `Testable`, `test_runner`, the panic handler
-- of its test build, and `exit_qemu`. The host and the tests are those of src/lib.rs.
use leaf_os.Common.{ℕ, ◌≡◌, refl, ap, List, [], ◌∷◌, ◌++◌, length, bytes, ◌==◌, if◌then◌else◌}
use leaf_os.Pit.{Ports}
use leaf_os.Testing.{Host, serial_print, Outcome, returned, panicked, Test}
use leaf_os.Testing

pub data QemuExitCode : Type 0 where
  success failed : QemuExitCode

-- `exit_code as u32`.
pub exit_code_u32 : QemuExitCode → ℕ
exit_code_u32 success = 0x10
exit_code_u32 failed = 0x11

module _ (p : Ports) (decimal : ℕ → List ℕ) where
  pub exit_qemu : QemuExitCode → Host p decimal → Host p decimal
  exit_qemu exit_code h = record h { device = p.write 0xf4 (exit_code_u32 exit_code) h.device }

  -- `Testable::run`.
  pub run : Test p decimal → Host p decimal → Outcome p decimal
  run t h = elim (t.call (serial_print p decimal (t.type_name ++ bytes "...\t") h)) [
    | returned h' ↦ returned (serial_print p decimal (bytes "[ok]\n") h')
    | panicked info h' ↦ panicked info h'
  ]

  -- The loop over the tests.
  pub run_all : List (Test p decimal) → Host p decimal → Outcome p decimal
  run_all [] h = returned h
  run_all (t ∷ tests) h = elim (run t h) [
    | returned h' ↦ run_all tests h'
    | panicked info h' ↦ panicked info h'
  ]

  pub test_runner : List (Test p decimal) → Host p decimal → Outcome p decimal
  test_runner tests h =
      elim (run_all tests (
        serial_print p decimal (bytes "Running " ++ decimal (length tests) ++ bytes " tests\n")
          h)) [
            | returned h' ↦ returned (exit_qemu success h')
            | panicked info h' ↦ panicked info h'
          ]

  -- Ends in `hlt_loop`.
  pub panic : List ℕ → Host p decimal → Host p decimal
  panic info h = exit_qemu failed (
      serial_print p decimal (bytes "Error: " ++ info ++ bytes "\n\n")
        (serial_print p decimal (bytes "[failed]\n\n") h))

  -- The test of the file, by its name, with the panic of `assert_eq!`.
  pub trivial_assertion : List ℕ → List ℕ → Test p decimal
  trivial_assertion type_name info = record {
    type_name = type_name;
    call = λ h. if 1 == 1 then returned h else panicked info h;
  }

  run_all-same : (tests : List (Test p decimal)) → run_all tests ≡ Testing.run_all p decimal tests
  unfolding run_all Testing.run_all run Testing.run
  run_all-same [] = refl
  run_all-same (t ∷ tests) =
      ap
        (λ (rest : Host p decimal → Outcome p decimal). λ (h : Host p decimal).
          elim (run t h) as (λ x. Outcome p decimal) [
            | returned h' ↦ rest h'
            | panicked info h' ↦ panicked info h'
          ])
        (run_all-same tests)

  -- The two copies of the test machinery do the same: whatever the tests do, `test_runner` of
  -- src/main.rs ends as that of src/lib.rs does, with the same text sent and the same code written,
  -- and so does the panic handler.
  pub test_runner-same :
      (tests : List (Test p decimal)) (info : List ℕ) (h : Host p decimal)
      → (test_runner tests h ≡ Testing.test_runner p decimal tests h)
        × (panic info h ≡ Testing.test_panic_handler p decimal info h)
  unfolding test_runner panic Testing.test_runner Testing.test_panic_handler exit_qemu
      Testing.exit_qemu exit_code_u32 Testing.exit_code_u32
  test_runner-same tests info h = (
    ap
        (λ (all : Host p decimal → Outcome p decimal).
          elim (all (
              serial_print p decimal
                (bytes "Running " ++ decimal (length tests) ++ bytes " tests\n") h))
            as (λ x. Outcome p decimal) [
              | returned h' ↦ returned (exit_qemu success h')
              | panicked info' h' ↦ panicked info' h'
            ])
        (run_all-same tests),
    refl,
  )
