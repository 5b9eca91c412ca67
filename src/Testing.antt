-- ===== src/Testing.antt =====
-- The test machinery of src/lib.rs: `Testable`, `test_runner`, the panic handler of a test build, and
-- the port that ends the virtual machine. What a test does and what the ports do are parameters; the
-- serial line of src/serial.rs is the text that was sent.
pub mod Main
pub mod Screen
pub mod Verdict
mod Tests
use leaf_os.Common.{ℕ, List, [], ◌∷◌, ◌++◌, length, bytes}
use leaf_os.Pit.{Ports}

pub data QemuExitCode : Type 0 where
  success failed : QemuExitCode

-- `exit_code as u32`.
unfoldable pub exit_code_u32 : QemuExitCode → ℕ
exit_code_u32 success = 0x10
exit_code_u32 failed = 0x11

module _ (p : Ports) (decimal : ℕ → List ℕ) where
  pub record Host : Type 0 where
    pub serial : List ℕ
    pub device : p.Device

  abbrev pub serial_print : List ℕ → Host → Host
  serial_print text h = record h { serial = h.serial ++ text }

  pub exit_qemu : QemuExitCode → Host → Host
  exit_qemu exit_code h = record h { device = p.write 0xf4 (exit_code_u32 exit_code) h.device }

  -- A call that returns, or panics with what its `PanicInfo` prints.
  pub data Outcome : Type 0 where
    returned : Host → Outcome
    panicked : List ℕ → Host → Outcome

  -- A test function, by its name.
  pub record Test : Type 0 where
    pub type_name : List ℕ
    pub call : Host → Outcome

  -- `Testable::run`.
  pub run : Test → Host → Outcome
  run t h = elim (t.call (serial_print (t.type_name ++ bytes "...\t") h)) [
    | returned h' ↦ returned (serial_print (bytes "[ok]\n") h')
    | panicked info h' ↦ panicked info h'
  ]

  -- The loop over the tests.
  pub run_all : List Test → Host → Outcome
  run_all [] h = returned h
  run_all (t ∷ tests) h = elim (run t h) [
    | returned h' ↦ run_all tests h'
    | panicked info h' ↦ panicked info h'
  ]

  pub test_runner : List Test → Host → Outcome
  test_runner tests h =
      elim (run_all tests
        (serial_print (bytes "Running " ++ decimal (length tests) ++ bytes " tests\n") h)) [
          | returned h' ↦ returned (exit_qemu success h')
          | panicked info h' ↦ panicked info h'
        ]

  -- Ends in `hlt_loop`.
  pub test_panic_handler : List ℕ → Host → Host
  test_panic_handler info h = exit_qemu failed (
      serial_print (bytes "Error: " ++ info ++ bytes "\n\n")
        (serial_print (bytes "[failed]\n\n") h))

  -- `test_kernel_main` behind `init`, up to its `hlt_loop` or that of the panic handler.
  pub test_kernel_main : List Test → Host → Host
  test_kernel_main tests h = elim (test_runner tests h) [
    | returned h' ↦ h'
    | panicked info h' ↦ test_panic_handler info h'
  ]
