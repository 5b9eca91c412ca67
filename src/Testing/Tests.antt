-- ===== src/Testing/Tests.antt =====
-- Runs of the test machinery of src/lib.rs.
use leaf_os.Common.{ℕ, ◌+◌, ◌≡◌, refl, arith, some, true, false, List, [], ◌∷◌, bytes}
use leaf_os.Pit.{Ports}
use leaf_os.Shell.{Console}
use leaf_os.Shell.Boot.{Booting}
use leaf_os.Interrupts.Sample.{console}
use leaf_os.Testing.Screen.{test_all, test_all-passes}
use leaf_os.Testing.{test_kernel_main}
use leaf_os.Testing.Verdict.{Silent, tests_of, test_kernel_main-judged}

-- Ports that keep what is written.
abbrev written : Ports
written = record {
  Device = List (ℕ × ℕ);
  write = λ port byte d. (port, byte) ∷ d;
  read = λ port d. (0, d);
}

-- Numbers up to 9.
abbrev digit : ℕ → List ℕ
digit n = (48 + n) ∷ []

abbrev two_tests : List Silent
two_tests =
    record { name = bytes "a"; passes = true; info = [] }
    ∷ record { name = bytes "b"; passes = false; info = bytes "oops" }
    ∷ []

test_kernel_main-judged_example :
    test_kernel_main written digit
      (tests_of written digit two_tests)
      (record { serial = []; device = [] })
    ≡ record {
      serial = bytes "Running 2 tests\na...\t[ok]\nb...\t[failed]\n\nError: oops\n\n";
      device = (0xf4, 0x11) ∷ [];
    }
test_kernel_main-judged_example =
    test_kernel_main-judged written digit two_tests (record { serial = []; device = [] })

test_all-passes_example : (c' : Console) × (test_all console ≡ some c') × Booting console.shell c'
test_all-passes_example =
    test_all-passes console.shell console
      (record { valid = omega arith; off = refl; same_shell = refl })
