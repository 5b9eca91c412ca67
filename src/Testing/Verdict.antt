-- ===== src/Testing/Verdict.antt =====
-- What the host of the virtual machine learns from a test build of src/lib.rs.
use leaf_os.Common.{
  ℕ, suc, ◌⊎◌, ◌≡◌, refl, sym, ap, ◌∙◌, Bool, true, List, [], ◌∷◌, ◌++◌, append_assoc, append-nil,
  length, bytes, ◌&&◌, if◌then◌else◌, Bool-cases, inl, inr,
}
use leaf_os.Pit.{Ports}
use leaf_os.Testing.{
  success, exit_code_u32, Host, serial_print, exit_qemu, Outcome, returned, panicked, Test, run,
  run_all, test_runner, test_panic_handler, test_kernel_main,
}

-- A test that sends nothing itself: it passes, or panics with a message.
pub record Silent : Type 0 where
  pub name : List ℕ
  pub passes : Bool
  pub info : List ℕ

abbrev pub all_pass : List Silent → Bool
all_pass [] = true
all_pass (t ∷ tests) = t.passes && all_pass tests

-- What the serial line shows of the tests: each one up to the first that fails, and what that says.
abbrev pub report : List Silent → List ℕ
report [] = []
report (t ∷ tests) =
    t.name
    ++ bytes "...\t"
    ++ (if t.passes
        then bytes "[ok]\n" ++ report tests
        else bytes "[failed]\n\n" ++ bytes "Error: " ++ t.info ++ bytes "\n\n")

module _ (p : Ports) (decimal : ℕ → List ℕ) where
  abbrev pub test_of : Silent → Test p decimal
  test_of t = record {
    type_name = t.name;
    call = λ h. if t.passes then returned h else panicked t.info h;
  }

  abbrev pub tests_of : List Silent → List (Test p decimal)
  tests_of [] = []
  tests_of (t ∷ tests) = test_of t ∷ tests_of tests

  -- The host behind the verdict.
  abbrev pub judged : List Silent → Host p decimal → Host p decimal
  judged tests h = record {
    serial = h.serial ++ report tests;
    device = p.write 0xf4 (if all_pass tests then 0x10 else 0x11) h.device;
  }

  -- `test_runner` behind its first line, with the panic handler behind it.
  abbrev handled : Outcome p decimal → Host p decimal
  handled (returned h) = exit_qemu p decimal success h
  handled (panicked info h) = test_panic_handler p decimal info h

  handled-judged :
      (tests : List Silent) (h : Host p decimal)
      → handled (run_all p decimal (tests_of tests) h) ≡ judged tests h
  unfolding run_all run exit_qemu test_panic_handler exit_code_u32
  handled-judged [] h =
      ap (λ (s : List ℕ). record h { serial = s; device = p.write 0xf4 0x10 h.device })
        (sym (append-nil h.serial))
  handled-judged (t ∷ tests) h = elim (Bool-cases t.passes) [
    | inl e ↦
        let named = serial_print p decimal (t.name ++ bytes "...\t") h in
        rw e (
          handled-judged tests (serial_print p decimal (bytes "[ok]\n") named)
          ∙ ap (λ (s : List ℕ). record h { serial = s; device = (judged tests h).device })
              (simp append_assoc))
    | inr e ↦ rw e (
        ap (λ (s : List ℕ). record h { serial = s; device = p.write 0xf4 0x11 h.device })
          (simp append_assoc))
  ]

  length-tests_of : (tests : List Silent) → length (tests_of tests) ≡ length tests
  length-tests_of [] = refl
  length-tests_of (t ∷ tests) = ap suc (length-tests_of tests)

  Outcome-cases :
      (o : Outcome p decimal)
      → ((h : Host p decimal) × (o ≡ returned h))
        ⊎ ((info : List ℕ) × (h : Host p decimal) × (o ≡ panicked info h))
  Outcome-cases (returned h) = inl (h, refl)
  Outcome-cases (panicked info h) = inr (info, h, refl)

  abbrev pub started : ℕ → Host p decimal → Host p decimal
  started n h = serial_print p decimal (bytes "Running " ++ decimal n ++ bytes " tests\n") h

  test_kernel_main-handled :
      (tests : List (Test p decimal)) (h : Host p decimal)
      → test_kernel_main p decimal tests h
        ≡ handled (run_all p decimal tests (started (length tests) h))
  unfolding test_kernel_main test_runner
  test_kernel_main-handled tests h =
      elim (Outcome-cases (run_all p decimal tests (started (length tests) h))) [
        | inl (h', e) ↦ rw (e, test_kernel_main) refl
        | inr (info, h', e) ↦ rw (e, test_kernel_main) refl
      ]

  -- The host of the virtual machine learns the verdict, for tests that use neither the serial line
  -- nor the ports themselves: one code is written to port 0xf4, 0x10 if every test passes and 0x11 if
  -- not, and the serial line shows the number of tests and then each test up to the first that
  -- fails, with the message of that one.
  pub test_kernel_main-judged :
      (tests : List Silent) (h : Host p decimal)
      → test_kernel_main p decimal (tests_of tests) h ≡ judged tests (started (length tests) h)
  test_kernel_main-judged tests h =
      test_kernel_main-handled (tests_of tests) h
      ∙ ap (λ (n : ℕ). handled (run_all p decimal (tests_of tests) (started n h)))
          (length-tests_of tests)
      ∙ handled-judged tests (started (length tests) h)
