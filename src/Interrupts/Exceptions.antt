-- ===== src/Interrupts/Exceptions.antt =====
-- The handlers of src/interrupts.rs for exceptions, with the panic handler of src/main.rs and
-- `hlt_loop` of src/lib.rs.
use leaf_os.Common.{◌∙◌, ◌≢◌, none, ℕ, ◌≡◌, refl, Option, some, List, [], ◌∷◌, ◌++◌, ◌>>=◌, bytes}
use leaf_os.Shell.{Console}
use leaf_os.Shell.Total.{IsValid, Continues, print-Continues}
use leaf_os.Interrupts.{println}
use leaf_os.Interrupts.Table.{
  Exception, breakpoint, overflow, bound_range_exceeded, general_protection_fault, alignment_check,
  divide_error, non_maskable_interrupt, invalid_opcode, device_not_available, segment_not_present,
  stack_segment_fault, security_exception, simd_floating_point, x87_floating_point,
  vmm_communication_exception, virtualization, machine_check, debug, invalid_tss, page_fault,
  double_fault,
}

-- The processor halts for ever, and the console stays as it is.
pub record Halted : Type 0 where
  pub console : Console

pub hlt_loop : Console → Halted
hlt_loop c = record { console = c }

-- What the crates format: a panic with its place, the frame of the exception, its error code as a
-- number and as a page fault's, and the address that was accessed.
pub record Formats : Type 0 where
  pub panic_info : List ℕ → List ℕ
  pub stack_frame : List ℕ
  pub error_code : List ℕ
  pub page_fault_error_code : List ℕ
  pub accessed_address : List ℕ

module _ (f : Formats) where
  open f use {stack_frame, error_code}

  -- `panic!`. `none` is a panic of the panic handler itself.
  pub panic : List ℕ → Console → Option Halted
  panic message c = do c' ← println c (f.panic_info message); some (hlt_loop c')

  -- `alloc_error_handler` of src/lib.rs, with the layout as it is printed.
  pub alloc_error_handler : List ℕ → Console → Option Halted
  alloc_error_handler layout c = panic (bytes "allocation error: " ++ layout) c

  -- The message of the handler of an exception; the page fault's and the machine check's have none.
  pub message : Exception → List ℕ
  message breakpoint = bytes "EXCEPTION: BREAKPOINT\n" ++ stack_frame
  message divide_error = bytes "EXCEPTION: DIVIDE ERROR\n" ++ stack_frame
  message debug = bytes "EXCEPTION: DEBUG\n" ++ stack_frame
  message non_maskable_interrupt = bytes "EXCEPTION: NON MASKABLE INTERRUPT\n" ++ stack_frame
  message overflow = bytes "EXCEPTION: OVERFLOW\n" ++ stack_frame
  message bound_range_exceeded = bytes "EXCEPTION: OOB\n" ++ stack_frame
  message invalid_opcode = bytes "EXCEPTION: INVALID OP CODE\n" ++ stack_frame
  message device_not_available = bytes "EXCEPTION: DEVICE UNAVAILABLE\n" ++ stack_frame
  message invalid_tss =
      bytes "EXCEPTION: INVALID TSS\n" ++ stack_frame ++ bytes "\nERROR CODE: " ++ error_code
  message alignment_check =
      bytes "EXCEPTION: ALIGNMENT ERROR\n" ++ stack_frame ++ bytes "\nERROR CODE: " ++ error_code
  message segment_not_present =
      bytes "EXCEPTION: SEGMENT NOT PRESENT\n"
      ++ stack_frame
      ++ bytes "\nERROR CODE: "
      ++ error_code
  message x87_floating_point = bytes "EXCEPTION: X87 FLOATING POINT ERROR\n" ++ stack_frame
  message simd_floating_point = bytes "EXCEPTION: SIMD FLOATING POINT ERROR\n" ++ stack_frame
  message virtualization = bytes "EXCEPTION: VIRTUALIZATION ERROR\n" ++ stack_frame
  message vmm_communication_exception =
      bytes "EXCEPTION: VMM COMMUNICATION ERROR\n"
      ++ stack_frame
      ++ bytes "\nERROR CODE: "
      ++ error_code
  message security_exception =
      bytes "EXCEPTION: SECURITY ERROR\n" ++ stack_frame ++ bytes "\nERROR CODE: " ++ error_code
  message stack_segment_fault =
      bytes "EXCEPTION: STACK SEGMENTATION FAULT\n"
      ++ stack_frame
      ++ bytes "\nERROR CODE: "
      ++ error_code
  message general_protection_fault =
      bytes "EXCEPTION: GENERAL PROTECTION FAULT\n"
      ++ stack_frame
      ++ bytes "\nError code: "
      ++ error_code
      ++ bytes "\n"
  message double_fault =
      bytes "EXCEPTION: DOUBLE FAULT\n"
      ++ stack_frame
      ++ bytes "\nError code: "
      ++ error_code
      ++ bytes "\n"
  message page_fault = []
  message machine_check = []

  pub page_fault_handler : Console → Option Halted
  page_fault_handler c = do
    c₁ ← println c (bytes "EXCEPTION: PAGE FAULT")
    c₂ ← println c₁ (bytes "Accessed Address: " ++ f.accessed_address)
    c₃ ← println c₂ (bytes "Error Code: " ++ f.page_fault_error_code)
    c₄ ← println c₃ stack_frame
    some (hlt_loop c₄)

  -- The handler that the table has for an exception. The machine check has none.
  pub handle : Exception → Console → Option Halted
  handle page_fault c = page_fault_handler c
  handle machine_check c = none
  handle e c = panic (message e) c

  pub print_lines : Console → List (List ℕ) → Option Console
  print_lines c [] = some c
  print_lines c (line ∷ rest) = do c' ← println c line; print_lines c' rest

  -- What an exception should leave on the console, line by line.
  abbrev pub report : Exception → List (List ℕ)
  report page_fault =
      bytes "EXCEPTION: PAGE FAULT"
      ∷ (bytes "Accessed Address: " ++ f.accessed_address)
      ∷ (bytes "Error Code: " ++ f.page_fault_error_code)
      ∷ stack_frame
      ∷ []
  report e = f.panic_info (message e) ∷ []

  print_lines-Continues :
      (c : Console) (lines : List (List ℕ)) → IsValid c → Continues c (print_lines c lines)
  unfolding print_lines
  print_lines-Continues c [] v = record {
    out = c;
    returns = refl;
    valid = v;
    same_prompt = refl;
    same_enabled = refl;
  }
  print_lines-Continues c (line ∷ rest) v =
      let k = print-Continues c (line ++ b'\n' ∷ []) v in
      let k' = print_lines-Continues k.out rest k.valid in
      record {
        out = k'.out;
        returns = rw k.returns k'.returns;
        valid = k'.valid;
        same_prompt = k'.same_prompt ∙ k.same_prompt;
        same_enabled = k'.same_enabled ∙ k.same_enabled;
      }

  -- A step of a handler that halts in the end.
  bind-hlt_loop :
      (o : Option Console) (rest : Console → Option Console) (halts : Console → Option Halted)
      → ((c : Console) → halts c ≡ (rest c >>= λ c'. some (hlt_loop c')))
      → (o >>= halts) ≡ ((o >>= rest) >>= λ c'. some (hlt_loop c'))
  bind-hlt_loop none rest halts h = refl
  bind-hlt_loop (some c) rest halts h = h c

  panic-report :
      (m : List ℕ) (c : Console)
      → panic m c ≡ (print_lines c (f.panic_info m ∷ []) >>= λ c'. some (hlt_loop c'))
  unfolding panic print_lines
  panic-report m c =
      bind-hlt_loop (println c (f.panic_info m)) (λ c'. some c') (λ c'. some (hlt_loop c'))
        (λ c'. refl)

  page_fault-report :
      (c : Console)
      → page_fault_handler c ≡ (print_lines c (report page_fault) >>= λ c'. some (hlt_loop c'))
  unfolding page_fault_handler print_lines
  page_fault-report c = bind-hlt_loop (println c (bytes "EXCEPTION: PAGE FAULT")) _ _ (λ c₁.
      bind-hlt_loop (println c₁ (bytes "Accessed Address: " ++ f.accessed_address)) _ _ (λ c₂.
        bind-hlt_loop (println c₂ (bytes "Error Code: " ++ f.page_fault_error_code)) _ _
          (λ c₃. bind-hlt_loop (println c₃ stack_frame) _ _ (λ c₄. refl))))

  handle-report :
      (e : Exception) (c : Console)
      → e ≢ machine_check
      → handle e c ≡ (print_lines c (report e) >>= λ c'. some (hlt_loop c'))
  unfolding handle
  handle-report page_fault c h = page_fault-report c
  handle-report machine_check c h = absurd (h refl)
  handle-report breakpoint c h = panic-report (message breakpoint) c
  handle-report overflow c h = panic-report (message overflow) c
  handle-report bound_range_exceeded c h = panic-report (message bound_range_exceeded) c
  handle-report general_protection_fault c h = panic-report (message general_protection_fault) c
  handle-report alignment_check c h = panic-report (message alignment_check) c
  handle-report divide_error c h = panic-report (message divide_error) c
  handle-report non_maskable_interrupt c h = panic-report (message non_maskable_interrupt) c
  handle-report invalid_opcode c h = panic-report (message invalid_opcode) c
  handle-report device_not_available c h = panic-report (message device_not_available) c
  handle-report segment_not_present c h = panic-report (message segment_not_present) c
  handle-report stack_segment_fault c h = panic-report (message stack_segment_fault) c
  handle-report security_exception c h = panic-report (message security_exception) c
  handle-report simd_floating_point c h = panic-report (message simd_floating_point) c
  handle-report x87_floating_point c h = panic-report (message x87_floating_point) c
  handle-report vmm_communication_exception c h =
      panic-report (message vmm_communication_exception) c
  handle-report virtualization c h = panic-report (message virtualization) c
  handle-report debug c h = panic-report (message debug) c
  handle-report invalid_tss c h = panic-report (message invalid_tss) c
  handle-report double_fault c h = panic-report (message double_fault) c

  -- On a valid console every exception but the machine check ends with the processor halted, its
  -- report on the console, and the console valid: no handler returns, and none panics again.
  pub handle-halts :
      (e : Exception) (c : Console)
      → e ≢ machine_check
      → IsValid c
      → (h : Halted) × (handle e c ≡ some h)
        × (print_lines c (report e) ≡ some h.console)
        × IsValid h.console
  unfolding hlt_loop
  handle-halts e c ne v =
      let k = print_lines-Continues c (report e) v in
      (hlt_loop k.out, handle-report e c ne ∙ rw k.returns refl, k.returns, k.valid)
