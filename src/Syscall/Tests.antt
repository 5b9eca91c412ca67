-- ===== src/Syscall/Tests.antt =====
-- Runs of system calls of src/syscall.rs.
use leaf_os.Common.{leb, ◌∷◌, ◌++◌, ℕ, ◌≤◌, ◌≡◌, ◌≢◌, refl, true, some, [], arith}
use leaf_os.Vga.{screen_char}
use leaf_os.Shell.{Console, print}
use leaf_os.Scheduler.{Memory}
use leaf_os.Scheduler.Context.{rax, rdi, Registers, set_reg}
use leaf_os.Syscall.{
  load, string_from, Machine, syscall_handler, do_syscall_3, write_result, error_code,
}
use leaf_os.Syscall.Processes.{test_fn, print_times, test_fn-print_times}
use leaf_os.Shell.Total.{IsValid}
use leaf_os.Common.{bytes, get_or, ◌≤◌, ◌-◌}
use leaf_os.Syscall.{read_bytes}
use leaf_os.Syscall.Laws.{write_operands, syscall_handler-write, do_syscall_3-write}

abbrev console : Console
console = record {
  shell = record {
    prompt = record { chars = []; curr_color = 0x0f };
    written_char_count = 0;
    prompt_enabled = true;
  };
  writer = record { column_position = 0; color_code = 0x0e; buffer = λ r c. screen_char b' ' 0x0e };
  initialized = true;
}

-- A machine whose registers all hold the same number.
abbrev machine : ℕ → Machine
machine n = record {
  registers = λ r. n;
  rsp = 4096;
  memory = λ a. 0;
  console = console;
  interrupts_enabled = true;
  acknowledged = [];
  scratch = λ r. 77;
  heap = λ size. leb size 4096;
}

abbrev letters : ℕ → ℕ
letters a = b'A'

do_syscall_3-write_example :
    (c : Console) × (m : Memory) × (do_syscall_3 letters (machine 9) 1 1 0 3
      ≡ some (
        record (machine 9) {
          registers = (load (machine 9) (write_operands 1 0 3)).registers;
          memory = m;
          console = c;
          acknowledged = 128 ∷ [];
        },
        1,
      ))
    × (◌≡◌ {A = ℕ} 1 1 → print console (read_bytes letters 0 3 ++ b'\n' ∷ []) ≡ some c)
    × (◌≢◌ {A = ℕ} 1 1 → c ≡ console)
    × ((a : ℕ) → 4096 ≤ a → m a ≡ 0)
unfolding string_from
do_syscall_3-write_example =
    do_syscall_3-write letters (machine 9) 3960 1 0 3 refl (omega arith) refl

-- A machine that asks for `write` to a descriptor that is not the standard output.
abbrev writing : Machine
unfolding set_reg leaf_os.Scheduler.Context.reg_index
writing = record (machine 1) { registers = set_reg (λ r. 1) rdi 2 }

refused : write_result letters writing.heap (writing.registers rdi) 1 1 console ≡ some (console, 5)
unfolding write_result error_code writing
refused = refl

syscall_handler-write_example :
    (m : Memory) × (syscall_handler letters writing
      ≡ some (record writing { memory = m; acknowledged = 128 ∷ [] }))
    × ((a : ℕ) → 4096 ≤ a → m a ≡ 0)
unfolding writing
syscall_handler-write_example =
    syscall_handler-write letters writing 3960 console 5 refl refl refused

-- The text of `test_fn`, at address 500.
abbrev test_text : ℕ → ℕ
test_text a = get_or (bytes "TESTeee!") (a - 500) 0

test_text-bytes : read_bytes test_text 500 8 ≡ bytes "TESTeee!"
unfolding read_bytes
test_text-bytes = refl

test_fn-print_times_example :
    (k' : Machine) × (test_fn test_text 500 3 (machine 9) ≡ some k')
    × (print_times 3 (bytes "TESTeee!\n") console ≡ some k'.console)
    × IsValid k'.console
    × (k'.rsp ≡ 4096)
    × ((a : ℕ) → 4096 ≤ a → k'.memory a ≡ 0)
test_fn-print_times_example =
    test_fn-print_times test_text 500 3960 3 (machine 9) test_text-bytes refl refl (omega arith)
