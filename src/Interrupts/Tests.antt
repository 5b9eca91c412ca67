-- ===== src/Interrupts/Tests.antt =====
-- Runs of src/interrupts.rs.
use leaf_os.Common.{
  none, false, inl, inr, List, All, ◌≤◌, ℕ, ◌≡◌, refl, true, Option, some, [], ◌∷◌, ◌++◌, map,
  bytes, arith,
}
use leaf_os.Shell.Total.{IsValid}
use leaf_os.Shell.Rows.{Wrapped, Editing-Wrapped}
use leaf_os.Interrupts.Typing.{keyboard_interrupts-Wrapped}
use leaf_os.Shell.Typing.{press, edit_all, key_of, Editing}
use leaf_os.Events.{init_kb_handler, event_handlers_new}
use leaf_os.Interrupts.{System, Arrival, Round, wait_triggered, decode}
use leaf_os.Interrupts.Table.{page_fault, not_machine_check}
use leaf_os.Interrupts.Exceptions.{Formats, Halted, handle, print_lines, report, handle-halts}
use leaf_os.Interrupts.Keys.{Listening, decoded, keyboard_interrupts, acknowledged_times}
use leaf_os.Interrupts.{measured_frequency, restart_apic}
use leaf_os.Interrupts.Restart.{restart_apic-runs}
use leaf_os.Common.{◌<◌}
use leaf_os.Interrupts.Wait.{Clock, IsArrival, IsRound, Waiting, wait_triggered-returns}
use leaf_os.Interrupts.Table.{init_idt, init_idt-HandlesDevices}
use leaf_os.Interrupts.Sample.{keyboard, hardware, console, system}

abbrev formats : Formats
formats = record {
  panic_info = λ message. bytes "panicked: " ++ message;
  stack_frame = bytes "frame";
  error_code = bytes "2";
  page_fault_error_code = bytes "USER";
  accessed_address = bytes "0x0";
}

handle-halts_example :
    (h : Halted) × (handle formats page_fault console ≡ some h)
    × (print_lines formats console (report formats page_fault) ≡ some h.console)
    × IsValid h.console
handle-halts_example =
    handle-halts formats page_fault console (not_machine_check page_fault refl) (omega arith)

-- The shell behind its prompt, and two keys waiting.
abbrev listening : System hardware
listening = record system {
  console = record console {
    writer = record console.writer { column_position = 2 };
    initialized = true;
  };
  event_handlers = init_kb_handler keyboard (event_handlers_new keyboard);
}

listening-Listening : Listening hardware listening
listening-Listening = record { handlers = refl; has_shell = refl }

listening-Editing : Editing 2 listening.console.writer.buffer [] listening.console
listening-Editing = record {
  count = refl;
  cursor = refl;
  shows = tt;
  blanks = λ col lo hi. refl;
  prompt = λ col lt. refl;
  rows = λ row col lt. refl;
}

two_keys :
    decoded hardware 2 listening.machine listening.decoder
    ≡ map (key_of keyboard) (press b'h' ∷ press b'o' ∷ [])
unfolding decoded decode
two_keys = refl

keyboard_interrupts-Wrapped_example :
    (s' : System hardware) × (keyboard_interrupts hardware 2 listening ≡ some s')
    × Wrapped 2 0 listening.console.writer.buffer (b'o' ∷ b'h' ∷ []) s'.console
    × ◌≡◌ {A = Option ℕ × ℕ} (s'.lapic, s'.pics) (some 2, 0)
    × Listening hardware s'
unfolding edit_all acknowledged_times
keyboard_interrupts-Wrapped_example =
    keyboard_interrupts-Wrapped hardware 2 0 listening.console.writer.buffer 2 listening []
      (press b'h' ∷ press b'o' ∷ []) (omega arith) listening-Listening
      (Editing-Wrapped 0 listening-Editing (omega arith)) two_keys (refl, (refl, tt)) (omega arith)

-- The timer of this machine shows one count all the time.
clock : Clock hardware
clock = record { Loaded = λ d. Unit {0}; Running = λ d. Unit {0}; keeps = λ d running. tt }

abbrev arrival : ℕ → Arrival hardware
arrival n = record { meanwhile = λ d. d; vector = n }

comes : (n : ℕ) → 32 ≤ n → n ≤ 36 → IsArrival hardware clock (arrival n)
unfolding clock
comes n lo hi = (lo, hi, λ d timer. tt)

abbrev waiting : System hardware
waiting = record system { idt = init_idt (λ n. none) }

waiting-Waiting : Waiting hardware console.shell clock waiting
waiting-Waiting = record {
  measuring = record {
    lapic = 0;
    has_lapic = refl;
    no_handlers = refl;
    booting = record { valid = omega arith; off = refl; same_shell = refl };
  };
  handles = init_idt-HandlesDevices (λ n. none);
  enabled = refl;
}

-- The error handler's interrupt and the timer's come in before the processor halts, and the
-- keyboard's wakes it.
abbrev rounds : List (Round hardware)
rounds = record { missed = arrival 34 ∷ arrival 33 ∷ []; waking = arrival 36 } ∷ []

rounds-IsRound : All (IsRound hardware clock) rounds
rounds-IsRound = (
  (
    (comes 34 (omega arith) (omega arith), (comes 33 (omega arith) (omega arith), tt)),
    comes 36 (omega arith) (omega arith),
  ),
  tt,
)

loaded : clock.Loaded waiting.machine.device
unfolding clock
loaded = tt

wait_triggered-returns_example :
    (s' : System hardware) × (wait_triggered hardware rounds waiting ≡ some s')
    × (s'.triggered_once ≡ true)
    × Waiting hardware console.shell clock s'
    × (waiting.triggered_once ≡ false → clock.Running s'.machine.device)
wait_triggered-returns_example =
    wait_triggered-returns hardware console.shell clock rounds waiting waiting-Waiting (inl loaded)
      rounds-IsRound (inl (inl (inr (inl refl))))

-- The interval timer came down by 5000 while the timer was measured.
abbrev running : System hardware
running = record system { apic_timer_frequency = 15511366 }

running_measured : measured_frequency 60535 ≡ some running.apic_timer_frequency
unfolding measured_frequency
running_measured = refl

restart_apic-runs_example :
    (count : ℕ) × (0 < count)
    × (restart_apic hardware running ≡ some (record running { lapic = some 1 }))
restart_apic-runs_example = restart_apic-runs hardware running 0 60535 refl running_measured
