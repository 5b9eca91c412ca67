-- ===== src/Startup/Ready.antt =====
-- What the start of the kernel in src/main.rs leaves: a listening shell behind its prompt, and two
-- processes for the scheduler.
use mathlib.Core.Option.{some-injective}
use leaf_os.Common.{
  sym, subst, ℕ, ◌≡◌, ◌∙◌, refl, ap, none, some, [], ◌∷◌, length, true, bytes, bind-returns, arith,
}
use leaf_os.Shell.Typing.{Editing}
use leaf_os.Scheduler.Queue.{start_process-twice}
use leaf_os.Events.{init_kb_handler}
use leaf_os.Scheduler.{
  Memory, process_state_new, Kernel, ProcessState, process_new, runnable, scheduler_new,
}
use leaf_os.Scheduler.Context.{Registers, resume}
use leaf_os.Scheduler.FirstFrame.{resume-process_state_new}
use leaf_os.Interrupts.Table.{apic_timer_handler}
use leaf_os.Interrupts.Keys.{Listening}
use leaf_os.Startup.{
  Boot, World, start_proc, until_first, until_second, until_announced, until_shell, kernel_main,
}
use leaf_os.Startup.Steps.{CanStart, print_line-Booting, shell-started}
use leaf_os.Startup.Points.{Fresh, until_timer-Timed}

-- The two processes wait, and the scheduler can take a turn.
pub record Scheduled (k : Kernel) : Type 0 where
  pub first : ProcessState
  pub second : ProcessState
  pub void_state : ProcessState
  pub tasks : k.scheduler ≡ record {
    tasks = (process_new 1 runnable, first) ∷ (process_new 2 runnable, second) ∷ [];
    task_id = 2;
  }
  pub no_task : k.task ≡ none
  pub void_made : k.void_task ≡ some void_state

module _ (b : Boot) where
  open b use {hardware}

  -- What `ProcessState::new` makes for `test_fn`, and then for `test_fn_hello`.
  abbrev pub made_first : Memory → ProcessState × Memory
  made_first m =
      process_state_new (record { addr = b.kernel_box 0; size = 4096 })
        (record { addr = b.user_box 0; size = 4096 }) true b.test_fn m

  abbrev pub made_second : Memory → ProcessState × Memory
  made_second m =
      process_state_new (record { addr = b.kernel_box 1; size = 4096 })
        (record { addr = b.user_box 1; size = 4096 }) true b.test_fn_hello (made_first m).1

  -- Memory and the two states are as they were made, on top of some memory.
  pub record Made (w : World b) (first second : ProcessState) : Type 0 where
    pub before : Memory
    pub first_made : first ≡ (made_first before).0
    pub second_made : second ≡ (made_second before).0
    pub memory : w.memory ≡ (made_second before).1

  tasks-started :
      (w : World b) (v : ProcessState)
      → w.kernel.scheduler ≡ scheduler_new
      → w.kernel.task ≡ none
      → w.kernel.void_task ≡ some v
      → (s : Scheduled
          (start_proc b 1 b.test_fn_hello true (start_proc b 0 b.test_fn true w)).kernel)
        × ((regs : Registers)
            → (resume s.second.kernel_rsp
                (start_proc b 1 b.test_fn_hello true (start_proc b 0 b.test_fn true w)).memory
                regs).1.rip
              ≡ b.test_fn_hello)
        × Made
            (start_proc b 1 b.test_fn_hello true (start_proc b 0 b.test_fn true w))
            s.first
            s.second
  unfolding start_proc
  tasks-started w v no_processes no_task void_made = (
    record {
      first = _;
      second = _;
      void_state = v;
      tasks = start_process-twice w.kernel.scheduler _ _ no_processes;
      no_task = no_task;
      void_made = void_made;
    },
    λ regs.
        ap (λ r. r.1.rip)
          (resume-process_state_new (record { addr = b.kernel_box 1; size = 4096 })
            (record { addr = b.user_box 1; size = 4096 }) true b.test_fn_hello _ (omega arith)
            regs),
    record { before = w.memory; first_made = refl; second_made = refl; memory = refl },
  )

  -- What `kernel_main` leaves: the shell's prompt stands alone on a blank row, the keyboard's
  -- handler is registered, the timer's interrupt is the scheduler's, and the processes wait.
  pub record Ready (prompt_length : ℕ) (w : World b) : Type 0 where
    pub editing : Editing prompt_length w.system.console.writer.buffer [] w.system.console
    pub listening : Listening hardware w.system
    pub scheduling :
        w.system.idt 33 ≡ some (record { handler = apic_timer_handler; stack_index = none })
    pub scheduled : Scheduled w.kernel
    pub entry :
        (regs : Registers)
        → (resume scheduled.second.kernel_rsp w.memory regs).1.rip ≡ b.test_fn_hello
    pub made : Made w scheduled.first scheduled.second

  -- The kernel starts: `kernel_main` reaches `hlt_loop` without a panic, on a machine that can
  -- start and on which nothing has run, with a prompt that fits on a row, if no interrupt comes in
  -- but those of the interval timer before `init_apic` and those during its wait. Then the shell
  -- stands behind its prompt with its handler for keys registered, the timer's interrupt is the
  -- scheduler's, and the two processes wait, numbered 1 and 2, of which the second one would begin
  -- `test_fn_hello`.
  pub kernel_main-Ready :
      (w : World b)
      → CanStart b
      → Fresh b w
      → (w' : World b) × (kernel_main b w ≡ some w')
        × Ready (length w.system.console.shell.prompt.chars) w'
  unfolding kernel_main until_first until_second until_announced until_shell start_proc
  kernel_main-Ready w can fresh =
      let shell = w.system.console.shell in
      let (w₇, timed) = until_timer-Timed b w can fresh in
      let w₈ = start_proc b 1 b.test_fn_hello true (start_proc b 0 b.test_fn true w₇) in
      let tasks =
        tasks-started w₇ timed.void_state (ap (λ k. k.scheduler) timed.kernel ∙ fresh.no_processes)
          (ap (λ k. k.task) timed.kernel ∙ fresh.no_task) (ap (λ k. k.void_task) timed.kernel) in
      let (c₉, line₉, booting₉, home₉) =
        print_line-Booting b shell w₈ (bytes "Startup succeeded!")
          timed.measured.measuring.booting in
      let (c, prompted, on, editing) =
        shell-started b shell c₉ booting₉ home₉ fresh.none_typed fresh.prompt_fits in
      let started : until_first b w ≡ some (start_proc b 0 b.test_fn true w₇) =
        bind-returns _ timed.returns refl in
      let both : until_second b w ≡ some w₈ = bind-returns _ started refl in
      let announced = bind-returns _ both line₉ in
      (
        record w₈ {
          system = record w₈.system {
            console = c;
            event_handlers = init_kb_handler hardware.keyboard w₈.system.event_handlers;
          };
        },
        bind-returns _ (bind-returns _ announced (bind-returns _ prompted refl)) refl,
        record {
          editing = editing;
          listening = record {
            handlers =
                ap (λ hs. init_kb_handler hardware.keyboard hs)
                  timed.measured.measuring.no_handlers;
            has_shell = on;
          };
          scheduling = timed.measured.scheduling;
          scheduled = tasks.0;
          entry = tasks.1;
          made = record {
            before = tasks.2.before;
            first_made = tasks.2.first_made;
            second_made = tasks.2.second_made;
            memory = tasks.2.memory;
          };
        },
      )

-- What `kernel_main` has come to is ready.
pub started-Ready :
    (b : Boot) (w w' : World b)
    → CanStart b
    → Fresh b w
    → kernel_main b w ≡ some w'
    → Ready b (length w.system.console.shell.prompt.chars) w'
started-Ready b w w' can fresh starts =
    let (out, returns, ready) = kernel_main-Ready b w can fresh in
    subst (λ x. Ready b (length w.system.console.shell.prompt.chars) x)
      (some-injective out w' (sym returns ∙ starts)) ready
