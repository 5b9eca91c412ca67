-- ===== src/Startup/Points.antt =====
-- The points that `kernel_main` of src/main.rs passes on its way, from the start of the timer on.
use leaf_os.Common.{◌∙◌, sym, subst, ◌≤◌, ◌≡◌, refl, false, none, some, length, bytes, bind-returns}
use leaf_os.Vga.{buffer_width}
use leaf_os.Shell.Boot.{Booting}
use leaf_os.Events.{event_handlers_new}
use leaf_os.Scheduler.{ProcessState, scheduler_new}
use leaf_os.Interrupts.Early.{take_interrupts-Quiet}
use leaf_os.Interrupts.Table.{HandlesDevices, init_idt-HandlesDevices}
use leaf_os.Interrupts.Measure.{Measured}
use leaf_os.Startup.{Boot, World, init, scheduler_init, until_timer}
use leaf_os.Startup.Steps.{CanStart, print_line-Booting, setup-mapped, timer-started}

-- Nothing has run yet.
pub record Fresh (b : Boot) (w : World b) : Type 0 where
  pub booting : Booting w.system.console.shell w.system.console
  pub no_handlers : w.system.event_handlers ≡ event_handlers_new b.hardware.keyboard
  pub none_typed : w.system.console.shell.written_char_count ≡ 0
  pub prompt_fits : length w.system.console.shell.prompt.chars ≤ buffer_width
  pub no_processes : w.kernel.scheduler ≡ scheduler_new
  pub no_task : w.kernel.task ≡ none
  pub no_turn : w.kernel.initialized ≡ false
  pub not_triggered : w.system.triggered_once ≡ false

module _ (b : Boot) where
  open b use {hardware}

  -- The timer runs, the void task is made, and the shell has not started.
  pub record Timed (w w' : World b) : Type 0 where
    pub returns : until_timer b w ≡ some w'
    pub measured : Measured hardware w.system.console.shell w'.system
    pub void_state : ProcessState
    pub kernel : w'.kernel ≡ record w.kernel { void_task = some void_state }

  pub until_timer-Timed : (w : World b) → CanStart b → Fresh b w → (w' : World b) × Timed w w'
  unfolding until_timer init scheduler_init
  until_timer-Timed w can fresh =
      let shell = w.system.console.shell in
      let (c₁, line₁, booting₁, _) =
        print_line-Booting b shell w (bytes "Initializing...") fresh.booting in
      let w₁ = record w { system = record w.system { console = c₁ } } in
      let (c₂, line₂, booting₂, _) =
        print_line-Booting b shell (init b w₁) (bytes "Initialization succeeded!") booting₁ in
      let w₂ = record (init b w₁) { system = record (init b w₁).system { console = c₂ } } in
      let (heap, mapped) = setup-mapped b w₂ can in
      let w₄ = scheduler_init b (record w₂ { heap = some heap }) in
      let handles = init_idt-HandlesDevices w.system.idt in
      let (s₅, taken, quiet) =
        take_interrupts-Quiet hardware b.early w₄.system can.early_lines handles.0 refl in
      let (s₆, machine, s₇, measured, timer_set, timer_started, m₇) =
        timer-started b shell s₅ can (quiet.event_handlers ∙ fresh.no_handlers)
          (subst (λ c. Booting shell c) (sym quiet.console) booting₂)
          (subst HandlesDevices (sym quiet.idt) handles) quiet.enabled
          (quiet.triggered ∙ fresh.not_triggered) in
      (
        record w₄ { system = s₇ },
        record {
          returns = bind-returns _ line₁ (
              bind-returns _ line₂ (
                bind-returns _ mapped (
                  bind-returns _ (bind-returns _ taken refl) (
                    bind-returns _ (bind-returns _ measured refl)
                      (bind-returns _ timer_set (bind-returns _ timer_started refl))))));
          measured = m₇;
          void_state = _;
          kernel = refl;
        },
      )
