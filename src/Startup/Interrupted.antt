-- ===== src/Startup/Interrupted.antt =====
-- The scheduler's first timer interrupt comes in before `kernel_main` of src/main.rs is done.
use leaf_os.Common.{
  ℕ, ◌≡◌, refl, ap, ◌∙◌, Option, some, List, bytes, bind-returns, none, true, false,
}
use leaf_os.Events.{event_handlers_new}
use leaf_os.Shell.{Console}
use leaf_os.Scheduler.{Kernel, ProcessState, Task}
use leaf_os.Scheduler.Turn.{IsReady, turns}
use leaf_os.Scheduler.Turn.Void.{turns-unresumed}
use leaf_os.Startup.{
  Boot, World, start_proc, until_timer, until_first, until_second, until_announced, until_shell,
}
use leaf_os.Startup.Steps.{CanStart, print_line-Booting, shell-started}
use leaf_os.Startup.Points.{Fresh, Timed, until_timer-Timed}

-- Where the interrupt finds `kernel_main`: behind the start of the timer, of the first process, of
-- the second one, behind the last line that it prints, or behind the shell's prompt.
pub data Point : Type 0 where
  timer_started first_started second_started announced shell_shown : Point

abbrev pub until : (b : Boot) → Point → World b → Option (World b)
until b timer_started w = until_timer b w
until b first_started w = until_first b w
until b second_started w = until_second b w
until b announced w = until_announced b w
until b shell_shown w = until_shell b w

-- No task runs, no turn was taken, the void task is made, and no handler for keys is registered.
record Unheard (b : Boot) (w : World b) : Type 0 where
  no_task : w.kernel.task ≡ none
  no_turn : w.kernel.initialized ≡ false
  ready : IsReady w.kernel
  no_handlers : w.system.event_handlers ≡ event_handlers_new b.hardware.keyboard

module _ (b : Boot) where
  Timed-Unheard : (w w' : World b) → Fresh b w → Timed b w w' → Unheard b w'
  Timed-Unheard w w' fresh timed = record {
    no_task = ap (λ k. k.task) timed.kernel ∙ fresh.no_task;
    no_turn = ap (λ k. k.initialized) timed.kernel ∙ fresh.no_turn;
    ready = record { state = timed.void_state; made = ap (λ k. k.void_task) timed.kernel };
    no_handlers = timed.measured.measuring.no_handlers;
  }

  Unheard-process :
      (n target : ℕ) (w : World b) → Unheard b w → Unheard b (start_proc b n target true w)
  unfolding start_proc
  Unheard-process n target w u = record {
    no_task = u.no_task;
    no_turn = u.no_turn;
    ready = record { state = u.ready.state; made = u.ready.made };
    no_handlers = u.no_handlers;
  }

  Unheard-console :
      (w : World b) (c : Console)
      → Unheard b w
      → Unheard b (record w { system = record w.system { console = c } })
  Unheard-console w c u = record {
    no_task = u.no_task;
    no_turn = u.no_turn;
    ready = record { state = u.ready.state; made = u.ready.made };
    no_handlers = u.no_handlers;
  }

  abbrev Reaches : World b → Point → Type 0
  Reaches w point = (out : World b) × (until b point w ≡ some out) × Unheard b out

  all-Reaches :
      (w : World b)
      → CanStart b
      → Fresh b w
      → Reaches w timer_started
        × Reaches w first_started
        × Reaches w second_started
        × Reaches w announced
        × Reaches w shell_shown
  unfolding until_first until_second until_announced until_shell start_proc
  all-Reaches w can fresh =
      let shell = w.system.console.shell in
      let (w₇, timed) = until_timer-Timed b w can fresh in
      let u₇ = Timed-Unheard w w₇ fresh timed in
      let w₇' = start_proc b 0 b.test_fn true w₇ in
      let u₇' = Unheard-process 0 b.test_fn w₇ u₇ in
      let first : until_first b w ≡ some w₇' = bind-returns _ timed.returns refl in
      let w₈ = start_proc b 1 b.test_fn_hello true w₇' in
      let u₈ = Unheard-process 1 b.test_fn_hello w₇' u₇' in
      let second : until_second b w ≡ some w₈ = bind-returns _ first refl in
      let (c₉, line₉, booting₉, home₉) =
        print_line-Booting b shell w₈ (bytes "Startup succeeded!")
          timed.measured.measuring.booting in
      let line = bind-returns _ second line₉ in
      let (c, prompted, on, editing) =
        shell-started b shell c₉ booting₉ home₉ fresh.none_typed fresh.prompt_fits in
      (
        (w₇, timed.returns, u₇),
        (w₇', first, u₇'),
        (w₈, second, u₈),
        (_, line, Unheard-console w₈ c₉ u₈),
        (_, bind-returns _ line (bind-returns _ prompted refl), Unheard-console w₈ c u₈),
      )

  until-Reaches : (point : Point) (w : World b) → CanStart b → Fresh b w → Reaches w point
  until-Reaches timer_started w can fresh = (all-Reaches w can fresh).0
  until-Reaches first_started w can fresh = (all-Reaches w can fresh).1
  until-Reaches second_started w can fresh = (all-Reaches w can fresh).2
  until-Reaches announced w can fresh = (all-Reaches w can fresh).3
  until-Reaches shell_shown w can fresh = (all-Reaches w can fresh).4

-- If the scheduler's first timer interrupt finds `kernel_main` between two of its steps, behind the
-- start of the timer, of the first process or of the second one, behind its last line or behind the
-- shell's prompt, on a machine that can start and on which nothing had run, then `kernel_main` is
-- not resumed: whatever its stack pointer is, this turn and the later ones do not panic, resume the
-- same states, and leave kernels that agree in all but the void task. No handler for keys is
-- registered at that time.
pub kernel_main-interrupted :
    (b : Boot) (w : World b) (point : Point) (fresh_task : Task) (rsp rsp' : ℕ) (rsps : List ℕ)
    → CanStart b
    → Fresh b w
    → (w' : World b) × (until b point w ≡ some w')
      × ((out : Kernel) × (out' : Kernel) × (state : ProcessState) × (turns fresh_task w'.kernel rsp
              rsps
            ≡ some (out, state))
          × (turns fresh_task w'.kernel rsp' rsps ≡ some (out', state))
          × (out' ≡ record out { void_task = out'.void_task }))
      × (w'.system.event_handlers ≡ event_handlers_new b.hardware.keyboard)
kernel_main-interrupted b w point fresh_task rsp rsp' rsps can fresh =
    let (w', returns, u) = until-Reaches b point w can fresh in
    (
      w',
      returns,
      turns-unresumed fresh_task w'.kernel rsp rsp' rsps u.ready u.no_task u.no_turn,
      u.no_handlers,
    )
