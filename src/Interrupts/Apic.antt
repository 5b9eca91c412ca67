-- ===== src/Interrupts/Apic.antt =====
-- The measurement of the local APIC's timer in src/interrupts.rs.
use leaf_os.Common.{
  ◌⊎◌, ℕ, ◌-◌, ◌*◌, ◌/◌, ◌^◌, ◌≤◌, ◌<◌, ◌≡◌, refl, true, inl, inr, Option, some, List, ◌>>=◌, arith,
  ne→==,
}
use native.Mathlib.Nat.{div-lt_iff_lt-mul, le-div_iff_mul-le}
use leaf_os.Shell.{Shell}
use leaf_os.Shell.Boot.{Booting, print-Booting}
use leaf_os.Events.{event_handlers_new}
use leaf_os.Interrupts.{
  println, Hardware, System, end_of_interrupt, on_lapic, timer_delay, measured_frequency,
  timer_initial, keyboard_interrupt_handler, apic_timer_config_handler,
}
use leaf_os.Interrupts.Keys.{acknowledge, end_of_interrupt-acknowledge, scanned}
use leaf_os.Interrupts.Ignored.{keyboard_interrupt_handler-ignored}

-- Before the interval timer has come down by half of its range, the quotient is 1: the timer is
-- then taken to run at 1193182 Hz, whatever was measured, and a delay of `us` microseconds that
-- fits its register is a count of `us`.
pub measured_frequency-coarse :
    (end_count us : ℕ)
    → end_count ≤ 32767
    → us < 2 ^ 32
    → (measured_frequency end_count ≡ some 1193182) × (timer_initial 1193182 us ≡ us)
unfolding measured_frequency timer_initial
measured_frequency-coarse end_count us half small =
    let left = timer_delay - end_count in
    let positive : 0 < left = omega arith in
    let twice : timer_delay < 2 * left = omega arith in
    let once : 1 * left ≤ timer_delay = omega arith in
    let below : timer_delay / left < 2 = (div-lt_iff_lt-mul positive).1 twice in
    let above : 1 ≤ timer_delay / left = (le-div_iff_mul-le positive).1 once in
    let one : timer_delay / left ≡ 1 = omega arith in
    (rw (ne→== left 0 (omega arith), one) refl, omega arith)

-- While the timer is measured: the local APIC is there, no handler for keys, and the shell has
-- not started.
pub record Measuring (h : Hardware) (shell : Shell) (s : System h) : Type 0 where
  pub lapic : h.Lapic
  pub has_lapic : s.lapic ≡ some lapic
  pub no_handlers : s.event_handlers ≡ event_handlers_new h.keyboard
  pub booting : Booting shell s.console

-- Serving an interrupt keeps the measurement going.
pub record Served (h : Hardware) (shell : Shell) (s : System h) (r : Option (System h))
    : Type 0 where
  pub out : System h
  pub returns : r ≡ some out
  pub measuring : Measuring h shell out
  pub same_idt : out.idt ≡ s.idt
  pub same_flag : out.machine.interrupts_enabled ≡ s.machine.interrupts_enabled
  pub stays : s.triggered_once ≡ true → out.triggered_once ≡ true
  pub device :
      out.machine.device ≡ s.machine.device
      ⊎ out.machine.device ≡ (h.ports.read 0x60 s.machine.device).1

module _ (h : Hardware) (shell : Shell) where
  pub acknowledge-Served :
      (id : ℕ) (s : System h) → Measuring h shell s → Served h shell s (end_of_interrupt h id s)
  acknowledge-Served id s m = record {
    out = acknowledge h id s;
    returns = end_of_interrupt-acknowledge h id s;
    measuring = record {
      lapic = h.lapic_end_of_interrupt m.lapic;
      has_lapic = rw m.has_lapic refl;
      no_handlers = m.no_handlers;
      booting = m.booting;
    };
    same_idt = refl;
    same_flag = refl;
    stays = λ triggered. triggered;
    device = inl refl;
  }

  pub keyboard-Served :
      (s : System h) → Measuring h shell s → Served h shell s (keyboard_interrupt_handler h s)
  keyboard-Served s m = record {
    out = scanned h s s.console;
    returns = keyboard_interrupt_handler-ignored h s m.no_handlers;
    measuring = record {
      lapic = h.lapic_end_of_interrupt m.lapic;
      has_lapic = rw m.has_lapic refl;
      no_handlers = m.no_handlers;
      booting = m.booting;
    };
    same_idt = refl;
    same_flag = refl;
    stays = λ triggered. triggered;
    device = inr refl;
  }

  pub report-Served :
      (s : System h) (text : List ℕ)
      → Measuring h shell s
      → Served h shell s (
          println s.console text >>= λ c.
          on_lapic h (record s { console = c }) h.lapic_end_of_interrupt)
  report-Served s text m =
      let (c, prints, still_booting, at_start) = print-Booting shell s.console text m.booting in
      record {
        out = record s { console = c; lapic = some (h.lapic_end_of_interrupt m.lapic) };
        returns = rw (prints, m.has_lapic) refl;
        measuring = record {
          lapic = h.lapic_end_of_interrupt m.lapic;
          has_lapic = refl;
          no_handlers = m.no_handlers;
          booting = still_booting;
        };
        same_idt = refl;
        same_flag = refl;
        stays = λ triggered. triggered;
        device = inl refl;
      }

  -- The system once the timer's interrupt was served.
  abbrev measured : (s : System h) → Measuring h shell s → System h
  measured s m = record s { triggered_once = true; lapic = some (h.lapic_end_of_interrupt m.lapic) }

  serve-config :
      (s : System h) (m : Measuring h shell s) → apic_timer_config_handler h s ≡ some (measured s m)
  unfolding apic_timer_config_handler
  serve-config s m = rw m.has_lapic refl

  measured-Measuring : (s : System h) (m : Measuring h shell s) → Measuring h shell (measured s m)
  measured-Measuring s m = record {
    lapic = h.lapic_end_of_interrupt m.lapic;
    has_lapic = refl;
    no_handlers = m.no_handlers;
    booting = m.booting;
  }

  pub config-Served :
      (s : System h) (m : Measuring h shell s) → Served h shell s (apic_timer_config_handler h s)
  config-Served s m = record {
    out = measured s m;
    returns = serve-config s m;
    measuring = measured-Measuring s m;
    same_idt = refl;
    same_flag = refl;
    stays = λ triggered. refl;
    device = inl refl;
  }

  pub config-triggers :
      (s : System h) (m : Measuring h shell s) → (config-Served s m).out.triggered_once ≡ true
  unfolding config-Served
  config-triggers s m = refl
