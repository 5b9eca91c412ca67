-- ===== src/Interrupts/Measure.antt =====
-- `init_apic` and `start_timer_one_shot` of src/interrupts.rs as the kernel starts.
use leaf_os.Common.{
  ◌∙◌, true, false, inl, All, sym, subst, ℕ, ◌+◌, ◌-◌, ◌*◌, ◌/◌, ◌<◌, ◌≡◌, refl, ap, none, some,
  List, ◌++◌, ne→==, bind-returns, bytes, arith,
}
use leaf_os.Shell.{Shell}
use leaf_os.Shell.Boot.{Booting, print-Booting}
use leaf_os.Events.{event_handlers_new}
use leaf_os.Pit
use leaf_os.Pit.{read_pit_count, write_channel0_count, pit_dividend}
use leaf_os.Interrupts.{
  Hardware, System, Round, one_shot, timer_delay, measured_frequency, timer_initial,
  start_timer_one_shot, disable_pic, init_apic,
}
use leaf_os.Interrupts.Table.{HandlesDevices, apic_timer_handler, set_handler_fn}
use leaf_os.Interrupts.Apic.{Measuring}
use leaf_os.Interrupts.Wait.{Clock, IsRound, Fires, wait_triggered-returns}
use leaf_os.Pit.Counts.{loaded, write_channel0_count-loaded}

measured_frequency-some :
    (end_count : ℕ)
    → end_count < 65535
    → measured_frequency end_count ≡ some (65535 / (65535 - end_count) * pit_dividend)
unfolding measured_frequency
measured_frequency-some end_count below = rw (ne→== (timer_delay - end_count) 0 (omega arith)) refl

-- What the interval timer does: it has the count that was loaded, and once it has counted down, it
-- shows less than 65535.
pub record Counting (h : Hardware) (clock : Clock h) : Type 0 where
  pub loads :
      (d : h.ports.Device)
      → clock.Loaded (h.ports.write 0x21 0xff (h.ports.write 0xa1 0xff (loaded h.ports 255 255 d)))
  pub shows :
      (m : Pit.Machine h.ports)
      → m.interrupts_enabled ≡ true
      → clock.Running m.device
      → (read_pit_count h.ports m).0 < 65535

module _ (h : Hardware) (shell : Shell) where
  -- A lone timer: the measurement is over, and its entry in the table is the scheduler's.
  pub record Measured (s : System h) : Type 0 where
    pub measuring : Measuring h shell s
    pub scheduling : s.idt 33 ≡ some (record { handler = apic_timer_handler; stack_index = none })

  -- The system as `init_apic` waits.
  prepared : System h → h.Lapic → System h
  prepared s l = disable_pic h (record s {
    lapic = some (
        h.enable
          (h.set_timer_mode one_shot (h.set_timer_initial timer_delay (h.set_timer_divide 64 l))));
    machine = (write_channel0_count h.ports timer_delay s.machine).1;
  })

  prepared-Measuring :
      (s : System h) (l : h.Lapic)
      → s.event_handlers ≡ event_handlers_new h.keyboard
      → Booting shell s.console
      → Measuring h shell (prepared s l)
  unfolding prepared disable_pic
  prepared-Measuring s l none_yet booting = record {
    lapic =
        h.enable
          (h.set_timer_mode one_shot (h.set_timer_initial timer_delay (h.set_timer_divide 64 l)));
    has_lapic = refl;
    no_handlers = none_yet;
    booting = booting;
  }

  -- `init_apic` returns before the shell has started, with no handler for keys registered, with
  -- interrupts enabled and the table set for the measurement, if the local APIC can be built, its
  -- timer's interrupt comes in during the wait, and the interval timer counts down until then.
  -- Afterwards the timer's interrupt is the scheduler's.
  pub init_apic-returns :
      (clock : Clock h) (offset base : ℕ) (rounds : List (Round h)) (s : System h) (l : h.Lapic)
      → s.event_handlers ≡ event_handlers_new h.keyboard
      → Booting shell s.console
      → HandlesDevices s.idt
      → s.machine.interrupts_enabled ≡ true
      → s.triggered_once ≡ false
      → h.build 33 34 35 (offset + base) ≡ some l
      → Counting h clock
      → All (IsRound h clock) rounds
      → Fires h rounds
      → (s' : System h) × (init_apic h offset base rounds s ≡ some s') × Measured s'
  unfolding init_apic prepared disable_pic
  init_apic-returns clock offset base rounds s l none_yet booting handles enabled not_yet built
        counting come fires =
      let writes = write_channel0_count-loaded h.ports 65535 s.machine in
      let (s₆, waited, triggered, w, running) =
        wait_triggered-returns h shell clock rounds (prepared s l)
          (record {
            measuring = prepared-Measuring s l none_yet booting;
            handles = handles;
            enabled = ap (λ (m : Pit.Machine h.ports). m.interrupts_enabled) writes ∙ enabled;
          })
          (inl (
            subst
              (λ (m : Pit.Machine h.ports).
                clock.Loaded (h.ports.write 0x21 0xff (h.ports.write 0xa1 0xff m.device)))
              (sym writes) (counting.loads s.machine.device)))
          come fires in
      let m = w.measuring in
      let (end_count, machine) = read_pit_count h.ports s₆.machine in
      let (c, printed, booting', home) =
        print-Booting shell s₆.console (bytes "pit end: " ++ h.display end_count) m.booting in
      (
        record s₆ {
          console = c;
          machine = machine;
          apic_timer_frequency = 65535 / (65535 - end_count) * pit_dividend;
          idt = set_handler_fn s₆.idt 33 apic_timer_handler;
        },
        bind-returns _ built (
            bind-returns _ waited (
              bind-returns _ printed (
                bind-returns _
                  (measured_frequency-some end_count
                    (counting.shows s₆.machine w.enabled (running not_yet)))
                  refl))),
        record {
          measuring = record {
            lapic = m.lapic;
            has_lapic = m.has_lapic;
            no_handlers = m.no_handlers;
            booting = booting';
          };
          scheduling = refl;
        },
      )

  -- The timer can be started then.
  pub start_timer_one_shot-Measured :
      (us : ℕ) (s : System h)
      → Measured s
      → (s' : System h) × (start_timer_one_shot h us s ≡ some s')
        × Measured s'
        × (s'.console ≡ s.console)
  unfolding start_timer_one_shot
  start_timer_one_shot-Measured us s m =
      let l = m.measuring.lapic in
      let l' =
        h.set_timer_initial (timer_initial s.apic_timer_frequency us)
          (h.set_timer_mode one_shot (h.set_timer_divide 64 l)) in
      (
        record s { lapic = some l' },
        ap (λ o. start_timer_one_shot h us (record s { lapic = o })) m.measuring.has_lapic,
        record {
          measuring = record {
            lapic = l';
            has_lapic = refl;
            no_handlers = m.measuring.no_handlers;
            booting = m.measuring.booting;
          };
          scheduling = m.scheduling;
        },
        refl,
      )
