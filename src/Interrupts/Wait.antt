-- ===== src/Interrupts/Wait.antt =====
-- The wait of `init_apic` in src/interrupts.rs for the first interrupt of the local APIC's timer.
use leaf_os.Common.{
  ℕ, ◌≤◌, ◌≡◌, refl, sym, subst, ap, ◌∙◌, true, false, ◌⊎◌, inl, inr, Bool-cases, Option, some,
  List, [], ◌∷◌, All, ◌>>=◌, if◌then◌else◌, arith,
}
use leaf_os.Shell.{Shell}
use leaf_os.Interrupts.{
  Hardware, System, Arrival, Round, run, take_interrupt, take_interrupts, wait_triggered,
}
use leaf_os.Interrupts.Table.{Handler, HandledBy, HandlesDevices}
use leaf_os.Interrupts.Apic.{
  Measuring, Served, acknowledge-Served, keyboard-Served, config-Served, config-triggers,
  report-Served,
}
use leaf_os.Common.{bytes, bind-some, bind-returns}
use leaf_os.Interrupts.{timer_interrupt_handler, apic_error_handler, apic_spurious_handler}

-- The interval timer among the devices: it has just been loaded, or it has counted down since. A
-- read of the keyboard's port is nothing to it.
pub record Clock (h : Hardware) : Type 1 where
  pub Loaded : h.ports.Device → Type 0
  pub Running : h.ports.Device → Type 0
  pub keeps : (d : h.ports.Device) → Running d → Running (h.ports.read 0x60 d).1

module _ (h : Hardware) (clock : Clock h) where
  open clock use {Loaded, Running}

  -- An interrupt of a device, by the time of which the timer has counted down.
  abbrev pub IsArrival : Arrival h → Type 0
  IsArrival a =
      (32 ≤ a.vector)
      × (a.vector ≤ 36)
      × ((d : h.ports.Device) → Loaded d ⊎ Running d → Running (a.meanwhile d))

  abbrev pub IsRound : Round h → Type 0
  IsRound r = All IsArrival r.missed × IsArrival r.waking

module _ (h : Hardware) where
  -- The interrupt of the local APIC's timer is among these.
  abbrev pub AnyFires : List (Arrival h) → Type 0
  AnyFires [] = ⊥
  AnyFires (a ∷ rest) = (a.vector ≡ 33) ⊎ AnyFires rest

  abbrev pub Fires : List (Round h) → Type 0
  Fires [] = ⊥
  Fires (r ∷ rest) = (AnyFires r.missed ⊎ (r.waking.vector ≡ 33)) ⊎ Fires rest

module _ (h : Hardware) (shell : Shell) (clock : Clock h) where
  open clock use {Loaded, Running}

  -- Interrupts are enabled, and the table has the handlers for the measurement.
  pub record Waiting (s : System h) : Type 0 where
    pub measuring : Measuring h shell s
    pub handles : HandlesDevices s.idt
    pub enabled : s.machine.interrupts_enabled ≡ true

  record Taken (s : System h) (fires : Type 0) (r : Option (System h)) : Type 0 where
    out : System h
    returns : r ≡ some out
    waiting : Waiting out
    running : Running out.machine.device
    stays : s.triggered_once ≡ true → out.triggered_once ≡ true
    triggers : fires → out.triggered_once ≡ true

  -- The system when the interrupt is taken.
  abbrev at : Arrival h → System h → System h
  at a s = record s { machine = record s.machine { device = a.meanwhile s.machine.device } }

  at-Measuring : (a : Arrival h) (s : System h) → Measuring h shell s → Measuring h shell (at a s)
  at-Measuring a s m = record {
    lapic = m.lapic;
    has_lapic = m.has_lapic;
    no_handlers = m.no_handlers;
    booting = m.booting;
  }

  still-Running :
      (s s' : System h)
      → Running s.machine.device
      → s'.machine.device ≡ s.machine.device
        ⊎ s'.machine.device ≡ (h.ports.read 0x60 s.machine.device).1
      → Running s'.machine.device
  still-Running s s' running (inl same) = subst Running (sym same) running
  still-Running s s' running (inr same) = subst Running (sym same) (clock.keeps _ running)

  take_interrupt-run :
      (a : Arrival h) (s : System h) (handler : Handler)
      → Waiting s
      → HandledBy s.idt a.vector handler
      → take_interrupt h a s ≡ run h handler (at a s)
  unfolding take_interrupt
  take_interrupt-run a s handler w found = rw (w.enabled, found) refl

  served :
      (a : Arrival h) (s : System h) (handler : Handler)
      → IsArrival h clock a
      → Waiting s
      → Loaded s.machine.device ⊎ Running s.machine.device
      → HandledBy s.idt a.vector handler
      → (r : Served h shell (at a s) (run h handler (at a s)))
      → (a.vector ≡ 33 → r.out.triggered_once ≡ true)
      → Taken s (a.vector ≡ 33) (take_interrupt h a s)
  served a s handler arrives w timer found r triggers = record {
    out = r.out;
    returns = take_interrupt-run a s handler w found ∙ r.returns;
    waiting = record {
      measuring = r.measuring;
      handles = subst HandlesDevices (sym r.same_idt) w.handles;
      enabled = r.same_flag ∙ w.enabled;
    };
    running = still-Running (at a s) r.out (arrives.2 s.machine.device timer) r.device;
    stays = r.stays;
    triggers = triggers;
  }

  -- The vectors of devices.
  line : (v : ℕ) → 32 ≤ v → v ≤ 36 → (v ≡ 32) ⊎ ((v ≡ 33) ⊎ ((v ≡ 34) ⊎ ((v ≡ 35) ⊎ (v ≡ 36))))
  line v lo hi = ground arith

  found :
      (s : System h) (v n : ℕ) (handler : Handler)
      → v ≡ n
      → HandledBy s.idt n handler
      → HandledBy s.idt v handler
  found s v n handler same f = ap s.idt same ∙ f

  taken :
      (a : Arrival h) (s : System h)
      → IsArrival h clock a
      → Waiting s
      → Loaded s.machine.device ⊎ Running s.machine.device
      → Taken s (a.vector ≡ 33) (take_interrupt h a s)
  unfolding run timer_interrupt_handler apic_error_handler apic_spurious_handler
  taken a s arrives w timer = elim (line a.vector arrives.0 arrives.1) [
    | inl e ↦
        served a s Handler.timer_interrupt_handler arrives w timer (found s _ _ _ e w.handles.0)
          (acknowledge-Served h shell 32 (at a s) m) (λ e'. absurd (omega (arith, e, e')))
    | inr (inl e) ↦
        served a s Handler.apic_timer_config_handler arrives w timer (found s _ _ _ e w.handles.1)
          (config-Served h shell (at a s) m) (λ e'. config-triggers h shell (at a s) m)
    | inr (inr (inl e)) ↦
        served a s Handler.apic_error_handler arrives w timer (found s _ _ _ e w.handles.2)
          (report-Served h shell (at a s) (bytes "apic error handler!") m)
          (λ e'. absurd (omega (arith, e, e')))
    | inr (inr (inr (inl e))) ↦
        served a s Handler.apic_spurious_handler arrives w timer (found s _ _ _ e w.handles.3)
          (report-Served h shell (at a s) (bytes "apic spurious handler!") m)
          (λ e'. absurd (omega (arith, e, e')))
    | inr (inr (inr (inr e))) ↦
        served a s Handler.keyboard_interrupt_handler arrives w timer (found s _ _ _ e w.handles.4)
          (keyboard-Served h shell (at a s) m) (λ e'. absurd (omega (arith, e, e')))
  ]
    where
      m : Measuring h shell (at a s)
      m = at-Measuring a s w.measuring

  -- Interrupts that come in one by one.
  record TakenAll (s : System h) (fires : Type 0) (r : Option (System h)) : Type 0 where
    out : System h
    returns : r ≡ some out
    waiting : Waiting out
    timer : Loaded out.machine.device ⊎ Running out.machine.device
    stays : s.triggered_once ≡ true → out.triggered_once ≡ true
    triggers : fires → out.triggered_once ≡ true

  taken_all :
      (arrivals : List (Arrival h)) (s : System h)
      → All (IsArrival h clock) arrivals
      → Waiting s
      → Loaded s.machine.device ⊎ Running s.machine.device
      → TakenAll s (AnyFires h arrivals) (take_interrupts h arrivals s)
  unfolding take_interrupts
  taken_all [] s arrive w timer = record {
    out = s;
    returns = refl;
    waiting = w;
    timer = timer;
    stays = λ triggered. triggered;
    triggers = λ none. absurd none;
  }
  taken_all (a ∷ rest) s arrive w timer =
      let one = taken a s arrive.0 w timer in
      let others = taken_all rest one.out arrive.1 one.waiting (inr one.running) in
      record {
        out = others.out;
        returns = bind-returns _ one.returns others.returns;
        waiting = others.waiting;
        timer = others.timer;
        stays = λ triggered. others.stays (one.stays triggered);
        triggers = λ fires. elim fires [
          | inl first ↦ others.stays (one.triggers first)
          | inr later ↦ others.triggers later
        ];
      }

  round :
      (r : Round h) (s : System h)
      → IsRound h clock r
      → Waiting s
      → Loaded s.machine.device ⊎ Running s.machine.device
      → Taken s
          (AnyFires h r.missed ⊎ (r.waking.vector ≡ 33))
          (take_interrupts h r.missed s >>= λ s₁. take_interrupt h r.waking s₁)
  round r s comes w timer =
      let before = taken_all r.missed s comes.0 w timer in
      let last = taken r.waking before.out comes.1 before.waiting before.timer in
      record {
        out = last.out;
        returns = bind-returns _ before.returns last.returns;
        waiting = last.waiting;
        running = last.running;
        stays = λ triggered. last.stays (before.stays triggered);
        triggers = λ fires. elim fires [
          | inl missed ↦ last.stays (before.triggers missed)
          | inr wakes ↦ last.triggers wakes
        ];
      }

  wait_triggered-done :
      (rounds : List (Round h)) (s : System h)
      → s.triggered_once ≡ true
      → wait_triggered h rounds s ≡ some s
  unfolding wait_triggered
  wait_triggered-done [] s done = rw done refl
  wait_triggered-done (r ∷ rest) s done = rw done refl

  wait_triggered-round :
      (r : Round h) (rest : List (Round h)) (s s₁ s' : System h)
      → s.triggered_once ≡ false
      → (take_interrupts h r.missed s >>= λ x. take_interrupt h r.waking x) ≡ some s₁
      → wait_triggered h rest s₁ ≡ some s'
      → wait_triggered h (r ∷ rest) s ≡ some s'
  unfolding wait_triggered
  wait_triggered-round r rest s s₁ s' not_yet served returns =
      let (s₂, early, woken) =
        bind-some (take_interrupts h r.missed s) (λ x. take_interrupt h r.waking x) served in
      ap
        (λ b.
          if b
          then some s
          else (take_interrupts h r.missed s >>= λ x.
              take_interrupt h r.waking x >>= λ y. wait_triggered h rest y))
        not_yet
      ∙ bind-returns _ early (bind-returns _ woken returns)

  record Over (s : System h) (r : Option (System h)) : Type 0 where
    out : System h
    returns : r ≡ some out
    triggered : out.triggered_once ≡ true
    waiting : Waiting out
    running : (s.triggered_once ≡ false) ⊎ Running s.machine.device → Running out.machine.device

  already :
      (s : System h)
      → s.triggered_once ≡ true
      → (s.triggered_once ≡ false) ⊎ Running s.machine.device
      → Running s.machine.device
  already s done (inl not_yet) = absurd (cc (done, not_yet))
  already s done (inr running) = running

  over :
      (rounds : List (Round h)) (s : System h)
      → Waiting s
      → Loaded s.machine.device ⊎ Running s.machine.device
      → All (IsRound h clock) rounds
      → (s.triggered_once ≡ true) ⊎ Fires h rounds
      → Over s (wait_triggered h rounds s)
  over [] s w timer come (inr never) = absurd never
  over rounds s w timer come (inl done) = record {
    out = s;
    returns = wait_triggered-done rounds s done;
    triggered = done;
    waiting = w;
    running = already s done;
  }
  over (r ∷ rest) s w timer come (inr fires) = elim (Bool-cases s.triggered_once) [
    | inl done ↦ record {
      out = s;
      returns = wait_triggered-done (r ∷ rest) s done;
      triggered = done;
      waiting = w;
      running = already s done;
    }
    | inr not_yet ↦
        let one = round r s come.0 w timer in
        let next : (one.out.triggered_once ≡ true) ⊎ Fires h rest = elim fires [
          | inl now ↦ inl (one.triggers now)
          | inr later ↦ inr later
        ] in
        let others = over rest one.out one.waiting (inr one.running) come.1 next in
        record {
          out = others.out;
          returns =
              wait_triggered-round r rest s one.out others.out not_yet one.returns others.returns;
          triggered = others.triggered;
          waiting = others.waiting;
          running = λ _. others.running (inr one.running);
        }
  ]

  -- `init_apic`'s wait for the timer ends: if the local APIC is set, no handler for keys is
  -- registered, the shell has not started, the console is valid, interrupts are enabled, and the
  -- table has the handlers for the measurement; and if what comes in are interrupts of devices,
  -- between the test of `TRIGGERED_ONCE` and `hlt` or to wake the processor, of which one is the
  -- timer's. No handler panics, all of that stays so, `TRIGGERED_ONCE` is set, and if it was not
  -- set before, the interval timer has counted down.
  pub wait_triggered-returns :
      (rounds : List (Round h)) (s : System h)
      → Waiting s
      → Loaded s.machine.device ⊎ Running s.machine.device
      → All (IsRound h clock) rounds
      → Fires h rounds
      → (s' : System h) × (wait_triggered h rounds s ≡ some s')
        × (s'.triggered_once ≡ true)
        × Waiting s'
        × (s.triggered_once ≡ false → Running s'.machine.device)
  wait_triggered-returns rounds s w timer come fires =
      let o = over rounds s w timer come (inr fires) in
      (o.out, o.returns, o.triggered, o.waiting, λ not_yet. o.running (inl not_yet))
