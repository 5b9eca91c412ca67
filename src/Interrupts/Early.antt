-- ===== src/Interrupts/Early.antt =====
-- The interval timer's interrupts in src/interrupts.rs, as they come in before the local APIC is set.
use leaf_os.Common.{◌≡◌, refl, ap, ◌∙◌, true, some, List, [], ◌∷◌, All, bind-returns}
use leaf_os.Interrupts.{
  Hardware, System, Arrival, run, take_interrupt, take_interrupts, timer_interrupt_handler,
}
use leaf_os.Interrupts.Table.{Handler, HandledBy}
use leaf_os.Interrupts.Keys.{acknowledge, end_of_interrupt-acknowledge}

module _ (h : Hardware) where
  -- Interrupts of the interval timer are over: nothing but the devices and the controllers changed.
  pub record Quiet (s s' : System h) : Type 0 where
    pub console : s'.console ≡ s.console
    pub event_handlers : s'.event_handlers ≡ s.event_handlers
    pub idt : s'.idt ≡ s.idt
    pub enabled : s'.machine.interrupts_enabled ≡ s.machine.interrupts_enabled
    pub triggered : s'.triggered_once ≡ s.triggered_once

  abbrev at : Arrival h → System h → System h
  at a s = record s { machine = record s.machine { device = a.meanwhile s.machine.device } }

  take_interrupt-run :
      (a : Arrival h) (s : System h) (handler : Handler)
      → HandledBy s.idt a.vector handler
      → s.machine.interrupts_enabled ≡ true
      → take_interrupt h a s ≡ run h handler (at a s)
  unfolding take_interrupt
  take_interrupt-run a s handler handled enabled = rw (enabled, handled) refl

  take_interrupt-timer :
      (a : Arrival h) (s : System h)
      → a.vector ≡ 32
      → HandledBy s.idt 32 Handler.timer_interrupt_handler
      → s.machine.interrupts_enabled ≡ true
      → take_interrupt h a s ≡ some (acknowledge h 32 (at a s))
  unfolding run timer_interrupt_handler
  take_interrupt-timer a s same handled enabled =
      take_interrupt-run a s Handler.timer_interrupt_handler (ap s.idt same ∙ handled) enabled
      ∙ end_of_interrupt-acknowledge h 32 (at a s)

  -- They come back.
  pub take_interrupts-Quiet :
      (arrivals : List (Arrival h)) (s : System h)
      → All (λ (a : Arrival h). a.vector ≡ 32) arrivals
      → HandledBy s.idt 32 Handler.timer_interrupt_handler
      → s.machine.interrupts_enabled ≡ true
      → (s' : System h) × (take_interrupts h arrivals s ≡ some s') × Quiet s s'
  unfolding take_interrupts
  take_interrupts-Quiet [] s lines handled enabled = (
    s,
    refl,
    record { console = refl; event_handlers = refl; idt = refl; enabled = refl; triggered = refl },
  )
  take_interrupts-Quiet (a ∷ rest) s lines handled enabled =
      let (s', returns, q) =
        take_interrupts-Quiet rest (acknowledge h 32 (at a s)) lines.1 handled enabled in
      (
        s',
        bind-returns _ (take_interrupt-timer a s lines.0 handled enabled) returns,
        record {
          console = q.console;
          event_handlers = q.event_handlers;
          idt = q.idt;
          enabled = q.enabled;
          triggered = q.triggered;
        },
      )
