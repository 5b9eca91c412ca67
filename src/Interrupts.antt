-- ===== src/Interrupts.antt =====
-- Interrupts: src/interrupts.rs but for its two handlers in assembly, with `disable` of
-- src/drivers/pic.rs. The interrupt controllers and the decoder of scancodes are crates,
-- parameters. `none` is a panic.
pub mod Table
pub mod Exceptions
pub mod Ignored
pub mod Keys
pub mod Typing
pub mod Apic
pub mod Measure
pub mod Wait
pub mod Early
pub mod Restart
pub mod Sample
mod Tests
use leaf_os.Common.{
  ℕ, zero, suc, ◌+◌, ◌-◌, ◌*◌, ◌/◌, ◌%◌, ◌^◌, Bool, true, false, Option, none, some, List, [], ◌∷◌,
  ◌++◌, ◌==◌, if◌then◌else◌, ◌>>=◌, bytes, Result, ok, err,
}
use leaf_os.Shell.{Console, Keyboard, DecodedKey, print}
use leaf_os.Pit.{Ports, port_write, port_read, write_channel0_count, read_pit_count, pit_dividend}
use leaf_os.Pit
use leaf_os.Events.{EventHandlers, call_keyboard_event}
use leaf_os.Interrupts.Table.{
  Idt, Handler, InterruptIndex, as_u8, apic_timer_handler, set_handler_fn,
}

pub data TimerMode : Type 0 where
  one_shot periodic : TimerMode

-- The crates `x2apic`, `pic8259` and `pc_keyboard`, and the decimal digits of a number.
pub record Hardware : Type 1 where
  pub ports : Ports
  pub keyboard : Keyboard
  pub Lapic : Type 0
  pub build : ℕ → ℕ → ℕ → ℕ → Option Lapic
  pub set_timer_divide : ℕ → Lapic → Lapic
  pub set_timer_initial : ℕ → Lapic → Lapic
  pub set_timer_mode : TimerMode → Lapic → Lapic
  pub enable : Lapic → Lapic
  pub lapic_end_of_interrupt : Lapic → Lapic
  pub Pics : Type 0
  pub initialize : Pics → Pics
  pub notify_end_of_interrupt : ℕ → Pics → Pics
  pub Decoder : Type 0
  pub KeyEvent : Type 0
  pub DecodeError : Type 0
  pub add_byte : ℕ → Decoder → Result DecodeError (Option KeyEvent) × Decoder
  pub process_keyevent : KeyEvent → Decoder → Option (DecodedKey (keyboard.KeyCode)) × Decoder
  pub display : ℕ → List ℕ

abbrev pub println : Console → List ℕ → Option Console
println c text = print c (text ++ b'\n' ∷ [])

abbrev pub timer_delay : ℕ
timer_delay = 2 ^ 16 - 1

abbrev pub scheduler_timer_delay : ℕ
scheduler_timer_delay = 1000000

-- What `init_apic` takes for the frequency of the timer, from the count that the interval timer
-- has come down to. `none` is a division by zero.
pub measured_frequency : ℕ → Option ℕ
measured_frequency end_count =
    if timer_delay - end_count == 0
    then none
    else some (timer_delay / (timer_delay - end_count) * pit_dividend)

-- The initial count for a delay in microseconds, `as u32`.
pub timer_initial : ℕ → ℕ → ℕ
timer_initial frequency us = us * (frequency / 1000000) % 2 ^ 64 % 2 ^ 32

module _ (h : Hardware) where
  open h use {ports, keyboard, Lapic, Pics, Decoder}

  pub record System : Type 0 where
    pub console : Console
    pub event_handlers : EventHandlers keyboard
    pub decoder : Decoder
    pub lapic : Option Lapic
    pub pics : Pics
    pub triggered_once : Bool
    pub apic_timer_frequency : ℕ
    pub idt : Idt
    pub machine : Pit.Machine ports

  abbrev pub has_lapic : System → Bool
  has_lapic s = elim s.lapic [ none ↦ false | some l ↦ true ]

  -- `LAPIC.as_mut().unwrap()`, and a call of it.
  abbrev pub on_lapic : System → (Lapic → Lapic) → Option System
  on_lapic s f = do l ← s.lapic; some (record s { lapic = some (f l) })

  pub end_of_interrupt : ℕ → System → Option System
  end_of_interrupt interrupt_id s =
      if has_lapic s
      then on_lapic s h.lapic_end_of_interrupt
      else some (record s { pics = h.notify_end_of_interrupt interrupt_id s.pics })

  pub start_timer_one_shot : ℕ → System → Option System
  start_timer_one_shot us s = do
    s₁ ← on_lapic s (h.set_timer_divide 64)
    s₂ ← on_lapic s₁ (h.set_timer_mode one_shot)
    on_lapic s₂ (h.set_timer_initial (timer_initial s₂.apic_timer_frequency us))

  pub restart_apic : System → Option System
  restart_apic s = do
    s' ← on_lapic s h.lapic_end_of_interrupt
    start_timer_one_shot scheduler_timer_delay s'

  -- A decoded key, if the scancode completes one: the errors of `add_byte` are dropped.
  unfoldable pub decode : ℕ → Decoder → Option (DecodedKey (keyboard.KeyCode)) × Decoder
  decode scancode decoder =
      let (added, decoder') = h.add_byte scancode decoder in
      elim added [
        | err e ↦ (none, decoder')
        | ok event ↦ elim event [
          | none ↦ (none, decoder')
          | some key_event ↦ h.process_keyevent key_event decoder'
        ]
      ]

  pub keyboard_interrupt_handler : System → Option System
  keyboard_interrupt_handler s =
      let (scancode, machine) = port_read ports 0x60 s.machine in
      let (decoded, decoder) = decode scancode s.decoder in
      do
        c ← elim decoded [
          | none ↦ some s.console
          | some key ↦
              call_keyboard_event keyboard s.event_handlers (record { key = key }) s.console
        ]
        end_of_interrupt (as_u8 InterruptIndex.keyboard)
            (record s { console = c; decoder = decoder; machine = machine })

  pub timer_interrupt_handler : System → Option System
  timer_interrupt_handler s = end_of_interrupt (as_u8 InterruptIndex.timer) s

  pub apic_timer_config_handler : System → Option System
  apic_timer_config_handler s =
      on_lapic (record s { triggered_once = true }) h.lapic_end_of_interrupt

  pub apic_error_handler : System → Option System
  apic_error_handler s = do
    c ← println s.console (bytes "apic error handler!")
    on_lapic (record s { console = c }) h.lapic_end_of_interrupt

  pub apic_spurious_handler : System → Option System
  apic_spurious_handler s = do
    c ← println s.console (bytes "apic spurious handler!")
    on_lapic (record s { console = c }) h.lapic_end_of_interrupt

  -- A handler on the system. `none` is one that does not come back: an exception halts, and the
  -- scheduler's hands the processor on. `syscall_handler` serves `int 0x80` alone.
  unfoldable pub run : Handler → System → Option System
  run Handler.timer_interrupt_handler s = timer_interrupt_handler s
  run Handler.keyboard_interrupt_handler s = keyboard_interrupt_handler s
  run Handler.apic_timer_config_handler s = apic_timer_config_handler s
  run Handler.apic_error_handler s = apic_error_handler s
  run Handler.apic_spurious_handler s = apic_spurious_handler s
  run _ s = none

  -- An interrupt that comes in: what the devices have done up to then, and its vector.
  pub record Arrival : Type 0 where
    pub meanwhile : ports.Device → ports.Device
    pub vector : ℕ

  -- What the processor does then: while interrupts are enabled, it runs the handler that the table
  -- has for the vector. `none` is also an interrupt that is not taken.
  unfoldable pub take_interrupt : Arrival → System → Option System
  take_interrupt a s =
      let machine = record s.machine { device = a.meanwhile s.machine.device } in
      if s.machine.interrupts_enabled
      then (s.idt a.vector >>= λ entry. run entry.handler (record s { machine = machine }))
      else none

  unfoldable pub take_interrupts : List Arrival → System → Option System
  take_interrupts [] s = some s
  take_interrupts (a ∷ rest) s = take_interrupt a s >>= λ s'. take_interrupts rest s'

  -- A round of a wait: the interrupts that come in before the processor has halted, which do not
  -- wake it, and the one that wakes it.
  pub record Round : Type 0 where
    pub missed : List Arrival
    pub waking : Arrival

  -- `while !TRIGGERED_ONCE { wait_for_interrupt(); }`, over the rounds. `none` is also a wait that
  -- does not end with them: the processor sleeps on.
  pub wait_triggered : List Round → System → Option System
  wait_triggered [] s = if s.triggered_once then some s else none
  wait_triggered (r ∷ rest) s =
      if s.triggered_once
      then some s
      else (take_interrupts r.missed s >>= λ s₁.
          take_interrupt r.waking s₁ >>= λ s₂. wait_triggered rest s₂)

  -- `pic::disable`: both controllers are masked.
  pub disable_pic : System → System
  disable_pic s = record s {
    machine = port_write ports 0x21 0xff (port_write ports 0xa1 0xff s.machine);
  }

  -- With the address of the local APIC's registers, and the rounds of its wait.
  pub init_apic : ℕ → ℕ → List Round → System → Option System
  init_apic physical_memory_offset xapic_base rounds s = do
    lapic ←
        h.build (as_u8 InterruptIndex.apic_timer) (as_u8 InterruptIndex.apic_error)
          (as_u8 InterruptIndex.apic_spurious) (physical_memory_offset + xapic_base)
    let s₀ = record s { lapic = some lapic }
    s₁ ← on_lapic s₀ (h.set_timer_divide 64)
    s₂ ← on_lapic s₁ (h.set_timer_initial timer_delay)
    s₃ ← on_lapic s₂ (h.set_timer_mode one_shot)
    let s₄ = record s₃ { machine = (write_channel0_count ports timer_delay s₃.machine).1 }
    s₅ ← on_lapic s₄ h.enable
    s₆ ← wait_triggered rounds (disable_pic s₅)
    let (end_count, machine) = read_pit_count ports s₆.machine
    c ← println s₆.console (bytes "pit end: " ++ h.display end_count)
    frequency ← measured_frequency end_count
    some (record s₆ {
      console = c;
      machine = machine;
      apic_timer_frequency = frequency;
      idt = set_handler_fn s₆.idt (as_u8 InterruptIndex.apic_timer) apic_timer_handler;
    })
