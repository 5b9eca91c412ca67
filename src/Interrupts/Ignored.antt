-- ===== src/Interrupts/Ignored.antt =====
-- The keyboard's interrupts of src/interrupts.rs before a handler for keys is registered.
use leaf_os.Common.{ℕ, zero, suc, ◌≡◌, refl, ap, ◌∙◌, Option, none, some, bind-returns}
use leaf_os.Events.{call_keyboard_event, event_handlers_new}
use leaf_os.Events.Order.{event_handlers_new-call}
use leaf_os.Interrupts.{DecodedKey, Hardware, System, keyboard_interrupt_handler}
use leaf_os.Interrupts.Keys.{
  end_of_interrupt-acknowledge, scanned, scanned_key, keyboard_interrupts,
}

module _ (h : Hardware) where
  pub keyboard_interrupt_handler-ignored :
      (s : System h)
      → s.event_handlers ≡ event_handlers_new h.keyboard
      → keyboard_interrupt_handler h s ≡ some (scanned h s s.console)
  unfolding keyboard_interrupt_handler
  keyboard_interrupt_handler-ignored s no_handlers =
      bind-returns _ (ignored (scanned_key h s)) (end_of_interrupt-acknowledge h 36 _)
    where
      ignored :
          (key : Option (DecodedKey h.keyboard.KeyCode))
          → elim key [
            | none ↦ some s.console
            | some key' ↦
                call_keyboard_event h.keyboard s.event_handlers (record { key = key' }) s.console
          ]
            ≡ some s.console
      ignored none = refl
      ignored (some key') =
          ap (λ hs. call_keyboard_event h.keyboard hs (record { key = key' }) s.console) no_handlers
          ∙ event_handlers_new-call h.keyboard (record { key = key' }) s.console

  -- Keys that come in before a handler is registered do not reach the console.
  pub keyboard_interrupts-ignored :
      (n : ℕ) (s : System h)
      → s.event_handlers ≡ event_handlers_new h.keyboard
      → (s' : System h) × (keyboard_interrupts h n s ≡ some s') × (s'.console ≡ s.console)
  unfolding keyboard_interrupts
  keyboard_interrupts-ignored zero s no_handlers = (s, refl, refl)
  keyboard_interrupts-ignored (suc n) s no_handlers =
      let (s', returns, same) = keyboard_interrupts-ignored n (scanned h s s.console) no_handlers in
      (s', bind-returns _ (keyboard_interrupt_handler-ignored s no_handlers) returns, same)
