-- ===== src/Events/Order.antt =====
-- The order in which src/events.rs calls the handlers of a key.
use leaf_os.Common.{
  if◌then◌else◌, inl, inr, Option-cases, Option-cases, ◌≡◌, refl, Option, some, none, List, [], ◌∷◌,
  ◌++◌, ◌>>=◌,
}
use leaf_os.Shell.{Console, Keyboard}
use leaf_os.Events.{
  key_event, has_shell, event_handlers_new, shell_handler, init_kb_handler, KeyboardEvent,
  KeyboardHandler, EventHandlers, call_handlers, call_keyboard_event, register_keyboard_handler,
}

module _ (k : Keyboard) where
  bind_some : (o : Option Console) → (o >>= λ c. some c) ≡ o
  bind_some none = refl
  bind_some (some c) = refl

  call_handlers-append :
      (hs : List (KeyboardHandler k)) (h : KeyboardHandler k) (event : KeyboardEvent k)
      (c : Console)
      → call_handlers k (hs ++ h ∷ []) event c ≡ (call_handlers k hs event c >>= h event)
  unfolding call_handlers
  call_handlers-append [] h event c = bind_some (h event c)
  call_handlers-append (h' ∷ hs) h event c = elim (Option-cases (h' event c)) [
    | inl stops ↦ rw stops refl
    | inr (c', goes_on) ↦ rw goes_on (call_handlers-append hs h event c')
  ]

  -- A handler that is registered is called for every key after the ones before it, on the console
  -- that they leave; if one of them panics, it is not called.
  pub register_keyboard_handler-last :
      (h : EventHandlers k) (handler : KeyboardHandler k) (event : KeyboardEvent k) (c : Console)
      → call_keyboard_event k (register_keyboard_handler k h handler) event c
        ≡ (call_keyboard_event k h event c >>= handler event)
  unfolding register_keyboard_handler
  register_keyboard_handler-last h handler event c = call_handlers-append h.keyboard handler event c

  -- With no other handler, a key goes to the shell once the shell has started, and is dropped before.
  pub init_kb_handler-key_event :
      (event : KeyboardEvent k) (c : Console)
      → call_keyboard_event k (init_kb_handler k (event_handlers_new k)) event c
        ≡ (if has_shell c then key_event k c event.key else some c)
  unfolding init_kb_handler call_handlers shell_handler
  init_kb_handler-key_event event c =
      register_keyboard_handler-last (event_handlers_new k) (shell_handler k) event c

  -- With no handler a key does nothing.
  pub event_handlers_new-call :
      (event : KeyboardEvent k) (c : Console)
      → call_keyboard_event k (event_handlers_new k) event c ≡ some c
  unfolding call_handlers
  event_handlers_new-call event c = refl
