-- ===== src/Events.antt =====
-- Keyboard events of src/events.rs, and the handler that `init_kb_handler` of src/lib.rs registers.
-- A handler is what it does to the console; `none` is a panic.
pub mod Order
use leaf_os.Common.{Option, some, List, [], ◌∷◌, ◌++◌, if◌then◌else◌, ◌>>=◌}
use leaf_os.Shell.{Console, Keyboard, DecodedKey, has_shell, key_event}

module _ (k : Keyboard) where
  pub record KeyboardEvent : Type 0 where
    pub key : DecodedKey k.KeyCode

  abbrev pub KeyboardHandler : Type 0
  KeyboardHandler = KeyboardEvent → Console → Option Console

  pub record EventHandlers : Type 0 where
    pub keyboard : List KeyboardHandler

  abbrev pub event_handlers_new : EventHandlers
  event_handlers_new = record { keyboard = [] }

  pub register_keyboard_handler : EventHandlers → KeyboardHandler → EventHandlers
  register_keyboard_handler h handler = record { keyboard = h.keyboard ++ handler ∷ [] }

  pub call_handlers : List KeyboardHandler → KeyboardEvent → Console → Option Console
  call_handlers [] event c = some c
  call_handlers (handler ∷ rest) event c = do c' ← handler event c; call_handlers rest event c'

  abbrev pub call_keyboard_event : EventHandlers → KeyboardEvent → Console → Option Console
  call_keyboard_event h event c = call_handlers h.keyboard event c

  pub shell_handler : KeyboardHandler
  shell_handler event c = if has_shell c then key_event k c event.key else some c

  pub init_kb_handler : EventHandlers → EventHandlers
  init_kb_handler h = register_keyboard_handler h shell_handler
