-- ===== src/Interrupts/Sample.antt =====
-- A small machine to run src/interrupts.rs on: its controllers count what they are told, and its
-- keyboard sends characters.
use leaf_os.Common.{
  ℕ, ◌+◌, Bool, true, false, none, some, List, [], ◌∷◌, ◌==◌, if◌then◌else◌, ok, bytes,
}
use leaf_os.Vga.{screen_char}
use leaf_os.Shell.{Console, Keyboard, unicode}
use leaf_os.Pit.{Ports}
use leaf_os.Events.{event_handlers_new}
use leaf_os.Interrupts.{Hardware, System}

abbrev pub ports : Ports
ports = record {
  Device = List ℕ;
  write = λ port byte d. d;
  read = λ port d. if port == 0x60 then next d else (16, d);
}
  where
    next : List ℕ → ℕ × List ℕ
    next [] = (0, [])
    next (scancode ∷ rest) = (scancode, rest)

abbrev pub keyboard : Keyboard
keyboard = record { KeyCode = Bool; is_backspace = λ key. key; debug = λ key. bytes "F1" }

abbrev pub hardware : Hardware
hardware = record {
  ports = ports;
  keyboard = keyboard;
  Lapic = ℕ;
  build = λ timer error spurious base. some 0;
  set_timer_divide = λ n l. l;
  set_timer_initial = λ n l. l;
  set_timer_mode = λ mode l. l;
  enable = λ l. l;
  lapic_end_of_interrupt = λ l. l + 1;
  Pics = ℕ;
  initialize = λ pics. pics;
  notify_end_of_interrupt = λ id pics. pics + 1;
  Decoder = ℕ;
  KeyEvent = ℕ;
  DecodeError = ℕ;
  add_byte = λ scancode decoder. (ok (some scancode), decoder);
  process_keyevent = λ key decoder. (some (unicode key), decoder);
  display = λ n. n ∷ [];
}

-- A blank screen, a prompt of two cells, and nothing typed.
abbrev pub console : Console
console = record {
  shell = record {
    prompt = record {
      chars = screen_char b'>' 0x0f ∷ screen_char b' ' 0x0f ∷ [];
      curr_color = 0x0f;
    };
    written_char_count = 0;
    prompt_enabled = true;
  };
  writer = record { column_position = 0; color_code = 0x0e; buffer = λ r c. screen_char b' ' 0x0e };
  initialized = false;
}

abbrev pub system : System hardware
system = record {
  console = console;
  event_handlers = event_handlers_new keyboard;
  decoder = 0;
  lapic = some 0;
  pics = 0;
  triggered_once = false;
  apic_timer_frequency = 0;
  idt = λ n. none;
  machine = record { device = bytes "ho"; interrupts_enabled = true };
}
