-- ===== src/Shell/Tests.antt =====
-- Runs of the shell of src/shell.rs.
use leaf_os.Common.{◌≡◌, refl, Bool, true, false, some, [], ◌∷◌, ◌>>=◌, arith}
use leaf_os.Vga.{screen_char}
use leaf_os.Shell.{Console, Keyboard, raw_key, unicode, key_event, print}
use leaf_os.Shell.Total.{Continues, key_event-Continues, print-Continues}
use leaf_os.Shell.Typing.{press, erase, Editing, type_keys, edit_all}
use leaf_os.Shell.Rows.{Wrapped, Editing-Wrapped}
use leaf_os.Shell.Wrapping.{type_keys-Wrapped}
use leaf_os.Shell.Quirks.{key_event-two_bytes}

-- A keyboard with two raw keys, the first of them backspace.
abbrev keyboard : Keyboard
keyboard = record { KeyCode = Bool; is_backspace = λ k. k; debug = λ k. b'U' ∷ b'p' ∷ [] }

-- A prompt of two cells, typed behind on a blank screen.
abbrev console : Console
console = record {
  shell = record {
    prompt = record {
      chars = screen_char b'>' 0x0f ∷ screen_char b' ' 0x0f ∷ [];
      curr_color = 0x0f;
    };
    written_char_count = 0;
    prompt_enabled = true;
  };
  writer = record { column_position = 2; color_code = 0x0e; buffer = λ r c. screen_char b' ' 0x0e };
  initialized = true;
}

-- The same before the prompt, and with the prompt disabled.
abbrev unstarted : Console
unstarted = record console { writer = record console.writer { column_position = 0 } }

abbrev disabled : Console
disabled = record console { shell = record console.shell { prompt_enabled = false } }

console-Editing : Editing 2 console.writer.buffer [] console
console-Editing = record {
  count = refl;
  cursor = refl;
  shows = tt;
  blanks = λ col lo hi. refl;
  prompt = λ col lt. refl;
  rows = λ row col lt. refl;
}

-- The same with a prompt that leaves room for one character on its row.
abbrev long_prompt : Console
long_prompt = record console { writer = record console.writer { column_position = 79 } }

long_prompt-Editing : Editing 79 long_prompt.writer.buffer [] long_prompt
long_prompt-Editing = record {
  count = refl;
  cursor = refl;
  shows = tt;
  blanks = λ col lo hi. refl;
  prompt = λ col lt. refl;
  rows = λ row col lt. refl;
}

type_keys-Wrapped_example :
    (c' : Console) × (type_keys keyboard long_prompt
        (press b'h' ∷ press b'o' ∷ erase ∷ erase ∷ press b'i' ∷ press b'j' ∷ [])
      ≡ some c')
    × Wrapped 79 1 long_prompt.writer.buffer (b'j' ∷ b'i' ∷ []) c'
unfolding edit_all
type_keys-Wrapped_example =
    type_keys-Wrapped keyboard 79 1 (omega arith) long_prompt.writer.buffer [] long_prompt
      (press b'h' ∷ press b'o' ∷ erase ∷ erase ∷ press b'i' ∷ press b'j' ∷ [])
      (Editing-Wrapped 1 long_prompt-Editing (omega arith))
      (refl, (refl, (tt, (tt, (refl, (refl, tt)))))) (omega arith)

key_event-Continues_example : Continues console (key_event keyboard console (raw_key true))
key_event-Continues_example = key_event-Continues keyboard console (raw_key true) (omega arith)

print-Continues_example : Continues console (print console (b'h' ∷ b'\n' ∷ []))
print-Continues_example = print-Continues console (b'h' ∷ b'\n' ∷ []) (omega arith)

key_event-two_bytes_example :
    (c' : Console) × ((key_event keyboard console (unicode 0xe9) >>= λ t.
    key_event keyboard t (unicode 8))
      ≡ some c')
    × (c'.shell.written_char_count ≡ 0)
    × (c'.writer.column_position ≡ 3)
    × (c'.writer.buffer 24 2 ≡ screen_char 0xfe 0x0e)
key_event-two_bytes_example =
    key_event-two_bytes keyboard console 0xe9 (omega arith) (omega arith) (omega arith)
