-- ===== src/Shell.antt =====
-- The shell of src/shell.rs over the screen, with the global `SHELL`, `WRITER` and `INITIALIZED`
-- as one console, and `_print` of src/print.rs. `none` is a panic.
pub mod Total
pub mod Typing
pub mod Erasing
pub mod Rows
pub mod Cells
pub mod Wrapping
pub mod Quirks
pub mod Kept
pub mod Boot
mod Tests
use leaf_os.Common.{
  ℕ, ◌+◌, ◌-◌, ◌*◌, ◌/◌, ◌%◌, Bool, true, false, ◌||◌, Option, some, List, [], ◌∷◌, ltb, ◌==◌,
  if◌then◌else◌, ◌>>=◌,
}
use leaf_os.Vga.{
  ColoredString, ScreenChar, Writer, buffer_width, is_printable, new_line, old_line, set_byte,
  write_byte, write_byte_colored, write_string, write_colored_string, is_current_row_clear,
  set_column_position,
}

pub record Shell : Type 0 where
  pub prompt : ColoredString
  pub written_char_count : ℕ
  pub prompt_enabled : Bool

abbrev pub shell_new : ColoredString → Shell
shell_new prompt = record { prompt = prompt; written_char_count = 0; prompt_enabled = true }

pub record Console : Type 0 where
  pub shell : Shell
  pub writer : Writer
  pub initialized : Bool

abbrev pub has_shell : Console → Bool
has_shell c = c.initialized

abbrev pub on_writer : Console → Option Writer → Option Console
on_writer c o = o >>= λ w. some (record c { writer = w })

abbrev pub set_count : Console → ℕ → Console
set_count c n = record c { shell = record c.shell { written_char_count = n } }

pub init : Console → Option Console
init c = do
  clear ← is_current_row_clear c.writer
  w ← if clear then some c.writer else new_line c.writer
  w' ← write_colored_string w c.shell.prompt
  some (record c { writer = w'; initialized = true })

pub write_colored_cells : Console → List ScreenChar → Option Console
write_colored_cells c [] = some c
write_colored_cells c (char ∷ rest) = do
  c' ←
      if char.ascii_character == b'\n'
      then (do
        w ← new_line c.writer
        w' ← write_colored_string w c.shell.prompt
        some (set_count (record c { writer = w' }) 0))
      else if is_printable char.ascii_character
      then on_writer c (write_byte_colored c.writer char.ascii_character char.color_code)
      else on_writer c (write_byte c.writer 0xfe)
  write_colored_cells c' rest

abbrev pub write_colored : Console → ColoredString → Option Console
write_colored c text = write_colored_cells c text.chars

pub print_prompt : Console → Option Console
print_prompt c =
    if c.shell.prompt_enabled
    then on_writer c (write_colored_string c.writer c.shell.prompt)
    else some c

pub newline : Console → Option Console
newline c = do c₁ ← on_writer c (new_line c.writer); c₂ ← print_prompt c₁; some (set_count c₂ 0)

pub write : Console → List ℕ → Option Console
write c [] = some c
write c (char ∷ rest) = do
  c' ←
      if char == b'\n'
      then newline c
      else if is_printable char
      then on_writer c (write_byte c.writer char)
      else on_writer c (write_byte c.writer 0xfe)
  write c' rest

-- `_print`: through the shell once it is initialised, else straight to the screen.
pub print : Console → List ℕ → Option Console
print c text = if has_shell c then write c text else on_writer c (write_string c.writer text)

-- The bytes of a `char` formatted by `{}`: its UTF-8 encoding.
pub utf8 : ℕ → List ℕ
utf8 c =
    if ltb c 0x80
    then c ∷ []
    else if ltb c 0x800
    then (0xc0 + c / 64) ∷ (0x80 + c % 64) ∷ []
    else if ltb c 0x10000
    then (0xe0 + c / 4096) ∷ (0x80 + c / 64 % 64) ∷ (0x80 + c % 64) ∷ []
    else (0xf0 + c / 262144) ∷ (0x80 + c / 4096 % 64) ∷ (0x80 + c / 64 % 64) ∷ (0x80 + c % 64) ∷ []

-- What the crate `pc_keyboard` gives: its key codes, the comparison with `KeyCode::Backspace`, and
-- the bytes of a key code formatted by `{:?}`.
pub record Keyboard : Type 1 where
  pub KeyCode : Type 0
  pub is_backspace : KeyCode → Bool
  pub debug : KeyCode → List ℕ

pub data DecodedKey (K : Type 0) : Type 0 where
  raw_key : K → DecodedKey K
  unicode : ℕ → DecodedKey K

-- What the raw backspace key does to the screen.
pub erase_back : Writer → Option Writer
erase_back w =
    if ltb 0 w.column_position
    then (do
      w' ← write_byte (set_column_position w (w.column_position - 1)) b' '
      some (set_column_position w' (w'.column_position - 1)))
    else some w

-- What the character backspace does to the screen: over the start of a row it goes back to the
-- end of the row before.
pub step_back : Writer → Option Writer
step_back w = do
  w' ←
      if ltb 0 w.column_position
      then some (set_column_position w (w.column_position - 1))
      else (do w₁ ← old_line w; some (set_column_position w₁ (buffer_width - 1)))
  set_byte w' b' '

-- Takes back a character, if there is one, by the given change of the screen.
pub backspace : Console → (Writer → Option Writer) → Option Console
backspace c erase =
    if ltb 0 c.shell.written_char_count
    then (do
      w ← erase c.writer
      some (set_count (record c { writer = w }) (c.shell.written_char_count - 1)))
    else some c

-- Writes the bytes of a key and counts one character.
pub insert : Console → List ℕ → Option Console
insert c bytes = do
  w ← write_string c.writer bytes
  some (set_count (record c { writer = w }) (c.shell.written_char_count + 1))

module _ (k : Keyboard) where
  open k use {KeyCode, is_backspace, debug}

  pub key_event : Console → DecodedKey KeyCode → Option Console
  key_event c (raw_key key) =
      if is_backspace key then backspace c erase_back else insert c (debug key)
  key_event c (unicode key) =
      if key == 8
      then backspace c step_back
      else if key == 10
      then newline c
      else insert c (utf8 key)

abbrev pub set_enable_prompt : Console → Bool → Console
set_enable_prompt c enabled = record c { shell = record c.shell { prompt_enabled = enabled } }
