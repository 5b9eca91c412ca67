-- ===== src/Drivers/Screen.antt =====
-- The `Writer` of src/vga_buffer.rs behind a wrapper of src/drivers/driver.rs.
use leaf_os.Common.{
  bind-returns, ◌≡◌, refl, true, Option, none, some, List, [], ◌∷◌, ◌==◌, ◌>>=◌, if◌then◌else◌,
}
use leaf_os.Vga.{Writer, ScreenChar, write_byte_colored}
use leaf_os.Vga
use leaf_os.Vga.Driver
use leaf_os.Vga.Cursor.{emit, ended, write_byte_colored-emit}
use leaf_os.Drivers.{
  CharDriverImpl, Access, CharDriver, CanRead, CanWrite, char_driver_new, write_char, read_char,
}

-- `unimplemented!` is a panic.
pub writer_driver : CharDriverImpl ScreenChar Writer
writer_driver = record {
  driver = record { init = λ idt w. (true, w); exit = λ w. w };
  write_char = λ char w. write_byte_colored w char.ascii_character char.color_code;
  write_char_indexed = λ index char w. Vga.Driver.write_char_indexed w index char;
  read_char = λ w. none;
  read_char_indexed = λ index w. none;
}

module _ {a : Access} where
  -- One character after the other.
  pub write_chars :
      CanWrite a
      → List ScreenChar
      → CharDriver ScreenChar Writer a
      → Option (CharDriver ScreenChar Writer a)
  write_chars can [] d = some d
  write_chars can (char ∷ rest) d = do d' ← write_char can char d; write_chars can rest d'

-- The screen after the characters, a newline ending the row.
pub emitted : Writer → List ScreenChar → Writer
emitted w [] = w
emitted w (char ∷ rest) =
    emitted (if char.ascii_character == b'\n' then ended w else emit w char) rest

-- The screen behind a wrapper with any access that can write takes any characters without a panic:
-- each stands behind the one before in its own colour, on a fresh row if the row was full, and a
-- newline ends the row. Reading behind a wrapper that can read panics.
pub write_chars-emitted :
    (w : Writer) (chars : List ScreenChar)
    → ((a : Access) (can : CanWrite a)
        → write_chars can chars (char_driver_new a writer_driver w)
          ≡ some (char_driver_new a writer_driver (emitted w chars)))
      × ((a : Access) (can : CanRead a) → read_char can (char_driver_new a writer_driver w) ≡ none)
unfolding read_char char_driver_new writer_driver write_chars emitted write_char
write_chars-emitted w chars = (λ a can. written can w chars, λ a can. refl)
  where
    written :
        {a : Access} (can : CanWrite a) (w' : Writer) (chars' : List ScreenChar)
        → write_chars can chars' (char_driver_new a writer_driver w')
          ≡ some (char_driver_new a writer_driver (emitted w' chars'))
    written can w' [] = refl
    written can w' (char ∷ rest) =
        bind-returns _
          (bind-returns _ (write_byte_colored-emit w' char.ascii_character char.color_code) refl)
          (written can (if char.ascii_character == b'\n' then ended w' else emit w' char) rest)
