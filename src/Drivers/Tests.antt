-- ===== src/Drivers/Tests.antt =====
-- Runs of src/drivers/driver.rs.
use leaf_os.Common.{◌≡◌, some, none, List, [], ◌∷◌}
use leaf_os.Vga.{Writer, ScreenChar, screen_char}
use leaf_os.Drivers.{Access, CanRead, CanWrite, char_driver_new, read_char}
use leaf_os.Drivers.Screen.{writer_driver, write_chars, emitted, write_chars-emitted}

abbrev screen : Writer
screen = record { column_position = 79; color_code = 0x0e; buffer = λ r c. screen_char b' ' 0x0e }

abbrev letters : List ScreenChar
letters = screen_char b'a' 0x0f ∷ screen_char b'b' 0x0e ∷ screen_char b'\n' 0x0f ∷ []

write_chars-emitted_example :
    ((a : Access) (can : CanWrite a)
      → write_chars can letters (char_driver_new a writer_driver screen)
        ≡ some (char_driver_new a writer_driver (emitted screen letters)))
    × ((a : Access) (can : CanRead a)
        → read_char can (char_driver_new a writer_driver screen) ≡ none)
write_chars-emitted_example = write_chars-emitted screen letters
