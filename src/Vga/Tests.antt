-- ===== src/Vga/Tests.antt =====
-- Runs of the screen of src/vga_buffer.rs.
use leaf_os.Common.{◌≡◌, refl, some, [], ◌∷◌, ◌++◌, arith, ◌>>=◌}
use leaf_os.Vga.{
  black, yellow, green, white, Writer, screen_char, color_code_new, from_string, write_string,
  new_line, old_line, is_current_row_clear, set_byte_colored,
}
use leaf_os.Vga.Line.{write_string-line}
use leaf_os.Vga.Row.{old_line-new_line}

-- Yellow on black with the cursor in column 3.
abbrev screen : Writer
screen = record { column_position = 3; color_code = 0x0e; buffer = λ r c. screen_char b'x' 0x0e }

yellow_on_black : color_code_new yellow black ≡ 0x0e
unfolding color_code_new leaf_os.Vga.color_u8
yellow_on_black = refl

write_string-line_example :
    (w' : Writer) × (write_string screen ((b'h' ∷ b'i' ∷ []) ++ b'\n' ∷ []) ≡ some w')
    × (w'.column_position ≡ 0)
write_string-line_example =
    let r = write_string-line screen (b'h' ∷ b'i' ∷ []) (omega arith) (omega arith) in
    (r.0, r.1, r.2)

old_line-new_line_example :
    (w' : Writer) × ((new_line screen >>= old_line) ≡ some w') × (w'.column_position ≡ 0)
old_line-new_line_example = let r = old_line-new_line screen in (r.0, r.1, r.2)
