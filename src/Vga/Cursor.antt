-- ===== src/Vga/Cursor.antt =====
-- Where src/vga_buffer.rs puts a byte and moves the cursor: `set_byte_colored`, `write_byte` and
-- the loops over bytes and cells.
use leaf_os.Common.{
  ℕ, ap, ◌+◌, ◌-◌, ◌≤◌, ◌<◌, ◌≡◌, refl, ◌∙◌, inl, inr, true, false, ◌||◌, some, List, [], ◌∷◌, map,
  leb, ◌==◌, if◌then◌else◌, Bool-cases, lt→leb, arith,
}
use leaf_os.Vga.{
  ColoredString, write_colored_string, ScreenChar, screen_char, ColorCode, buffer_height,
  buffer_width, Writer, update, wrap_line, put_cell, set_byte_colored, set_byte, write_byte_colored,
  write_byte, is_printable, write_string, write_cells,
}
use leaf_os.Vga.Scroll.{scrolled, write_lem, new_line-scrolled}

-- The writer at the start of a fresh row.
abbrev pub ended : Writer → Writer
ended w = record w { column_position = 0; buffer = scrolled w.color_code w.buffer }

abbrev pub wrapped : Writer → Writer
wrapped w = if leb buffer_width w.column_position then ended w else w

-- A cell at the cursor of a writer whose cursor is on the row.
abbrev pub put_at : Writer → ScreenChar → Writer
put_at w cell = record w { buffer = update w.buffer (buffer_height - 1) w.column_position cell }

abbrev pub moved : Writer → Writer
moved w = record w { column_position = w.column_position + 1 }

-- A cell behind the last one, on a fresh row if the last one is full.
unfoldable pub emit : Writer → ScreenChar → Writer
emit w cell = moved (put_at (wrapped w) cell)

unfoldable pub emit_all : Writer → List ScreenChar → Writer
unfolding emit
emit_all w [] = w
emit_all w (cell ∷ rest) = emit_all (emit w cell) rest

wrap_line-wrapped : (w : Writer) → wrap_line w ≡ some (wrapped w)
unfolding wrap_line
wrap_line-wrapped w = elim (Bool-cases (leb buffer_width w.column_position)) [
  | inl past ↦ rw past (new_line-scrolled w)
  | inr on ↦ rw on
]

pub wrapped-lt : (w : Writer) → (wrapped w).column_position < buffer_width
wrapped-lt w = ground arith

put_cell-wrapped :
    (w : Writer) (cell : ScreenChar) → put_cell (wrapped w) cell ≡ some (put_at (wrapped w) cell)
unfolding put_cell
put_cell-wrapped w cell = rw (
    write_lem (wrapped w).buffer (buffer_height - 1) (wrapped w).column_position cell (omega arith)
      (wrapped-lt w))

-- `set_byte_colored` does not panic, wherever the cursor is: a newline ends the row and is
-- reported, any other byte becomes the cell at the cursor, on a fresh row if the row was full.
pub set_byte_colored-put_at :
    (w : Writer) (char : ℕ) (color : ColorCode)
    → set_byte_colored w char color ≡ (
        if char == b'\n'
        then some (ended w, true)
        else some (put_at (wrapped w) (screen_char char color), false))
unfolding set_byte_colored
set_byte_colored-put_at w char color = elim (Bool-cases (char == b'\n')) [
  | inl e ↦ rw e (rw (new_line-scrolled w))
  | inr e ↦ rw e (rw (wrap_line-wrapped w) (rw (put_cell-wrapped w (screen_char char color))))
]

-- `write_byte_colored` does not panic, wherever the cursor is: a newline ends the row, and any
-- other byte goes behind the last cell, on a fresh row if the row was full.
pub write_byte_colored-emit :
    (w : Writer) (char : ℕ) (color : ColorCode)
    → write_byte_colored w char color
      ≡ some (if char == b'\n' then ended w else emit w (screen_char char color))
unfolding write_byte_colored emit
write_byte_colored-emit w char color =
    rw (set_byte_colored-put_at w char color)
      (elim (Bool-cases (char == b'\n')) [ inl e ↦ rw e | inr e ↦ rw e ])

-- `write_colored_string` does not panic: its cells go behind the last one, each with its own
-- colour, newline bytes included.
pub write_cells-emit_all :
    (w : Writer) (cells : List ScreenChar) → write_cells w cells ≡ some (emit_all w cells)
unfolding write_cells emit emit_all
write_cells-emit_all w [] = refl
write_cells-emit_all w (cell ∷ rest) =
    rw (wrap_line-wrapped w)
      (rw (put_cell-wrapped w cell) (write_cells-emit_all (emit w cell) rest))

-- The byte that the screen shows for a byte of text.
abbrev pub shown : ℕ → ℕ
shown char = if is_printable char then char else 0xfe

abbrev pub cells_of : ColorCode → List ℕ → List ScreenChar
cells_of color s = map (λ char. screen_char (shown char) color) s

-- The writer after one byte of a text, and after a text.
unfoldable pub typed : Writer → ℕ → Writer
unfolding emit
typed w char = if char == b'\n' then ended w else emit w (screen_char (shown char) w.color_code)

unfoldable pub printed : Writer → List ℕ → Writer
unfolding typed
printed w [] = w
printed w (char ∷ rest) = printed (typed w char) rest

written : ℕ → ℕ
written char = if is_printable char || char == b'\n' then char else 0xfe

written-newline : (char : ℕ) → (written char == b'\n') ≡ (char == b'\n')
unfolding written
written-newline char = ground arith

written-shown : (char : ℕ) → (char == b'\n') ≡ false → written char ≡ shown char
unfolding written
written-shown char h = ground arith

write_byte-typed : (w : Writer) (char : ℕ) → write_byte w (written char) ≡ some (typed w char)
unfolding write_byte typed
write_byte-typed w char =
    write_byte_colored-emit w (written char) w.color_code
    ∙ rw (written-newline char) (elim (Bool-cases (char == b'\n')) [
      | inl e ↦ rw e
      | inr e ↦ rw e (ap (λ b. some (emit w (screen_char b w.color_code))) (written-shown char e))
    ])

-- `write_string` does not panic, wherever the cursor is: byte by byte, a newline ends the row, a
-- printable byte goes behind the last cell, and any other byte is shown as 0xfe there.
pub write_string-printed : (w : Writer) (s : List ℕ) → write_string w s ≡ some (printed w s)
unfolding write_string printed written
write_string-printed w [] = refl
write_string-printed w (char ∷ rest) =
    rw (write_byte-typed w char) (write_string-printed (typed w char) rest)

-- The cursor is on the row or just behind it.
abbrev pub IsValid : Writer → Type 0
IsValid w = w.column_position ≤ buffer_width

emit-IsValid : (w : Writer) (cell : ScreenChar) → IsValid (emit w cell)
unfolding emit
emit-IsValid w cell = omega (arith, wrapped-lt w)

typed-IsValid : (w : Writer) (char : ℕ) → IsValid (typed w char)
unfolding typed
typed-IsValid w char = elim (Bool-cases (char == b'\n')) [
  | inl e ↦ rw e (omega arith)
  | inr e ↦ rw e (emit-IsValid w (screen_char (shown char) w.color_code))
]

pub printed-IsValid : (w : Writer) (s : List ℕ) → IsValid w → IsValid (printed w s)
unfolding printed
printed-IsValid w [] v = v
printed-IsValid w (char ∷ rest) v = printed-IsValid (typed w char) rest (typed-IsValid w char)

pub emit_all-IsValid :
    (w : Writer) (cells : List ScreenChar) → IsValid w → IsValid (emit_all w cells)
unfolding emit_all
emit_all-IsValid w [] v = v
emit_all-IsValid w (cell ∷ rest) v = emit_all-IsValid (emit w cell) rest (emit-IsValid w cell)

pub write_byte-emit :
    (w : Writer) (char : ℕ)
    → write_byte w char
      ≡ some (if char == b'\n' then ended w else emit w (screen_char char w.color_code))
unfolding write_byte
write_byte-emit w char = write_byte_colored-emit w char w.color_code

pub set_byte-put_at :
    (w : Writer) → set_byte w b' ' ≡ some (put_at (wrapped w) (screen_char b' ' w.color_code))
unfolding set_byte
set_byte-put_at w = rw (set_byte_colored-put_at w b' ' w.color_code)

pub write_colored_string-emit_all :
    (w : Writer) (s : ColoredString) → write_colored_string w s ≡ some (emit_all w s.chars)
unfolding write_colored_string
write_colored_string-emit_all w s = write_cells-emit_all w s.chars

pub wrapped_self : (w : Writer) → w.column_position < buffer_width → wrapped w ≡ w
wrapped_self w h = rw (lt→leb buffer_width w.column_position h)

pub emit-put_at :
    (w : Writer) (v : ScreenChar) → w.column_position < buffer_width → emit w v ≡ moved (put_at w v)
unfolding emit
emit-put_at w v h = ap (λ w'. moved (put_at w' v)) (wrapped_self w h)
