-- ===== src/Shell/Erasing.antt =====
-- How the two erasing steps of `key_event` in src/shell.rs change the screen: one column back in
-- the row, or to the end of the row before.
use leaf_os.Common.{ℕ, ◌-◌, ◌≡◌, ap, inl, inr, some, ltb, if◌then◌else◌, Bool-cases, arith}
use leaf_os.Vga.{ScreenChar, screen_char, Writer, buffer_width, set_column_position}
use leaf_os.Vga.Scroll.{old_line-unscrolled, unscrolled}
use leaf_os.Vga.Cursor
use leaf_os.Vga.Cursor.{
  wrapped-lt, shown, emit-put_at, wrapped_self, set_byte-put_at, write_byte-emit,
  write_colored_string-emit_all, put_at, emit, ended, printed, emit_all, set_byte_colored-put_at,
  write_byte_colored-emit, write_string-printed, write_cells-emit_all,
}
use leaf_os.Shell.{erase_back, step_back}

-- The writer one column back.
abbrev pub back : Writer → Writer
back w = set_column_position w (w.column_position - 1)

pub erase_back-put_at :
    (w : Writer)
    → Cursor.IsValid w
    → erase_back w
      ≡ some
          (if ltb 0 w.column_position then put_at (back w) (screen_char b' ' w.color_code) else w)
unfolding erase_back
erase_back-put_at w v = elim (Bool-cases (ltb 0 w.column_position)) [
  | inl e ↦ rw e (
      rw (write_byte-emit (back w) b' ', emit-put_at (back w) cell (ground arith))
        (ap (λ (n : ℕ). some (set_column_position (put_at (back w) cell) n)) (omega arith)))
  | inr e ↦ rw e
]
  where
    cell : ScreenChar
    cell = screen_char b' ' w.color_code

-- The writer at the end of the row before.
abbrev pub row_before : Writer → Writer
row_before w = record w {
  column_position = buffer_width - 1;
  buffer = unscrolled w.color_code w.buffer;
}

pub step_back-put_at :
    (w : Writer)
    → Cursor.IsValid w
    → step_back w
      ≡ some (
          put_at
            (if ltb 0 w.column_position then back w else row_before w)
            (screen_char b' ' w.color_code))
unfolding step_back
step_back-put_at w v = elim (Bool-cases (ltb 0 w.column_position)) [
  | inl e ↦ rw e (
      rw (set_byte-put_at (back w)) (
        ap (λ w'. some (put_at w' (screen_char b' ' w.color_code)))
          (wrapped_self (back w) (ground arith))))
  | inr e ↦ rw e (rw (old_line-unscrolled w) (set_byte-put_at (row_before w)))
]

pub erase_back-IsValid :
    (w : Writer) → Cursor.IsValid w → (w' : Writer) × (erase_back w ≡ some w') × Cursor.IsValid w'
erase_back-IsValid w v = (_, erase_back-put_at w v, ground arith)

pub step_back-IsValid :
    (w : Writer) → Cursor.IsValid w → (w' : Writer) × (step_back w ≡ some w') × Cursor.IsValid w'
step_back-IsValid w v = (_, step_back-put_at w v, ground arith)
