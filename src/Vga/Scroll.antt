-- ===== src/Vga/Scroll.antt =====
-- What the loops of src/vga_buffer.rs that move whole rows leave on the screen.
use leaf_os.Common.{
  ℕ, zero, suc, ◌+◌, ◌-◌, ◌≤◌, ◌<◌, ◌≡◌, ap, ◌∙◌, ◌≢◌, fun_ext, ◌&&◌, some, ltb, leb, ◌==◌,
  if◌then◌else◌, arith,
}
use leaf_os.Vga.{
  ScreenChar, screen_char, ColorCode, Buffer, buffer_height, buffer_width, Writer, in_bounds, read,
  write, update, copy_cols, scroll_up, scroll_down, fill_cols, clear_row, new_line, old_line,
}

pub read_lem :
    (b : Buffer) (row col : ℕ)
    → row < buffer_height
    → col < buffer_width
    → read b row col ≡ some (b row col)
unfolding read
read_lem b row col hr hc = ground arith

pub write_lem :
    (b : Buffer) (row col : ℕ) (v : ScreenChar)
    → row < buffer_height
    → col < buffer_width
    → write b row col v ≡ some (update b row col v)
unfolding write
write_lem b row col v hr hc = ground arith

-- Row `dst` has the cells of row `src` in the columns from `lo` up to `hi`.
abbrev pub row_copied : ℕ → ℕ → ℕ → ℕ → Buffer → Buffer
row_copied src dst lo hi b r c = if r == dst && leb lo c && ltb c hi then b src c else b r c

copy_cols-row_copied :
    (src dst left col : ℕ) (b : Buffer)
    → src ≢ dst
    → src < buffer_height
    → dst < buffer_height
    → col + left ≤ buffer_width
    → copy_cols src dst left col b ≡ some (row_copied src dst col (col + left) b)
unfolding copy_cols
copy_cols-row_copied src dst zero col b ne hs hd hc =
    ap some (fun_ext λ r. fun_ext λ c. ground arith)
copy_cols-row_copied src dst (suc left) col b ne hs hd hc =
    rw (read_lem b src col hs (omega arith), write_lem b dst col (b src col) hd (omega arith))
      (copy_cols-row_copied src dst left (col + 1) (update b dst col (b src col)) ne hs hd
          (omega arith)
        ∙ ap some (fun_ext λ r. fun_ext λ c. ground arith))

-- The rows from `lo` up to `hi` have moved up by one.
abbrev pub moved_up : ℕ → ℕ → Buffer → Buffer
moved_up lo hi b r c =
    if leb lo (r + 1) && ltb (r + 1) hi && ltb c buffer_width then b (r + 1) c else b r c

scroll_up-moved_up :
    (left row : ℕ) (b : Buffer)
    → 1 ≤ row
    → row + left ≤ buffer_height
    → scroll_up left row b ≡ some (moved_up row (row + left) b)
unfolding scroll_up
scroll_up-moved_up zero row b h hr = ap some (fun_ext λ r. fun_ext λ c. ground arith)
scroll_up-moved_up (suc left) row b h hr =
    rw
      (copy_cols-row_copied row (row - 1) buffer_width 0 b (omega arith) (omega arith) (omega arith)
        (omega arith))
      (scroll_up-moved_up left (row + 1) (row_copied row (row - 1) 0 buffer_width b) (omega arith)
          (omega arith)
        ∙ ap some (fun_ext λ r. fun_ext λ c. ground arith))

-- The rows below `hi` have moved down by one, row 0 included.
abbrev pub moved_down : ℕ → Buffer → Buffer
moved_down hi b r c = if leb 1 r && leb r hi && ltb c buffer_width then b (r - 1) c else b r c

scroll_down-moved_down :
    (row : ℕ) (b : Buffer) → row < buffer_height → scroll_down row b ≡ some (moved_down row b)
unfolding scroll_down
scroll_down-moved_down zero b h = ap some (fun_ext λ r. fun_ext λ c. ground arith)
scroll_down-moved_down (suc row) b h =
    rw
      (copy_cols-row_copied row (row + 1) buffer_width 0 b (omega arith) (omega arith) (omega arith)
        (omega arith))
      (scroll_down-moved_down row (row_copied row (row + 1) 0 buffer_width b) (omega arith)
        ∙ ap some (fun_ext λ r. fun_ext λ c. ground arith))

abbrev pub row_filled : ℕ → ScreenChar → ℕ → ℕ → Buffer → Buffer
row_filled row v lo hi b r c = if r == row && leb lo c && ltb c hi then v else b r c

fill_cols-row_filled :
    (row : ℕ) (v : ScreenChar) (left col : ℕ) (b : Buffer)
    → row < buffer_height
    → col + left ≤ buffer_width
    → fill_cols row v left col b ≡ some (row_filled row v col (col + left) b)
unfolding fill_cols
fill_cols-row_filled row v zero col b hr hc = ap some (fun_ext λ r. fun_ext λ c. ground arith)
fill_cols-row_filled row v (suc left) col b hr hc = rw (write_lem b row col v hr (omega arith)) (
    fill_cols-row_filled row v left (col + 1) (update b row col v) hr (omega arith)
    ∙ ap some (fun_ext λ r. fun_ext λ c. ground arith))

-- The blank cell that `clear_row` writes.
abbrev pub blank : ColorCode → ScreenChar
blank color = screen_char b' ' color

-- The screen after a new line: every row moved up by one, and the last one blank.
abbrev pub scrolled : ColorCode → Buffer → Buffer
scrolled color b r c =
    if in_bounds r c then (if r == buffer_height - 1 then blank color else b (r + 1) c) else b r c

-- The screen after `old_line`: every row moved down by one, and the first one blank.
abbrev pub unscrolled : ColorCode → Buffer → Buffer
unscrolled color b r c =
    if in_bounds r c then (if r == 0 then blank color else b (r - 1) c) else b r c

-- `new_line` does not panic: it moves every row up by one, blanks the last row in the writer's
-- colour, and puts the cursor at column 0.
pub new_line-scrolled :
    (w : Writer)
    → new_line w ≡ some (record w { column_position = 0; buffer = scrolled w.color_code w.buffer })
unfolding new_line clear_row
new_line-scrolled w = rw (scroll_up-moved_up 24 1 w.buffer (omega arith) (omega arith)) (
    rw
      (fill_cols-row_filled 24 (blank w.color_code) 80 0 (moved_up 1 25 w.buffer) (omega arith)
        (omega arith))
      (ap (λ (b : Buffer). some (record w { column_position = 0; buffer = b }))
        (fun_ext λ r. fun_ext λ c. ground arith)))

-- `old_line` does not panic: it moves every row down by one, blanks the first row in the writer's
-- colour, and puts the cursor at column 0.
pub old_line-unscrolled :
    (w : Writer)
    → old_line w
      ≡ some (record w { column_position = 0; buffer = unscrolled w.color_code w.buffer })
unfolding old_line clear_row
old_line-unscrolled w = rw (scroll_down-moved_down 24 w.buffer (omega arith)) (
    rw
      (fill_cols-row_filled 0 (blank w.color_code) 80 0 (moved_down 24 w.buffer) (omega arith)
        (omega arith))
      (ap (λ (b : Buffer). some (record w { column_position = 0; buffer = b }))
        (fun_ext λ r. fun_ext λ c. ground arith)))
