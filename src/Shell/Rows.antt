-- ===== src/Shell/Rows.antt =====
-- A line of the shell of src/shell.rs that may go over the ends of rows of the screen of
-- src/vga_buffer.rs: where its cells are, and the console while it is edited.
use leaf_os.Common.{ℕ, ◌+◌, ◌-◌, ◌*◌, ◌/◌, ◌%◌, ◌≤◌, ◌<◌, ◌≡◌, ◌∙◌, List, [], ◌∷◌, length, arith}
use leaf_os.Vga.{ScreenChar, screen_char, ColorCode, Buffer, buffer_width}
use leaf_os.Vga.Scroll.{blank}
use leaf_os.Shell.{Console}
use leaf_os.Shell.Typing.{Editing}

-- The cell at a position counted from the start of the row that the line begins on, when the line
-- has gone over the end of a row `wraps` times.
abbrev pub cell_at : Buffer → ℕ → ℕ → ScreenChar
cell_at b wraps i = b (24 - (wraps - i / 80)) (i % 80)

-- The text stands behind `start` positions, wrapped at the ends of the rows.
abbrev pub ShowsWrapped : Buffer → ColorCode → ℕ → ℕ → List ℕ → Type 0
ShowsWrapped b color wraps start [] = Unit
ShowsWrapped b color wraps start (char ∷ text) =
    (cell_at b wraps (start + length text) ≡ screen_char char color)
    × ShowsWrapped b color wraps start text

-- A change of the screen that keeps the cells of a line keeps the line.
pub ShowsWrapped-kept :
    (b b' : Buffer) (color : ColorCode) (wraps wraps' start : ℕ) (text : List ℕ)
    → ((i : ℕ) → i < start + length text → cell_at b' wraps' i ≡ cell_at b wraps i)
    → ShowsWrapped b color wraps start text
    → ShowsWrapped b' color wraps' start text
ShowsWrapped-kept b b' color wraps wraps' start [] kept s = tt
ShowsWrapped-kept b b' color wraps wraps' start (char ∷ text) kept s = (
  kept (start + length text) (omega arith) ∙ s.0,
  ShowsWrapped-kept b b' color wraps wraps' start text (λ i lt. kept i (omega arith)) s.1,
)

-- The console while a line is edited that may go over the ends of `limit` rows, and now does so
-- `wraps` times. The rows above are as they were, but for the first ones, which that many
-- new lines push off the screen.
pub record Wrapped (start limit : ℕ) (before : Buffer) (text : List ℕ) (c : Console) : Type 0 where
  pub wraps : ℕ
  pub most : wraps ≤ limit
  pub count : c.shell.written_char_count ≡ length text
  pub cursor : start + length text ≡ 80 * wraps + c.writer.column_position
  pub on_row : c.writer.column_position ≤ 80
  pub shows : ShowsWrapped c.writer.buffer c.writer.color_code wraps start text
  pub prompt : (i : ℕ) → i < start → cell_at c.writer.buffer wraps i ≡ before 24 i
  pub blanks :
      (col : ℕ)
      → c.writer.column_position ≤ col
      → col < 80
      → c.writer.buffer 24 col ≡ blank c.writer.color_code
  pub rows :
      (row col : ℕ)
      → col < 80
      → limit ≤ row + wraps
      → row + wraps < 24
      → c.writer.buffer row col ≡ before (row + wraps) col

-- A line on one row, behind a prompt, has not wrapped yet.
pub Editing-Wrapped :
    (limit : ℕ) {start : ℕ} {before : Buffer} {c : Console}
    → Editing start before [] c
    → start ≤ buffer_width
    → Wrapped start limit before [] c
Editing-Wrapped limit {start} {before} {c} e fits = record {
  wraps = 0;
  most = omega arith;
  count = e.count;
  cursor = omega (arith, e.cursor);
  on_row = omega (arith, e.cursor);
  shows = tt;
  prompt = λ i lt.
      let row : 24 - (0 - i / 80) ≡ 24 = omega arith in
      let col : i % 80 ≡ i = omega arith in rw (row, col) (e.prompt i lt);
  blanks = λ col lo hi. e.blanks col (omega (arith, e.cursor)) hi;
  rows = λ row col lt lo hi.
      let same : row + 0 ≡ row = omega arith in rw same (e.rows row col (omega arith));
}
