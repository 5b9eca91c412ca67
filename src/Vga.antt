-- ===== src/Vga.antt =====
-- The text screen of src/vga_buffer.rs: colours, cells, strings of cells, and `Writer` with its
-- 25 rows of 80 cells. A `Volatile` cell is read and written as it stands.
pub mod Scroll
pub mod Cursor
pub mod Line
pub mod Row
pub mod Colors
pub mod Driver
mod Tests
use leaf_os.Common.{
  ℕ, zero, suc, ◌+◌, ◌-◌, ◌*◌, ◌%◌, bit_or, Bool, true, false, not, ◌&&◌, ◌||◌, Option, none, some,
  List, [], ◌∷◌, ◌++◌, ltb, leb, ◌==◌, if◌then◌else◌, ◌>>=◌,
}

pub data Color : Type 0 where
  black blue green cyan red magenta brown light_gray : Color
  dark_gray light_blue light_green light_cyan light_red pink yellow white : Color

-- `color as u8`.
pub color_u8 : Color → ℕ
color_u8 black = 0
color_u8 blue = 1
color_u8 green = 2
color_u8 cyan = 3
color_u8 red = 4
color_u8 magenta = 5
color_u8 brown = 6
color_u8 light_gray = 7
color_u8 dark_gray = 8
color_u8 light_blue = 9
color_u8 light_green = 10
color_u8 light_cyan = 11
color_u8 light_red = 12
color_u8 pink = 13
color_u8 yellow = 14
color_u8 white = 15

-- The byte of a `ColorCode`.
abbrev pub ColorCode : Type 0
ColorCode = ℕ

-- `(background as u8) << 4 | (foreground as u8)`, where the shift drops what leaves the byte.
pub color_code_new : Color → Color → ColorCode
color_code_new foreground background = bit_or (color_u8 background * 16 % 256) (color_u8 foreground)

pub record ScreenChar : Type 0 where
  pub ascii_character : ℕ
  pub color_code : ColorCode

abbrev pub screen_char : ℕ → ColorCode → ScreenChar
screen_char char color = record { ascii_character = char; color_code = color }

pub record ColoredString : Type 0 where
  pub chars : List ScreenChar
  pub curr_color : ColorCode

pub colored_string_new : ColoredString
colored_string_new = record { chars = []; curr_color = color_code_new white black }

pub push_char : ColoredString → ℕ → ColoredString
push_char s char = record s { chars = s.chars ++ screen_char char s.curr_color ∷ [] }

pub set_color : ColoredString → ColorCode → ColoredString
set_color s color = record s { curr_color = color }

pub push_colored : ColoredString → ℕ → ColorCode → ColoredString
push_colored s char color = push_char (set_color s color) char

pub push_bytes : ColoredString → List ℕ → ColoredString
push_bytes s [] = s
push_bytes s (char ∷ rest) = push_bytes (push_char s char) rest

pub from_string : List ℕ → ColoredString
from_string str = push_bytes colored_string_new str

abbrev pub buffer_height : ℕ
buffer_height = 25

abbrev pub buffer_width : ℕ
buffer_width = 80

abbrev pub Buffer : Type 0
Buffer = ℕ → ℕ → ScreenChar

abbrev pub in_bounds : ℕ → ℕ → Bool
in_bounds row col = ltb row buffer_height && ltb col buffer_width

-- `chars[row][col].read()`: an index out of bounds panics.
pub read : Buffer → ℕ → ℕ → Option ScreenChar
read b row col = if in_bounds row col then some (b row col) else none

abbrev pub update : Buffer → ℕ → ℕ → ScreenChar → Buffer
update b row col v r c = if r == row && c == col then v else b r c

-- `chars[row][col].write(v)`.
pub write : Buffer → ℕ → ℕ → ScreenChar → Option Buffer
write b row col v = if in_bounds row col then some (update b row col v) else none

pub record Writer : Type 0 where
  pub column_position : ℕ
  pub color_code : ColorCode
  pub buffer : Buffer

-- The loop over the columns from `col` on, `left` of them, that copies row `src` to row `dst`.
pub copy_cols : ℕ → ℕ → ℕ → ℕ → Buffer → Option Buffer
copy_cols src dst zero col b = some b
copy_cols src dst (suc left) col b = do
  character ← read b src col
  b' ← write b dst col character
  copy_cols src dst left (col + 1) b'

-- `for row in 1..BUFFER_HEIGHT`, from `row` on.
pub scroll_up : ℕ → ℕ → Buffer → Option Buffer
scroll_up zero row b = some b
scroll_up (suc left) row b = do
  b' ← copy_cols row (row - 1) buffer_width 0 b
  scroll_up left (row + 1) b'

-- `for row in (0..(BUFFER_HEIGHT - 1)).rev()`: the rows below the argument, downwards.
pub scroll_down : ℕ → Buffer → Option Buffer
scroll_down zero b = some b
scroll_down (suc row) b = do b' ← copy_cols row (row + 1) buffer_width 0 b; scroll_down row b'

pub fill_cols : ℕ → ScreenChar → ℕ → ℕ → Buffer → Option Buffer
fill_cols row blank zero col b = some b
fill_cols row blank (suc left) col b = do
  b' ← write b row col blank
  fill_cols row blank left (col + 1) b'

pub clear_row : Writer → ℕ → Option Writer
clear_row w row = do
  b ← fill_cols row (screen_char b' ' w.color_code) buffer_width 0 w.buffer
  some (record w { buffer = b })

pub new_line : Writer → Option Writer
new_line w = do
  b ← scroll_up (buffer_height - 1) 1 w.buffer
  w' ← clear_row (record w { buffer = b }) (buffer_height - 1)
  some (record w' { column_position = 0 })

pub old_line : Writer → Option Writer
old_line w = do
  b ← scroll_down (buffer_height - 1) w.buffer
  w' ← clear_row (record w { buffer = b }) 0
  some (record w' { column_position = 0 })

-- Ends the row if the column is past it.
pub wrap_line : Writer → Option Writer
wrap_line w = if leb buffer_width w.column_position then new_line w else some w

-- Writes a cell at the cursor, without moving it.
pub put_cell : Writer → ScreenChar → Option Writer
put_cell w cell = do
  b ← write w.buffer (buffer_height - 1) w.column_position cell
  some (record w { buffer = b })

-- Returns the writer, and whether the byte was a newline.
pub set_byte_colored : Writer → ℕ → ColorCode → Option (Writer × Bool)
set_byte_colored w char color =
    if char == b'\n'
    then (do w' ← new_line w; some (w', true))
    else do w₁ ← wrap_line w; w₂ ← put_cell w₁ (screen_char char color); some (w₂, false)

pub set_byte : Writer → ℕ → Option Writer
set_byte w char = do (w', ended) ← set_byte_colored w char w.color_code; some w'

pub write_byte_colored : Writer → ℕ → ColorCode → Option Writer
write_byte_colored w char color = do
  (w', ended) ← set_byte_colored w char color
  some (if not ended then record w' { column_position = w'.column_position + 1 } else w')

pub write_byte : Writer → ℕ → Option Writer
write_byte w char = write_byte_colored w char w.color_code

-- `0x20..=0x7e`.
abbrev pub is_printable : ℕ → Bool
is_printable char = leb 0x20 char && leb char 0x7e

pub write_string : Writer → List ℕ → Option Writer
write_string w [] = some w
write_string w (char ∷ rest) = do
  w' ← write_byte w (if is_printable char || char == b'\n' then char else 0xfe)
  write_string w' rest

pub write_cells : Writer → List ScreenChar → Option Writer
write_cells w [] = some w
write_cells w (char ∷ rest) = do
  w₁ ← wrap_line w
  w₂ ← put_cell w₁ char
  write_cells (record w₂ { column_position = w₂.column_position + 1 }) rest

pub write_colored_string : Writer → ColoredString → Option Writer
write_colored_string w colored = write_cells w colored.chars

-- The loop of `is_current_row_clear` over the columns from `col` on.
pub row_clear_from : Writer → ℕ → ℕ → Option Bool
row_clear_from w zero col = some true
row_clear_from w (suc left) col = do
  character ← read w.buffer (buffer_height - 1) col
  let rest = row_clear_from w left (col + 1)
  if not (character.ascii_character == b' ') || not (character.color_code == w.color_code)
      then some false
      else rest

pub is_current_row_clear : Writer → Option Bool
is_current_row_clear w = row_clear_from w buffer_width 0

abbrev pub set_column_position : Writer → ℕ → Writer
set_column_position w column_pos = record w { column_position = column_pos }
