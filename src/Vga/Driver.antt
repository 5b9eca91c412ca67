-- ===== src/Vga/Driver.antt =====
-- Cells by index in the character driver of src/vga_buffer.rs.
use leaf_os.Common.{
  ℕ, zero, suc, ◌+◌, ◌-◌, ◌*◌, ◌^◌, ◌<◌, ◌≡◌, refl, Bool, true, false, ◌&&◌, Option, none, some,
  bit_and, ◌==◌, ne→==, ltb, if◌then◌else◌, ◌>>=◌, arith,
}
use leaf_os.Common.Tables.{pass_below, pass_below-entry}
use leaf_os.Vga.{Writer, ScreenChar, write, update}

-- The lower five bits: `u8::MAX` without its bits 5, 6 and 7.
abbrev pub height_mask : ℕ
height_mask = 0xff - 2 ^ 5 - 2 ^ 6 - 2 ^ 7

-- `u8::MAX` without its bit 7, shifted by 8.
abbrev pub width_mask : ℕ
width_mask = (0xff - 2 ^ 7) * 2 ^ 8

pub write_char_indexed : Writer → ℕ → ScreenChar → Option Writer
write_char_indexed w index char = do
  b ← write w.buffer (bit_and index height_mask) (bit_and index width_mask) char
  some (record w { buffer = b })

abbrev masked : ℕ → ℕ → Bool
masked row col =
    bit_and (row + col * 256) height_mask == row
    && bit_and (row + col * 256) width_mask == col * 256

masked_table : pass_below 25 (λ row. pass_below 80 (λ col. masked row col)) ≡ true
unfolding pass_below
masked_table = refl

masked-entry : (row col : ℕ) → row < 25 → col < 80 → masked row col ≡ true
masked-entry row col r c =
    pass_below-entry 80 (λ y. masked row y) col
      (pass_below-entry 25 (λ x. pass_below 80 (λ y. masked x y)) row masked_table r) c

write-column :
    (w : Writer) (char : ScreenChar) (row col : ℕ)
    → row < 25
    → (write w.buffer row (col * 256) char >>= λ b. some (record w { buffer = b }))
      ≡ (if col == 0 then some (record w { buffer = update w.buffer row 0 char }) else none)
unfolding write
write-column w char row zero r = let in_row : ltb row 25 ≡ true = ground arith in rw in_row refl
write-column w char row (suc col) r =
    let in_row : ltb row 25 ≡ true = ground arith in
    let out : ltb (suc col * 256) 80 ≡ false = ground arith in
    rw (in_row, out, ne→== (suc col) 0 (omega arith)) refl

-- An index in the documented format, the row in its first byte and the column in its second one,
-- writes the cell of that row in column 0, and panics for every other column of the screen.
pub write_char_indexed-column :
    (w : Writer) (char : ScreenChar) (row col : ℕ)
    → row < 25
    → col < 80
    → write_char_indexed w (row + col * 256) char
      ≡ (if col == 0 then some (record w { buffer = update w.buffer row 0 char }) else none)
unfolding write_char_indexed
write_char_indexed-column w char row col r c =
    let both = masked-entry row col r c in
    let at_row : bit_and (row + col * 256) height_mask ≡ row = ground (arith, both) in
    let at_col : bit_and (row + col * 256) width_mask ≡ col * 256 = ground (arith, both) in
    rw (at_row, at_col) (write-column w char row col r)
