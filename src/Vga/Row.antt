-- ===== src/Vga/Row.antt =====
-- Whole rows in src/vga_buffer.rs: the test for a blank last row, and `old_line` after `new_line`.
use leaf_os.Common.{
  ℕ, zero, suc, ◌+◌, ◌≤◌, ◌<◌, ◌≡◌, refl, ◌↔◌, ==_iff, inl, inr, Bool, true, false, not, ◌||◌, some,
  ◌==◌, Bool-cases, ◌>>=◌, arith,
}
use leaf_os.Vga.{
  buffer_width, buffer_height, Writer, row_clear_from, is_current_row_clear, new_line, old_line,
}
use leaf_os.Vga.Scroll.{
  blank, scrolled, unscrolled, read_lem, new_line-scrolled, old_line-unscrolled,
}

-- The test of the loop fails exactly at a blank cell.
abbrev not_blank : Writer → ℕ → Bool
not_blank w c =
    not ((w.buffer 24 c).ascii_character == b' ')
    || not ((w.buffer 24 c).color_code == w.color_code)

blank_of_test : (w : Writer) (c : ℕ) → not_blank w c ≡ false → w.buffer 24 c ≡ blank w.color_code
blank_of_test w c h = ground arith

test_of_blank : (w : Writer) (c : ℕ) → w.buffer 24 c ≡ blank w.color_code → not_blank w c ≡ false
test_of_blank w c h = ground arith

abbrev BlankFrom : Writer → ℕ → ℕ → Type 0
BlankFrom w lo hi = (c : ℕ) → lo ≤ c → c < hi → w.buffer 24 c ≡ blank w.color_code

BlankFrom-cons :
    (w : Writer) (col hi : ℕ)
    → not_blank w col ≡ false
    → BlankFrom w (col + 1) hi
    → BlankFrom w col hi
BlankFrom-cons w col hi h rest c lo lt = elim (Bool-cases (c == col)) [
  | inl e ↦ rw ((==_iff c col).0 e) (blank_of_test w col h)
  | inr e ↦ rest c (ground arith) lt
]

row_clear_from-BlankFrom :
    (w : Writer) (left col : ℕ)
    → col + left ≤ buffer_width
    → (b : Bool) × (row_clear_from w left col ≡ some b)
      × ((b ≡ true) ↔ BlankFrom w col (col + left))
unfolding row_clear_from
row_clear_from-BlankFrom w zero col h = (true, refl, (λ _ c lo hi. absurd (omega arith), λ _. refl))
row_clear_from-BlankFrom w (suc left) col h =
    let (b, returns, clear) = row_clear_from-BlankFrom w left (col + 1) (omega arith) in
    let ends : col + 1 + left ≡ col + suc left = omega arith in
    rw (read_lem w.buffer 24 col (omega arith) (omega arith), returns)
      (elim (Bool-cases (not_blank w col)) [
        | inl bad ↦ (
          false,
          rw bad,
          (λ e. cc, λ all. cc (bad, test_of_blank w col (all col (omega arith) (omega arith)))),
        )
        | inr good ↦ (
          b,
          rw good,
          (
            λ e. BlankFrom-cons w col (col + suc left) good (rw ends at (clear.0 e)),
            λ all. clear.1 (λ c lo hi. all c (omega arith) (omega arith)),
          ),
        )
      ])

-- `is_current_row_clear` does not panic, and answers true exactly if every cell of the last row
-- is a space in the writer's colour.
pub is_current_row_clear-blank :
    (w : Writer)
    → (b : Bool) × (is_current_row_clear w ≡ some b)
      × ((b ≡ true) ↔ ((c : ℕ) → 0 ≤ c → c < buffer_width → w.buffer 24 c ≡ blank w.color_code))
unfolding is_current_row_clear
is_current_row_clear-blank w = row_clear_from-BlankFrom w buffer_width 0 (omega arith)

-- `old_line` after `new_line` brings every row but the first one back to where it was, and puts
-- the cursor at column 0. The first row, which left the screen, comes back blank.
pub old_line-new_line :
    (w : Writer)
    → (w' : Writer) × ((new_line w >>= old_line) ≡ some w')
      × (w'.column_position ≡ 0)
      × ((r c : ℕ) → 1 ≤ r → r < buffer_height → c < buffer_width → w'.buffer r c ≡ w.buffer r c)
      × ((c : ℕ) → c < buffer_width → w'.buffer 0 c ≡ blank w.color_code)
old_line-new_line w = (
  record w {
    column_position = 0;
    buffer = unscrolled w.color_code (scrolled w.color_code w.buffer);
  },
  rw (new_line-scrolled w) (old_line-unscrolled _),
  refl,
  λ r c lo hr hc. ground arith,
  λ c hc. ground arith,
)
