-- ===== src/Vga/Line.antt =====
-- Text on one row of the screen: src/vga_buffer.rs's `write_string` and `write_colored_string`.
use leaf_os.Common.{
  ℕ, zero, suc, ◌+◌, ◌-◌, ◌≤◌, ◌<◌, ◌≡◌, ◌≢◌, refl, sym, ap, ◌∙◌, fun_ext, ◌&&◌, some, List, [],
  ◌∷◌, ◌++◌, leb, ◌==◌, if◌then◌else◌, le→leb, lt→leb, length, get_elem?, get_or, All, ne→==,
  get_or-sub_self, get_or-sub_later, arith,
}
use leaf_os.Vga.{
  ScreenChar, screen_char, ColorCode, Buffer, buffer_width, buffer_height, Writer, update,
  write_string,
}
use leaf_os.Vga.Scroll.{scrolled, blank}
use leaf_os.Vga.Cursor.{
  emit, emit_all, shown, cells_of, typed, printed, ended, write_string-printed,
}

-- The cells stand in the last row from column `col` on.
abbrev pub laid : ℕ → List ScreenChar → Buffer → Buffer
laid col cells b r c =
    if r == buffer_height - 1 && leb col c then get_or cells (c - col) (b r c) else b r c

laid-cons :
    (col : ℕ) (v : ScreenChar) (vs : List ScreenChar) (b : Buffer)
    → laid (col + 1) vs (update b (buffer_height - 1) col v) ≡ laid col (v ∷ vs) b
laid-cons col v vs b = fun_ext λ r.
    fun_ext
      λ c. ground (arith, get_or-sub_self v vs col c (b r c), get_or-sub_later v vs col c (b r c))

laid-nil : (col : ℕ) (b : Buffer) → laid col [] b ≡ b
laid-nil col b = fun_ext λ r. fun_ext λ c. ground arith

-- The writer after a cell that fits on the row.
abbrev beside : Writer → ScreenChar → Writer
beside w v = record w {
  column_position = w.column_position + 1;
  buffer = update w.buffer (buffer_height - 1) w.column_position v;
}

emit-beside :
    (w : Writer) (v : ScreenChar) → w.column_position < buffer_width → emit w v ≡ beside w v
unfolding emit
emit-beside w v h = rw (lt→leb buffer_width w.column_position h)

Writer_path :
    (color : ColorCode) {m n : ℕ} {a b : Buffer}
    → m ≡ n
    → a ≡ b
    → ◌≡◌ {A = Writer}
        (record { column_position = m; color_code = color; buffer = a })
        (record { column_position = n; color_code = color; buffer = b })
Writer_path color p q = λ i. record { column_position = p i; color_code = color; buffer = q i }

-- Cells that fit in the rest of the row are laid there in order.
pub emit_all-laid :
    (w : Writer) (cells : List ScreenChar)
    → w.column_position + length cells ≤ buffer_width
    → emit_all w cells ≡ record w {
      column_position = w.column_position + length cells;
      buffer = laid w.column_position cells w.buffer;
    }
unfolding emit_all
emit_all-laid w [] h =
    Writer_path w.color_code (omega arith) (sym (laid-nil w.column_position w.buffer))
emit_all-laid w (v ∷ vs) h =
    ap (λ w'. emit_all w' vs) (emit-beside w v (omega arith))
    ∙ emit_all-laid (beside w v) vs (omega arith)
    ∙ Writer_path w.color_code (omega arith) (laid-cons w.column_position v vs w.buffer)

abbrev pub NoNewline : List ℕ → Type 0
NoNewline s = All (λ char. char ≢ b'\n') s

typed-emit :
    (w : Writer) (char : ℕ)
    → char ≢ b'\n'
    → typed w char ≡ emit w (screen_char (shown char) w.color_code)
unfolding typed
typed-emit w char h = rw (ne→== char b'\n' h)

emit-color : (w : Writer) (v : ScreenChar) → (emit w v).color_code ≡ w.color_code
unfolding emit
emit-color w v = ground arith

pub printed-append : (w : Writer) (s t : List ℕ) → printed w (s ++ t) ≡ printed (printed w s) t
unfolding printed
printed-append w [] t = refl
printed-append w (char ∷ s) t = printed-append (typed w char) s t

pub printed-emit_all :
    (w : Writer) (s : List ℕ) → NoNewline s → printed w s ≡ emit_all w (cells_of w.color_code s)
unfolding printed emit_all
printed-emit_all w [] h = refl
printed-emit_all w (char ∷ s) h =
    let v = screen_char (shown char) w.color_code in
    ap (λ w'. printed w' s) (typed-emit w char h.0)
    ∙ printed-emit_all (emit w v) s h.1
    ∙ ap (λ color. emit_all (emit w v) (cells_of color s)) (emit-color w v)

length-cells_of : (color : ColorCode) (s : List ℕ) → length (cells_of color s) ≡ length s
length-cells_of color [] = refl
length-cells_of color (char ∷ s) = ap suc (length-cells_of color s)

get_or-cells_of :
    (color : ColorCode) (s : List ℕ) (i : ℕ) {char : ℕ} (d : ScreenChar)
    → get_elem? s i ≡ some char
    → get_or (cells_of color s) i d ≡ screen_char (shown char) color
get_or-cells_of color [] i d h = cc
get_or-cells_of color (c ∷ s) zero d h = ground arith
get_or-cells_of color (c ∷ s) (suc i) d h = get_or-cells_of color s i d h

lt_of_get_elem? : (s : List ℕ) (i : ℕ) {char : ℕ} → get_elem? s i ≡ some char → i < length s
lt_of_get_elem? [] i h = cc
lt_of_get_elem? (c ∷ s) zero h = omega arith
lt_of_get_elem? (c ∷ s) (suc i) h = omega (arith, lt_of_get_elem? s i h)

pub printed-laid :
    (w : Writer) (s : List ℕ)
    → NoNewline s
    → w.column_position + length s ≤ buffer_width
    → printed w s ≡ record w {
      column_position = w.column_position + length (cells_of w.color_code s);
      buffer = laid w.column_position (cells_of w.color_code s) w.buffer;
    }
printed-laid w s h fits =
    printed-emit_all w s h
    ∙ emit_all-laid w (cells_of w.color_code s) (rw (length-cells_of w.color_code s) fits)

laid-at :
    (col : ℕ) (cells : List ScreenChar) (b : Buffer) (i : ℕ)
    → laid col cells b 24 (col + i) ≡ get_or cells i (b 24 (col + i))
laid-at col cells b i =
    rw (le→leb col (col + i) (omega arith))
      (ap (λ (k : ℕ). get_or cells k (b 24 (col + i))) (omega arith))

scrolled-up :
    (color : ColorCode) (b : Buffer) (c : ℕ) → c < buffer_width → scrolled color b 23 c ≡ b 24 c
scrolled-up color b c h = ground arith

line_cell :
    (col : ℕ) (color : ColorCode) (s : List ℕ) (b : Buffer)
    → col + length s ≤ buffer_width
    → (i : ℕ) {char : ℕ} → get_elem? s i ≡ some char
    → scrolled color (laid col (cells_of color s) b) 23 (col + i) ≡ screen_char (shown char) color
line_cell col color s b fits i e =
    scrolled-up color (laid col (cells_of color s) b) (col + i)
      (omega (arith, lt_of_get_elem? s i e))
    ∙ laid-at col (cells_of color s) b i
    ∙ get_or-cells_of color s i (b 24 (col + i)) e

-- A line of text that fits in the rest of the row, printed with a newline behind it, stands in the
-- row above the last one: each byte at its column behind the old cursor, in the writer's colour.
-- The last row is blank, the cursor is at its start, and every other row moved up by one.
pub write_string-line :
    (w : Writer) (s : List ℕ)
    → NoNewline s
    → w.column_position + length s ≤ buffer_width
    → (w' : Writer) × (write_string w (s ++ b'\n' ∷ []) ≡ some w')
      × (w'.column_position ≡ 0)
      × ((i char : ℕ)
          → get_elem? s i ≡ some char
          → w'.buffer 23 (w.column_position + i) ≡ screen_char (shown char) w.color_code)
      × ((c : ℕ) → c < buffer_width → w'.buffer 24 c ≡ blank w.color_code)
      × ((r c : ℕ) → r < 23 → c < buffer_width → w'.buffer r c ≡ w.buffer (r + 1) c)
unfolding printed typed
write_string-line w s h fits =
    let color = w.color_code in
    let line = laid w.column_position (cells_of color s) w.buffer in
    (
      record { column_position = 0; color_code = color; buffer = scrolled color line },
      write_string-printed w (s ++ b'\n' ∷ [])
          ∙ ap some (printed-append w s (b'\n' ∷ []) ∙ ap ended (printed-laid w s h fits)),
      refl,
      λ i char e. line_cell w.column_position w.color_code s w.buffer fits i e,
      λ c hc. ground arith,
      λ r c hr hc. ground arith,
    )
