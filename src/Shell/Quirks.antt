-- ===== src/Shell/Quirks.antt =====
-- The start of the shell of src/shell.rs, wrapped lines, and two cases where it leaves the screen
-- and its own count apart.
use leaf_os.Common.{
  ap₂, ◌/◌, get_or-sub_self, get_or-past, ℕ, ◌+◌, ◌-◌, ◌%◌, ◌≤◌, ◌<◌, ◌≡◌, refl, ap, ◌∙◌, inl, inr,
  true, false, some, List, [], ◌∷◌, ◌==◌, Bool-cases, ◌>>=◌, length, arith,
}
use leaf_os.Vga.{ScreenChar, screen_char, ColorCode, Buffer, Writer, buffer_width, update}
use leaf_os.Vga.Scroll.{blank, new_line-scrolled}
use leaf_os.Vga.Cursor.{
  write_string-printed, emit_all, ended, printed, write_colored_string-emit_all,
}
use leaf_os.Vga.Line.{printed-laid, emit_all-laid, laid}
use leaf_os.Vga.Row.{is_current_row_clear-blank}
use leaf_os.Shell.{
  utf8, insert, Console, init, set_count, Keyboard, unicode, key_event, write, write_colored_cells,
}
use leaf_os.Shell.Total.{newline-fresh_row}
use leaf_os.Shell.Typing.{key_event-erase, erased, Editing}

-- The console once the shell has prompted on the screen `w`.
abbrev started : Console → Writer → Console
started c w = record c { writer = emit_all w c.shell.prompt.chars; initialized = true }

laid_past :
    (w : Writer) (cells : List ScreenChar)
    → w.column_position ≡ 0
    → (col : ℕ) → length cells ≤ col
    → laid w.column_position cells w.buffer 24 col ≡ w.buffer 24 col
laid_past w cells home col past =
    ground (arith, get_or-past cells (col - w.column_position) (w.buffer 24 col))

started-Editing :
    (c : Console) (w : Writer)
    → w.column_position ≡ 0
    → c.shell.written_char_count ≡ 0
    → ((col : ℕ) → 0 ≤ col → col < buffer_width → w.buffer 24 col ≡ blank w.color_code)
    → length c.shell.prompt.chars ≤ buffer_width
    → Editing (length c.shell.prompt.chars) (started c w).writer.buffer [] (started c w)
started-Editing c w home fresh clear fits = record {
  count = fresh;
  cursor = ap (λ w'. w'.column_position) on_row ∙ omega arith;
  shows = tt;
  blanks = λ col lo hi.
      rw on_row (laid_past w prompt home col (omega arith) ∙ clear col (omega arith) hi);
  prompt = λ col lt. refl;
  rows = λ row col lt. refl;
}
  where
    prompt : List ScreenChar
    prompt = c.shell.prompt.chars

    on_row : emit_all w prompt ≡ record w {
      column_position = w.column_position + length prompt;
      buffer = laid w.column_position prompt w.buffer;
    }
    on_row = emit_all-laid w prompt (omega arith)

-- From a screen with the cursor at column 0, `init` puts the prompt, if it fits on a row, at the
-- start of a blank row, and leaves the shell ready for a line to be typed behind it.
pub init-Editing :
    (c : Console)
    → c.writer.column_position ≡ 0
    → c.shell.written_char_count ≡ 0
    → length c.shell.prompt.chars ≤ buffer_width
    → (c' : Console) × (init c ≡ some c')
      × (c'.initialized ≡ true)
      × Editing (length c.shell.prompt.chars) c'.writer.buffer [] c'
unfolding init
init-Editing c home fresh fits =
    let (clear, answer, means) = is_current_row_clear-blank c.writer in
    elim (Bool-cases clear) [
      | inl yes_clear ↦ (
        started c c.writer,
        rw (answer, yes_clear, write_colored_string-emit_all c.writer c.shell.prompt),
        refl,
        started-Editing c c.writer home fresh (means.0 yes_clear) fits,
      )
      | inr not_clear ↦ (
        started c (ended c.writer),
        rw (
          answer,
          not_clear,
          new_line-scrolled c.writer,
          write_colored_string-emit_all (ended c.writer) c.shell.prompt,
        ),
        refl,
        started-Editing c (ended c.writer) refl fresh (λ col lo hi. ground arith) fits,
      )
    ]

-- With the prompt disabled, a newline written by `write` starts a bare row, but one written by
-- `write_colored` still prompts.
pub write_colored-newline_disabled :
    (c : Console) (color : ColorCode)
    → c.shell.prompt_enabled ≡ false
    → (write c (b'\n' ∷ []) ≡ some (set_count (record c { writer = ended c.writer }) 0))
      × (write_colored_cells c (screen_char b'\n' color ∷ [])
          ≡ some
              (set_count (record c { writer = emit_all (ended c.writer) c.shell.prompt.chars }) 0))
unfolding write write_colored_cells
write_colored-newline_disabled c color off = (
  rw (newline-fresh_row c, off),
  rw (new_line-scrolled c.writer, write_colored_string-emit_all (ended c.writer) c.shell.prompt),
)

-- The screen after the two bytes of a character that is not ASCII.
abbrev two_cells : Writer → Writer
two_cells w = record w {
  column_position = w.column_position + 2;
  buffer =
      laid w.column_position (screen_char 0xfe w.color_code ∷ screen_char 0xfe w.color_code ∷ [])
        w.buffer;
}

utf8-two :
    (char : ℕ)
    → 0x80 ≤ char
    → char < 0x800
    → utf8 char ≡ (0xc0 + char / 64) ∷ (0x80 + char % 64) ∷ []
unfolding utf8
utf8-two char lo hi = ground arith

printed-two :
    (w : Writer) (char : ℕ)
    → 0x80 ≤ char
    → char < 0x800
    → w.column_position + 2 ≤ buffer_width
    → printed w (utf8 char) ≡ two_cells w
printed-two w char lo hi fits =
    ap (printed w) (utf8-two char lo hi)
    ∙ printed-laid w ((0xc0 + char / 64) ∷ (0x80 + char % 64) ∷ []) (omega arith, (omega arith, tt))
        fits
    ∙ ap
        (λ cells. record w {
          column_position = w.column_position + 2;
          buffer = laid w.column_position cells w.buffer;
        })
        (ap₂ (λ a b. screen_char a w.color_code ∷ screen_char b w.color_code ∷ []) (ground arith)
          (ground arith))

stray_cell :
    (col : ℕ) (v blank_cell : ScreenChar) (b : Buffer)
    → update (laid col (v ∷ v ∷ []) b) 24 (col + 2 - 1) blank_cell 24 col ≡ v
stray_cell col v blank_cell b = ground (arith, get_or-sub_self v (v ∷ []) col col (b 24 col))

-- A character of two bytes, typed where both fit on the row and taken back by one backspace,
-- leaves the count as it was, but the cursor one column further, behind a stray 0xfe.
pub key_event-two_bytes :
    (k : Keyboard) (c : Console) (char : ℕ)
    → 0x80 ≤ char
    → char < 0x800
    → c.writer.column_position + 2 ≤ buffer_width
    → (c' : Console) × ((key_event k c (unicode char) >>= λ typed_in.
          key_event k typed_in (unicode 8))
        ≡ some c')
      × (c'.shell.written_char_count ≡ c.shell.written_char_count)
      × (c'.writer.column_position ≡ c.writer.column_position + 1)
      × (c'.writer.buffer 24 c.writer.column_position ≡ screen_char 0xfe c.writer.color_code)
unfolding key_event insert
key_event-two_bytes k c char lo hi fits =
    let typed_in =
      set_count (record c { writer = two_cells c.writer }) (c.shell.written_char_count + 1) in
    let not_back : (char == 8) ≡ false = ground arith in
    let not_enter : (char == 10) ≡ false = ground arith in
    (
      erased typed_in,
      rw
          (
            not_back,
            not_enter,
            write_string-printed c.writer (utf8 char),
            printed-two c.writer char lo hi fits,
          )
          (key_event-erase k typed_in (omega arith) (omega arith) (omega arith)),
      omega arith,
      omega arith,
      stray_cell c.writer.column_position (screen_char 0xfe c.writer.color_code)
          (blank c.writer.color_code) c.writer.buffer,
    )
