-- ===== src/Shell/Wrapping.antt =====
-- Typing and erasing over several rows: `key_event` of src/shell.rs as a line editor whose line
-- wraps, with the rows scrolled up and down again by `new_line` and `old_line` of src/vga_buffer.rs.
use leaf_os.Common.{
  ℕ, ◌+◌, ◌-◌, ◌*◌, ◌≤◌, ◌<◌, ◌≡◌, inl, inr, refl, ap, ◌∙◌, true, false, some, List, [], ◌∷◌, ◌==◌,
  length, All, lt→ltb, if◌then◌else◌, le→leb, Bool-cases, ltb, arith,
}
use leaf_os.Vga.{screen_char, Buffer, Writer, buffer_width, is_printable}
use leaf_os.Vga.Scroll.{blank}
use leaf_os.Vga.Cursor.{put_at, emit, printed, typed, write_string-printed, emit-put_at}
use leaf_os.Shell.{Console, set_count, Keyboard, unicode, key_event, insert, backspace}
use leaf_os.Shell.Erasing.{back, row_before, step_back-put_at}
use leaf_os.Shell.Typing.{
  Keystroke, press, erase, utf8-ascii, key_event-erase_none, IsPlain, edit_all, type_keys,
}
use leaf_os.Shell.Rows.{Wrapped}
use leaf_os.Shell.Cells.{Wrapped-press, Wrapped-wrap, Wrapped-erase, Wrapped-unwrap}

printed-emit :
    (w : Writer) (char : ℕ)
    → is_printable char ≡ true
    → printed w (char ∷ []) ≡ emit w (screen_char char w.color_code)
unfolding printed typed
printed-emit w char h = let ascii : (char == b'\n') ≡ false = ground arith in rw (ascii, h)

key_event-emit :
    (k : Keyboard) (c : Console) (char : ℕ)
    → is_printable char ≡ true
    → key_event k c (unicode char)
      ≡ some (
          set_count
            (record c { writer = emit c.writer (screen_char char c.writer.color_code) })
            (c.shell.written_char_count + 1))
unfolding key_event insert
key_event-emit k c char h =
    let not_back : (char == 8) ≡ false = ground arith in
    let not_enter : (char == 10) ≡ false = ground arith in
    rw (not_back, not_enter, utf8-ascii char h, write_string-printed c.writer (char ∷ []))
      (ap (λ w. some (set_count (record c { writer = w }) (c.shell.written_char_count + 1)))
        (printed-emit c.writer char h))

key_event-back :
    (k : Keyboard) (c : Console)
    → 0 < c.shell.written_char_count
    → c.writer.column_position ≤ buffer_width
    → key_event k c (unicode 8)
      ≡ some (
          set_count
            (record c {
              writer =
                  put_at
                    (if ltb 0 c.writer.column_position then back c.writer else row_before c.writer)
                    (blank c.writer.color_code);
            })
            (c.shell.written_char_count - 1))
unfolding key_event backspace
key_event-back k c typed_some v =
    rw (lt→ltb 0 c.shell.written_char_count typed_some, step_back-put_at c.writer v) refl

module _ (k : Keyboard) (start limit : ℕ) (on_screen : limit < 25) (before : Buffer) where
  -- A printable character, wherever the cursor is.
  press-Wrapped :
      (text : List ℕ) (c : Console) (char : ℕ)
      → Wrapped start limit before text c
      → is_printable char ≡ true
      → start + length text < 80 * (limit + 1)
      → (c' : Console) × (key_event k c (unicode char) ≡ some c')
        × Wrapped start limit before (char ∷ text) c'
  unfolding emit
  press-Wrapped text c char e plain room = elim (Bool-cases (ltb c.writer.column_position 80)) [
    | inl on ↦ (
      _,
      key_event-emit k c char plain
          ∙ ap (λ w. some (set_count (record c { writer = w }) (c.shell.written_char_count + 1)))
              (emit-put_at c.writer _ (ground arith)),
      Wrapped-press start limit on_screen before c text char e (ground arith),
    )
    | inr past ↦
        let full : c.writer.column_position ≡ 80 = ground (arith, e.on_row) in
        (
          _,
          rw (key_event-emit k c char plain)
              (rw (le→leb buffer_width c.writer.column_position (omega arith)) refl),
          Wrapped-wrap start limit on_screen before c text char e full room,
        )
  ]

  erase-Wrapped :
      (text : List ℕ) (c : Console) (char : ℕ)
      → Wrapped start limit before (char ∷ text) c
      → (c' : Console) × (key_event k c (unicode 8) ≡ some c') × Wrapped start limit before text c'
  erase-Wrapped text c char e = elim (Bool-cases (ltb 0 c.writer.column_position)) [
    | inl inside ↦ (
      _,
      key_event-back k c (omega (arith, e.count)) e.on_row ∙ rw inside refl,
      Wrapped-erase start limit on_screen before c text char e (ground arith),
    )
    | inr home ↦ (
      _,
      key_event-back k c (omega (arith, e.count)) e.on_row ∙ rw home refl,
      Wrapped-unwrap start limit on_screen before c text char e (ground arith),
    )
  ]

  -- Plain keys, typed behind a prompt that ends at column `start` with the rest of the row blank,
  -- and no more of them than fit on `limit + 1` rows, at most the whole screen, end without a panic.
  -- The screen then shows the text as edited behind the prompt, over as many rows as it fills, each
  -- backspace taking back the last character, over the ends of rows too. Behind the text the row is
  -- blank, the cursor and the count are behind the text, and the rows above the prompt are as they
  -- were, further up, but for the first `limit` rows of the screen.
  pub type_keys-Wrapped :
      (text : List ℕ) (c : Console) (keys : List Keystroke)
      → Wrapped start limit before text c
      → All IsPlain keys
      → start + length text + length keys ≤ 80 * (limit + 1)
      → (c' : Console) × (type_keys k c keys ≡ some c')
        × Wrapped start limit before (edit_all text keys) c'
  unfolding type_keys edit_all
  type_keys-Wrapped text c [] e plain fits = (c, refl, e)
  type_keys-Wrapped text c (press char ∷ keys) e plain fits =
      let (c', pressed, e') = press-Wrapped text c char e plain.0 (omega arith) in
      rw pressed (type_keys-Wrapped (char ∷ text) c' keys e' plain.1 (omega arith))
  type_keys-Wrapped [] c (erase ∷ keys) e plain fits =
      rw (key_event-erase_none k c e.count) (type_keys-Wrapped [] c keys e plain.1 (omega arith))
  type_keys-Wrapped (char ∷ text) c (erase ∷ keys) e plain fits =
      let (c', erased, e') = erase-Wrapped text c char e in
      rw erased (type_keys-Wrapped text c' keys e' plain.1 (omega arith))
