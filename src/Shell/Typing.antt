-- ===== src/Shell/Typing.antt =====
-- Typing and erasing on one row: `key_event` of src/shell.rs as a line editor.
use leaf_os.Common.{
  ℕ, ◌+◌, ◌-◌, ◌≤◌, ◌<◌, ◌≡◌, refl, ap, true, false, Option, some, List, [], ◌∷◌, ◌==◌, ◌>>=◌,
  length, All, lt→ltb, arith,
}
use leaf_os.Vga.{
  ScreenChar, screen_char, ColorCode, Buffer, Writer, buffer_width, update, is_printable,
}
use leaf_os.Vga.Scroll.{blank}
use leaf_os.Vga.Cursor.{put_at, moved, printed, typed, write_string-printed, emit-put_at}
use leaf_os.Shell.{
  Console, set_count, Keyboard, DecodedKey, unicode, key_event, utf8, insert, backspace,
}
use leaf_os.Shell.Erasing.{back, step_back-put_at}

pub data Keystroke : Type 0 where
  press : ℕ → Keystroke
  erase : Keystroke

-- A key of a printable ASCII character, or the backspace key.
abbrev pub IsPlain : Keystroke → Type 0
IsPlain (press char) = is_printable char ≡ true
IsPlain erase = Unit

-- The text of the line, its latest character first.
abbrev pub edit : List ℕ → Keystroke → List ℕ
edit text (press char) = char ∷ text
edit [] erase = []
edit (char ∷ text) erase = text

unfoldable pub edit_all : List ℕ → List Keystroke → List ℕ
edit_all text [] = text
edit_all text (key ∷ keys) = edit_all (edit text key) keys

module _ (k : Keyboard) where
  abbrev pub key_of : Keystroke → DecodedKey k.KeyCode
  key_of (press char) = unicode char
  key_of erase = unicode 8

  unfoldable pub type_keys : Console → List Keystroke → Option Console
  type_keys c [] = some c
  type_keys c (key ∷ keys) = do c' ← key_event k c (key_of key); type_keys c' keys

-- The text stands in the last row from column `start` on.
abbrev pub Shows : Buffer → ColorCode → ℕ → List ℕ → Type 0
Shows b color start [] = Unit
Shows b color start (char ∷ text) =
    (b 24 (start + length text) ≡ screen_char char color) × Shows b color start text

Shows-update :
    (b : Buffer) (color : ColorCode) (start : ℕ) (text : List ℕ) (col : ℕ) (v : ScreenChar)
    → start + length text ≤ col
    → Shows b color start text
    → Shows (update b 24 col v) color start text
Shows-update b color start [] col v h s = tt
Shows-update b color start (char ∷ text) col v h (s, rest) =
    (ground arith, Shows-update b color start text col v (omega arith) rest)

-- The console while a line is edited behind column `start`: the count and the cursor stand behind
-- the text, the text is on the screen with blanks behind it, and the columns before `start` and
-- the other rows are as they were.
pub record Editing (start : ℕ) (before : Buffer) (text : List ℕ) (c : Console) : Type 0 where
  pub count : c.shell.written_char_count ≡ length text
  pub cursor : c.writer.column_position ≡ start + length text
  pub shows : Shows c.writer.buffer c.writer.color_code start text
  pub blanks :
      (col : ℕ)
      → start + length text ≤ col
      → col < buffer_width
      → c.writer.buffer 24 col ≡ blank c.writer.color_code
  pub prompt : (col : ℕ) → col < start → c.writer.buffer 24 col ≡ before 24 col
  pub rows : (row col : ℕ) → row < 24 → c.writer.buffer row col ≡ before row col

-- The console after a printable character that fits on the row.
abbrev pub pressed : Console → ℕ → Console
pressed c char =
    set_count (record c { writer = moved (put_at c.writer (screen_char char c.writer.color_code)) })
      (c.shell.written_char_count + 1)

printed-press :
    (w : Writer) (char : ℕ)
    → is_printable char ≡ true
    → w.column_position < buffer_width
    → printed w (char ∷ []) ≡ moved (put_at w (screen_char char w.color_code))
unfolding printed typed
printed-press w char h fits =
    let ascii : (char == b'\n') ≡ false = ground arith in
    rw (ascii, h) (emit-put_at w (screen_char char w.color_code) fits)

pub utf8-ascii : (char : ℕ) → is_printable char ≡ true → utf8 char ≡ char ∷ []
unfolding utf8
utf8-ascii char h = ground arith

key_event-press :
    (k : Keyboard) (c : Console) (char : ℕ)
    → is_printable char ≡ true
    → c.writer.column_position < buffer_width
    → key_event k c (unicode char) ≡ some (pressed c char)
unfolding key_event insert
key_event-press k c char h fits =
    let not_back : (char == 8) ≡ false = ground arith in
    let not_enter : (char == 10) ≡ false = ground arith in
    rw (not_back, not_enter, utf8-ascii char h, write_string-printed c.writer (char ∷ []))
      (ap (λ w. some (set_count (record c { writer = w }) (c.shell.written_char_count + 1)))
        (printed-press c.writer char h fits))

-- The console after a backspace inside the row.
abbrev pub erased : Console → Console
erased c =
    set_count (record c { writer = put_at (back c.writer) (blank c.writer.color_code) })
      (c.shell.written_char_count - 1)

pub key_event-erase :
    (k : Keyboard) (c : Console)
    → 0 < c.shell.written_char_count
    → 0 < c.writer.column_position
    → c.writer.column_position ≤ buffer_width
    → key_event k c (unicode 8) ≡ some (erased c)
unfolding key_event backspace
key_event-erase k c typed_some inside v =
    rw
      (
        lt→ltb 0 c.shell.written_char_count typed_some,
        step_back-put_at c.writer v,
        lt→ltb 0 c.writer.column_position inside,
      )
      refl

-- With nothing typed, backspace changes nothing.
pub key_event-erase_none :
    (k : Keyboard) (c : Console)
    → c.shell.written_char_count ≡ 0
    → key_event k c (unicode 8) ≡ some c
unfolding key_event backspace
key_event-erase_none k c h = ground arith

Editing-press :
    {start : ℕ} {before : Buffer} {text : List ℕ} {c : Console} (char : ℕ)
    → Editing start before text c
    → start + length text < buffer_width
    → Editing start before (char ∷ text) (pressed c char)
Editing-press {start} {before} {text} {c} char e fits = record {
  count = omega (arith, e.count);
  cursor = omega (arith, e.cursor);
  shows = (
    ground (arith, e.cursor),
    Shows-update c.writer.buffer c.writer.color_code start text c.writer.column_position
        (screen_char char c.writer.color_code) (omega (arith, e.cursor)) e.shows,
  );
  blanks = λ col lo hi. ground (arith, e.cursor, e.blanks col);
  prompt = λ col lt. ground (arith, e.cursor, e.prompt col);
  rows = λ row col lt. ground (arith, e.rows row col);
}

Editing-erase :
    {start : ℕ} {before : Buffer} {char : ℕ} {text : List ℕ} {c : Console}
    → Editing start before (char ∷ text) c
    → start + length text < buffer_width
    → Editing start before text (erased c)
Editing-erase {start} {before} {char} {text} {c} e fits =
    let gone : c.writer.column_position - 1 ≡ start + length text = omega (arith, e.cursor) in
    record {
      count = omega (arith, e.count);
      cursor = gone;
      shows =
          Shows-update c.writer.buffer c.writer.color_code start text (c.writer.column_position - 1)
            (blank c.writer.color_code) (omega (arith, gone)) e.shows.1;
      blanks = λ col lo hi. ground (arith, gone, e.blanks col);
      prompt = λ col lt. ground (arith, gone, e.prompt col);
      rows = λ row col lt. ground (arith, e.rows row col);
    }

-- Plain keys, typed behind a prompt that ends at column `start` with the rest of the row blank, and
-- no more of them than fit on the row, end without a panic. The row then shows the text as edited,
-- each backspace taking back the last character, with blanks behind it, and the cursor and the
-- count are behind that text. No backspace reaches the prompt, and no other row changes.
pub type_keys-Editing :
    (k : Keyboard) {start : ℕ} {before : Buffer} (text : List ℕ) (c : Console)
    → (keys : List Keystroke) → Editing start before text c
    → All IsPlain keys
    → start + length text + length keys ≤ buffer_width
    → (c' : Console) × (type_keys k c keys ≡ some c') × Editing start before (edit_all text keys) c'
unfolding type_keys edit_all
type_keys-Editing k text c [] e plain fits = (c, refl, e)
type_keys-Editing k text c (press char ∷ keys) e plain fits =
    rw (key_event-press k c char plain.0 (omega (arith, e.cursor))) (
      type_keys-Editing k (char ∷ text) (pressed c char) keys (Editing-press char e (omega arith))
        plain.1 (omega arith))
type_keys-Editing k [] c (erase ∷ keys) e plain fits =
    rw (key_event-erase_none k c e.count) (type_keys-Editing k [] c keys e plain.1 (omega arith))
type_keys-Editing k (char ∷ text) c (erase ∷ keys) e plain fits =
    rw
      (key_event-erase k c (omega (arith, e.count)) (omega (arith, e.cursor))
        (omega (arith, e.cursor)))
      (type_keys-Editing k text (erased c) keys (Editing-erase e (omega arith)) plain.1
        (omega arith))
