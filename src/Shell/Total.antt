-- ===== src/Shell/Total.antt =====
-- Every operation of src/shell.rs on a valid console ends without a panic in a valid console.
use leaf_os.Common.{
  ℕ, ◌+◌, ◌-◌, ◌≡◌, refl, ◌∙◌, inl, inr, Bool, true, false, Option, some, List, [], ◌∷◌, ltb, ◌==◌,
  if◌then◌else◌, Bool-cases, arith,
}
use leaf_os.Vga.{screen_char, Writer, is_printable}
use leaf_os.Vga.Scroll.{new_line-scrolled}
use leaf_os.Vga.Cursor
use leaf_os.Vga.Cursor.{
  wrapped-lt, shown, emit-put_at, wrapped_self, set_byte-put_at, write_byte-emit,
  write_colored_string-emit_all, put_at, emit, ended, printed, emit_all, set_byte_colored-put_at,
  write_byte_colored-emit, write_string-printed, write_cells-emit_all,
}
use leaf_os.Shell.{
  Console, write, print_prompt, newline, print, erase_back, step_back, backspace, insert, Keyboard,
  DecodedKey, raw_key, unicode, key_event, set_count, utf8,
}
use leaf_os.Shell.Erasing.{erase_back-IsValid, step_back-IsValid}

abbrev pub IsValid : Console → Type 0
IsValid c = Cursor.IsValid c.writer

-- A normal return to a valid console that has the same prompt, still enabled or not.
pub record Continues (c : Console) (r : Option Console) : Type 0 where
  pub out : Console
  pub returns : r ≡ some out
  pub valid : IsValid out
  pub same_prompt : out.shell.prompt ≡ c.shell.prompt
  pub same_enabled : out.shell.prompt_enabled ≡ c.shell.prompt_enabled

backspace-Continues :
    (c : Console) (erase : Writer → Option Writer)
    → IsValid c
    → ((w' : Writer) × (erase c.writer ≡ some w') × Cursor.IsValid w')
    → Continues c (backspace c erase)
unfolding backspace
backspace-Continues c erase v (w', e, v') = elim (Bool-cases (ltb 0 c.shell.written_char_count)) [
  | inl some_typed ↦ record {
    out = set_count (record c { writer = w' }) (c.shell.written_char_count - 1);
    returns = rw (some_typed, e);
    valid = v';
    same_prompt = refl;
    same_enabled = refl;
  }
  | inr nothing ↦ record {
    out = c;
    returns = rw nothing;
    valid = v;
    same_prompt = refl;
    same_enabled = refl;
  }
]

insert-Continues : (c : Console) (bytes : List ℕ) → IsValid c → Continues c (insert c bytes)
unfolding insert
insert-Continues c bytes v = record {
  out = set_count (record c { writer = printed c.writer bytes }) (c.shell.written_char_count + 1);
  returns = rw (write_string-printed c.writer bytes);
  valid = Cursor.printed-IsValid c.writer bytes v;
  same_prompt = refl;
  same_enabled = refl;
}

-- The screen with the prompt on a fresh row, or a bare fresh row if the prompt is disabled.
abbrev pub fresh_row : Console → Writer
fresh_row c =
    if c.shell.prompt_enabled
    then emit_all (ended c.writer) c.shell.prompt.chars
    else ended c.writer

-- `newline` ends the row, prompts if the prompt is enabled, and forgets what was typed.
pub newline-fresh_row :
    (c : Console) → newline c ≡ some (set_count (record c { writer = fresh_row c }) 0)
unfolding newline print_prompt
newline-fresh_row c = rw (new_line-scrolled c.writer) (elim (Bool-cases c.shell.prompt_enabled) [
  | inl e ↦ rw e (rw (write_colored_string-emit_all (ended c.writer) c.shell.prompt))
  | inr e ↦ rw e
])

fresh_row-IsValid : (c : Console) → Cursor.IsValid (fresh_row c)
fresh_row-IsValid c = elim (Bool-cases c.shell.prompt_enabled) [
  | inl e ↦ rw e (Cursor.emit_all-IsValid (ended c.writer) c.shell.prompt.chars (omega arith))
  | inr e ↦ rw e (omega arith)
]

newline-Continues : (c : Console) → Continues c (newline c)
newline-Continues c = record {
  out = set_count (record c { writer = fresh_row c }) 0;
  returns = newline-fresh_row c;
  valid = fresh_row-IsValid c;
  same_prompt = refl;
  same_enabled = refl;
}

module _ (k : Keyboard) where
  -- On a valid console every key ends without a panic, whatever was typed before, in a valid
  -- console, with the prompt as it was.
  pub key_event-Continues :
      (c : Console) (key : DecodedKey k.KeyCode) → IsValid c → Continues c (key_event k c key)
  unfolding key_event
  key_event-Continues c (raw_key key) v = elim (Bool-cases (k.is_backspace key)) [
    | inl e ↦ rw e (backspace-Continues c erase_back v (erase_back-IsValid c.writer v))
    | inr e ↦ rw e (insert-Continues c (k.debug key) v)
  ]
  key_event-Continues c (unicode key) v = elim (Bool-cases (key == 8)) [
    | inl e ↦ rw e (backspace-Continues c step_back v (step_back-IsValid c.writer v))
    | inr e ↦ rw e (elim (Bool-cases (key == 10)) [
      | inl enter ↦ rw enter (newline-Continues c)
      | inr other ↦ rw other (insert-Continues c (utf8 key) v)
    ])
  ]

-- The console after one byte of text.
abbrev pub byte_written : Console → ℕ → Console
byte_written c char =
    if char == b'\n'
    then set_count (record c { writer = fresh_row c }) 0
    else record c { writer = emit c.writer (screen_char (shown char) c.writer.color_code) }

write-cons :
    (c : Console) (char : ℕ) (rest : List ℕ)
    → write c (char ∷ rest) ≡ write (byte_written c char) rest
unfolding write
write-cons c char rest = elim (Bool-cases (char == b'\n')) [
  | inl e ↦ rw e (rw (newline-fresh_row c))
  | inr e ↦ rw e (elim (Bool-cases (is_printable char)) [
    | inl p ↦ rw p (rw (write_byte-emit c.writer char) (rw e))
    | inr p ↦ rw p (rw (write_byte-emit c.writer 0xfe))
  ])
]

byte_written-IsValid : (c : Console) (char : ℕ) → IsValid (byte_written c char)
unfolding emit
byte_written-IsValid c char = elim (Bool-cases (char == b'\n')) [
  | inl e ↦ rw e (fresh_row-IsValid c)
  | inr e ↦ rw e (omega (arith, wrapped-lt c.writer))
]

byte_written-shell :
    (c : Console) (char : ℕ)
    → ((byte_written c char).shell.prompt ≡ c.shell.prompt)
      × ((byte_written c char).shell.prompt_enabled ≡ c.shell.prompt_enabled)
byte_written-shell c char = ground arith

write-Continues : (c : Console) (text : List ℕ) → IsValid c → Continues c (write c text)
unfolding write
write-Continues c [] v = record {
  out = c;
  returns = refl;
  valid = v;
  same_prompt = refl;
  same_enabled = refl;
}
write-Continues c (char ∷ rest) v =
    let after = write-Continues (byte_written c char) rest (byte_written-IsValid c char) in
    let kept = byte_written-shell c char in
    record {
      out = after.out;
      returns = write-cons c char rest ∙ after.returns;
      valid = after.valid;
      same_prompt = after.same_prompt ∙ kept.0;
      same_enabled = after.same_enabled ∙ kept.1;
    }

Continues-if :
    {c : Console} (b : Bool) {x y : Option Console}
    → Continues c x
    → Continues c y
    → Continues c (if b then x else y)
Continues-if true x y = x
Continues-if false x y = y

-- On a valid console `_print` of any text ends without a panic, through the shell or not, in a
-- valid console, with the prompt as it was.
pub print-Continues : (c : Console) (text : List ℕ) → IsValid c → Continues c (print c text)
unfolding print
print-Continues c text v = Continues-if c.initialized (write-Continues c text v) (record {
  out = record c { writer = printed c.writer text };
  returns = rw (write_string-printed c.writer text);
  valid = Cursor.printed-IsValid c.writer text v;
  same_prompt = refl;
  same_enabled = refl;
})
