-- ===== src/Shell/Kept.antt =====
-- Operations of src/shell.rs do not take the global `SHELL` back.
use leaf_os.Common.{
  Bool, ◌≡◌, refl, ap, sym, ◌∙◌, true, false, Option, none, some, List, ◌>>=◌, ltb, ◌==◌,
  if◌then◌else◌, ℕ,
}
use leaf_os.Vga.{Writer, new_line, write_colored_string, write_string}
use leaf_os.Shell.{
  Console, set_count, on_writer, print_prompt, newline, backspace, insert, Keyboard, DecodedKey,
  raw_key, unicode, key_event, erase_back, step_back, utf8,
}

-- A normal return keeps `INITIALIZED`.
abbrev pub Keeps : Console → Option Console → Type 0
Keeps c o = (c' : Console) → o ≡ some c' → c'.initialized ≡ c.initialized

Keeps-if :
    (c : Console) (test : Bool) (x y : Option Console)
    → Keeps c x
    → Keeps c y
    → Keeps c (if test then x else y)
Keeps-if c true x y hx hy = hx
Keeps-if c false x y hx hy = hy

Keeps-some : (c d : Console) → d.initialized ≡ c.initialized → Keeps c (some d)
Keeps-some c d h c' e = let same : d ≡ c' = cc e in sym (ap (λ x. x.initialized) same) ∙ h

Keeps-bind {ℓ} :
    {A : Type ℓ} (c : Console) (o : Option A) (f : A → Option Console)
    → ((a : A) → o ≡ some a → Keeps c (f a))
    → Keeps c (o >>= f)
Keeps-bind c none f h c' e = cc e
Keeps-bind c (some a) f h c' e = h a refl c' e

on_writer-Keeps : (c : Console) (o : Option Writer) → Keeps c (on_writer c o)
on_writer-Keeps c o = Keeps-bind c o _ (λ w e. Keeps-some c (record c { writer = w }) refl)

print_prompt-Keeps : (c : Console) → Keeps c (print_prompt c)
unfolding print_prompt
print_prompt-Keeps c =
    Keeps-if c c.shell.prompt_enabled _ _
      (on_writer-Keeps c (write_colored_string c.writer c.shell.prompt)) (Keeps-some c c refl)

newline-Keeps : (c : Console) → Keeps c (newline c)
unfolding newline
newline-Keeps c = Keeps-bind c (on_writer c (new_line c.writer)) _ (λ c₁ e₁.
    Keeps-bind c (print_prompt c₁) _ (λ c₂ e₂.
      Keeps-some c (set_count c₂ 0)
        (print_prompt-Keeps c₁ c₂ e₂ ∙ on_writer-Keeps c (new_line c.writer) c₁ e₁)))

backspace-Keeps : (c : Console) (erase : Writer → Option Writer) → Keeps c (backspace c erase)
unfolding backspace
backspace-Keeps c erase =
    Keeps-if c (ltb 0 c.shell.written_char_count) _ _
      (Keeps-bind c (erase c.writer) _ (λ w e. Keeps-some c _ refl)) (Keeps-some c c refl)

insert-Keeps : (c : Console) (text : List ℕ) → Keeps c (insert c text)
unfolding insert
insert-Keeps c text = Keeps-bind c (write_string c.writer text) _ (λ w e. Keeps-some c _ refl)

-- No key takes the global back.
pub key_event-Keeps :
    (k : Keyboard) (c : Console) (key : DecodedKey k.KeyCode) → Keeps c (key_event k c key)
unfolding key_event
key_event-Keeps k c (raw_key key) =
    Keeps-if c (k.is_backspace key) _ _ (backspace-Keeps c erase_back)
      (insert-Keeps c (k.debug key))
key_event-Keeps k c (unicode key) =
    Keeps-if c (key == 8) _ _ (backspace-Keeps c step_back)
      (Keeps-if c (key == 10) _ _ (newline-Keeps c) (insert-Keeps c (utf8 key)))
