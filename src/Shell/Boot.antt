-- ===== src/Shell/Boot.antt =====
-- Printing before the shell of src/shell.rs has started.
use leaf_os.Common.{ℕ, ◌≡◌, refl, false, some, List, [], ◌∷◌, ◌++◌}
use leaf_os.Vga.{Writer, write_string}
use leaf_os.Vga.Cursor.{printed, typed, printed-IsValid, write_string-printed}
use leaf_os.Shell.{Shell, Console, print}
use leaf_os.Shell.Total.{IsValid}

-- The global `SHELL` is not set, and the shell is the one given.
pub record Booting (shell : Shell) (c : Console) : Type 0 where
  pub valid : IsValid c
  pub off : c.initialized ≡ false
  pub same_shell : c.shell ≡ shell

printed-newline :
    (w : Writer) (text : List ℕ) → (printed w (text ++ b'\n' ∷ [])).column_position ≡ 0
unfolding printed typed
printed-newline w [] = refl
printed-newline w (char ∷ text) = printed-newline (typed w char) text

-- A line printed before the shell has started leaves the shell as it is, and the cursor at the
-- start of a row.
pub print-Booting :
    (shell : Shell) (c : Console) (text : List ℕ)
    → Booting shell c
    → (c' : Console) × (print c (text ++ b'\n' ∷ []) ≡ some c')
      × Booting shell c'
      × (c'.writer.column_position ≡ 0)
unfolding print
print-Booting shell c text b =
    let line = text ++ b'\n' ∷ [] in
    let w = printed c.writer line in
    let c' = record c { writer = w } in
    let returns : print c line ≡ some c' = rw (b.off, write_string-printed c.writer line) refl in
    (
      c',
      returns,
      record {
        valid = printed-IsValid c.writer line b.valid;
        off = b.off;
        same_shell = b.same_shell;
      },
      printed-newline c.writer text,
    )

-- Before the shell has started a print goes straight to the writer.
pub print-off :
    (c : Console) (text : List ℕ) {w : Writer}
    → c.initialized ≡ false
    → write_string c.writer text ≡ some w
    → print c text ≡ some (record c { writer = w })
unfolding print
print-off c text off written = rw (off, written) refl
