-- ===== src/Testing/Screen.antt =====
-- The tests of src/vga_buffer.rs, run in their order before the shell has started, as in a test build
-- of src/lib.rs. `none` is a test that panics.
use leaf_os.Common.{
  ℕ, zero, suc, ◌+◌, ◌-◌, ◌≤◌, ◌≡◌, refl, sym, ap, subst, ◌∙◌, inl, inr, Bool, true, Bool-cases,
  Option, some, List, [], ◌∷◌, ◌++◌, ◌&&◌, ◌==◌, ==_refl, if◌then◌else◌, get_elem?, length, bytes,
  ◌>>=◌, ◌>>◌, assert, bind-returns, arith,
}
use leaf_os.Vga.{ColorCode, Writer, buffer_height, buffer_width, read, is_printable, screen_char}
use leaf_os.Vga.Scroll.{read_lem}
use leaf_os.Vga.Cursor.{shown}
use leaf_os.Vga.Line.{NoNewline, write_string-line}
use leaf_os.Shell.{Shell, Console}
use leaf_os.Shell.Boot.{Booting, print-off, print-Booting}
use leaf_os.Interrupts.{println}

pub test_println_simple : Console → Option Console
test_println_simple c = println c (bytes "test_println_simple output")

-- The rounds that are left of the loop.
pub println_rounds : ℕ → Console → Option Console
println_rounds zero c = some c
println_rounds (suc n) c = do c' ← println c (bytes "test_println_many output"); println_rounds n c'

pub test_println_many : Console → Option Console
test_println_many c = println_rounds 200 c

abbrev pub line : List ℕ
line = bytes "Some test string that fits on a single line"

-- The loop over the characters, from column `i` on.
pub assert_chars : Writer → ℕ → List ℕ → Option (Unit {0})
assert_chars w i [] = some tt
assert_chars w i (c ∷ rest) = do
  cell ← read w.buffer (buffer_height - 2) i
  assert (cell.ascii_character == c)
  assert_chars w (i + 1) rest

pub test_println_output : Console → Option Console
test_println_output c = do c' ← println c line; assert_chars c'.writer 0 line; some c'

-- The three tests, one after the other.
abbrev pub test_all : Console → Option Console
test_all c = do c₁ ← test_println_simple c; c₂ ← test_println_many c₁; test_println_output c₂

abbrev all_printable : List ℕ → Bool
all_printable [] = true
all_printable (c ∷ rest) = is_printable c && all_printable rest

all_printable-NoNewline : (s : List ℕ) → all_printable s ≡ true → NoNewline s
all_printable-NoNewline [] h = tt
all_printable-NoNewline (c ∷ rest) h = elim (Bool-cases (is_printable c)) [
  | inl e ↦ (ground arith, all_printable-NoNewline rest (rw e at h))
  | inr e ↦ cc (e, h)
]

-- The row shows the characters from a column on.
abbrev Row : Writer → ColorCode → ℕ → List ℕ → Type 0
Row w color i s =
    (j char : ℕ) → get_elem? s j ≡ some char → w.buffer 23 (i + j) ≡ screen_char (shown char) color

assert_chars-passes :
    (w : Writer) (color : ColorCode) (i : ℕ) (s : List ℕ)
    → all_printable s ≡ true
    → i + length s ≤ buffer_width
    → Row w color i s
    → assert_chars w i s ≡ some tt
unfolding assert_chars
assert_chars-passes w color i [] h fits row = refl
assert_chars-passes w color i (c ∷ rest) h fits row = elim (Bool-cases (is_printable c)) [
  | inr e ↦ cc (e, h)
  | inl e ↦
      let here : i + 0 ≡ i = omega arith in
      let cell : w.buffer 23 i ≡ screen_char c color =
        ap (λ (n : ℕ). w.buffer 23 n) (sym here)
        ∙ row 0 c refl
        ∙ ap (λ b. screen_char (if b then c else 0xfe) color) e in
      let same : assert ((w.buffer 23 i).ascii_character == c) ≡ some tt =
        ap (λ x. assert (x.ascii_character == c)) cell ∙ ap assert (==_refl c) in
      bind-returns _ (read_lem w.buffer 23 i (omega arith) (omega arith)) (
        bind-returns _ same (
          assert_chars-passes w color (i + 1) rest (rw e at h) (omega arith)
            (λ j char at. ap (λ (n : ℕ). w.buffer 23 n) (omega arith) ∙ row (suc j) char at)))
]

println_rounds-Booting :
    (n : ℕ) (shell : Shell) (c : Console)
    → Booting shell c
    → c.writer.column_position ≡ 0
    → (c' : Console) × (println_rounds n c ≡ some c')
      × Booting shell c'
      × (c'.writer.column_position ≡ 0)
unfolding println_rounds
println_rounds-Booting zero shell c booting home = (c, refl, booting, home)
println_rounds-Booting (suc n) shell c booting home =
    let (c₁, printed, booting₁, home₁) =
      print-Booting shell c (bytes "test_println_many output") booting in
    let (c₂, rounds, booting₂, home₂) = println_rounds-Booting n shell c₁ booting₁ home₁ in
    (c₂, bind-returns _ printed rounds, booting₂, home₂)

test_println_output-passes :
    (shell : Shell) (c : Console)
    → Booting shell c
    → c.writer.column_position ≡ 0
    → (c' : Console) × (test_println_output c ≡ some c') × Booting shell c'
unfolding test_println_output
test_println_output-passes shell c booting home =
    let plain : all_printable line ≡ true = refl in
    let w = c.writer in
    let (w', written, home', row, blanks, rows) =
      write_string-line w line (all_printable-NoNewline line plain) (omega (arith, home)) in
    let printed = print-off c (line ++ b'\n' ∷ []) booting.off written in
    let (c', printed', booting', _) = print-Booting shell c line booting in
    let same : c' ≡ record c { writer = w' } = cc (printed, printed') in
    let checked =
      assert_chars-passes w' w.color_code 0 line plain (omega arith)
        (λ j char at. ap (λ (n : ℕ). w'.buffer 23 n) (omega (arith, home)) ∙ row j char at) in
    (
      record c { writer = w' },
      bind-returns _ printed (bind-returns _ checked refl),
      subst (λ x. Booting shell x) same booting',
    )

-- On a valid console, before the shell has started, the three tests pass one after the other:
-- neither a line nor two hundred of them panic, and each character of the line that
-- `test_println_output` prints is read back from its column of the last row but one.
pub test_all-passes :
    (shell : Shell) (c : Console)
    → Booting shell c
    → (c' : Console) × (test_all c ≡ some c') × Booting shell c'
unfolding test_println_simple test_println_many
test_all-passes shell c booting =
    let (c₁, simple, booting₁, home₁) =
      print-Booting shell c (bytes "test_println_simple output") booting in
    let (c₂, many, booting₂, home₂) = println_rounds-Booting 200 shell c₁ booting₁ home₁ in
    let (c₃, output, booting₃) = test_println_output-passes shell c₂ booting₂ home₂ in
    (c₃, bind-returns _ simple (bind-returns _ many output), booting₃)
