-- ===== src/Shell/Cells.antt =====
-- One more or one less cell of a line that goes over the ends of rows: the screens that the
-- branches of `key_event` of src/shell.rs leave.
use leaf_os.Common.{ℕ, ◌+◌, ◌-◌, ◌*◌, ◌/◌, ◌≤◌, ◌<◌, ◌≡◌, ap, ◌∙◌, List, ◌∷◌, length, arith}
use leaf_os.Vga.{screen_char, Buffer, update}
use leaf_os.Vga.Scroll.{blank, scrolled, unscrolled}
use leaf_os.Vga.Cursor.{put_at, moved, ended}
use leaf_os.Shell.{Console, set_count}
use leaf_os.Shell.Erasing.{back, row_before}
use leaf_os.Shell.Rows.{cell_at, ShowsWrapped-kept, Wrapped}

module _ (start limit : ℕ) (on_screen : limit < 25) (before : Buffer) (c : Console)
    (text : List ℕ) where
  -- One more cell on the row.
  pub Wrapped-press :
      (char : ℕ)
      → (e : Wrapped start limit before text c) → c.writer.column_position < 80
      → Wrapped start limit before (char ∷ text) (
          set_count
            (record c { writer = moved (put_at c.writer (screen_char char c.writer.color_code)) })
            (c.shell.written_char_count + 1))
  Wrapped-press char e room =
      let b' =
        update c.writer.buffer 24 c.writer.column_position (screen_char char c.writer.color_code) in
      let kept : (i : ℕ)
          → i < start + length text
          → cell_at b' e.wraps i ≡ cell_at c.writer.buffer e.wraps i =
        λ i lt. ground (arith, e.cursor) in
      record {
        wraps = e.wraps;
        most = e.most;
        count = omega (arith, e.count);
        cursor = omega (arith, e.cursor);
        on_row = omega arith;
        shows = (
          ground (arith, e.cursor),
          ShowsWrapped-kept c.writer.buffer b' c.writer.color_code e.wraps e.wraps start text kept
              e.shows,
        );
        prompt = λ i lt. kept i (omega arith) ∙ e.prompt i lt;
        blanks = λ col lo hi. ground (arith, e.blanks col);
        rows = λ row col lt lo hi. ground (arith, e.rows row col);
      }

  -- One more cell, on a fresh row.
  pub Wrapped-wrap :
      (char : ℕ)
      → (e : Wrapped start limit before text c) → c.writer.column_position ≡ 80
      → start + length text < 80 * (limit + 1)
      → Wrapped start limit before (char ∷ text) (
          set_count
            (record c {
              writer = moved (put_at (ended c.writer) (screen_char char c.writer.color_code));
            })
            (c.shell.written_char_count + 1))
  Wrapped-wrap char e full room =
      let color = c.writer.color_code in
      let b' = update (scrolled color c.writer.buffer) 24 0 (screen_char char color) in
      let kept : (i : ℕ)
          → i < start + length text
          → cell_at b' (e.wraps + 1) i ≡ cell_at c.writer.buffer e.wraps i =
        λ i lt.
          let up : 24 - (e.wraps - i / 80) ≡ 24 - (e.wraps + 1 - i / 80) + 1 =
            omega (arith, e.cursor) in
          rw up (ground (arith, e.cursor)) in
      record {
        wraps = e.wraps + 1;
        most = omega (arith, e.cursor);
        count = omega (arith, e.count);
        cursor = omega (arith, e.cursor);
        on_row = omega arith;
        shows = (
          ground (arith, e.cursor),
          ShowsWrapped-kept c.writer.buffer b' color e.wraps (e.wraps + 1) start text kept e.shows,
        );
        prompt = λ i lt. kept i (omega arith) ∙ e.prompt i lt;
        blanks = λ col lo hi. ground arith;
        rows = λ row col lt lo hi.
            let moved_up : b' row col ≡ c.writer.buffer (row + 1) col = ground arith in
            moved_up
            ∙ e.rows (row + 1) col lt (omega arith) (omega arith)
            ∙ ap (λ (r : ℕ). before r col) (omega arith);
      }

  -- One cell less on the row.
  pub Wrapped-erase :
      (char : ℕ)
      → (e : Wrapped start limit before (char ∷ text) c) → 0 < c.writer.column_position
      → Wrapped start limit before text (
          set_count
            (record c { writer = put_at (back c.writer) (blank c.writer.color_code) })
            (c.shell.written_char_count - 1))
  Wrapped-erase char e inside =
      let color = c.writer.color_code in
      let b' = update c.writer.buffer 24 (c.writer.column_position - 1) (blank color) in
      let kept : (i : ℕ)
          → i < start + length text
          → cell_at b' e.wraps i ≡ cell_at c.writer.buffer e.wraps i =
        λ i lt. ground (arith, e.cursor) in
      record {
        wraps = e.wraps;
        most = e.most;
        count = omega (arith, e.count);
        cursor = omega (arith, e.cursor);
        on_row = omega arith;
        shows =
            ShowsWrapped-kept c.writer.buffer b' color e.wraps e.wraps start text kept e.shows.1;
        prompt = λ i lt. kept i (omega arith) ∙ e.prompt i lt;
        blanks = λ col lo hi. ground (arith, e.blanks col);
        rows = λ row col lt lo hi. ground (arith, e.rows row col);
      }

  -- One cell less, over the start of the row.
  pub Wrapped-unwrap :
      (char : ℕ)
      → (e : Wrapped start limit before (char ∷ text) c) → c.writer.column_position ≡ 0
      → Wrapped start limit before text (
          set_count
            (record c { writer = put_at (row_before c.writer) (blank c.writer.color_code) })
            (c.shell.written_char_count - 1))
  Wrapped-unwrap char e home =
      let color = c.writer.color_code in
      let b' = update (unscrolled color c.writer.buffer) 24 79 (blank color) in
      let some_wraps : 1 ≤ e.wraps = omega (arith, e.cursor) in
      let kept : (i : ℕ)
          → i < start + length text
          → cell_at b' (e.wraps - 1) i ≡ cell_at c.writer.buffer e.wraps i =
        λ i lt.
          let down : 24 - (e.wraps - 1 - i / 80) ≡ 24 - (e.wraps - i / 80) + 1 =
            omega (arith, e.cursor) in
          rw down (ground (arith, e.cursor)) in
      record {
        wraps = e.wraps - 1;
        most = omega arith;
        count = omega (arith, e.count);
        cursor = omega (arith, e.cursor);
        on_row = omega arith;
        shows =
            ShowsWrapped-kept c.writer.buffer b' color e.wraps (e.wraps - 1) start text kept
              e.shows.1;
        prompt = λ i lt. kept i (omega arith) ∙ e.prompt i lt;
        blanks = λ col lo hi. ground arith;
        rows = λ row col lt lo hi.
            let moved_down : b' row col ≡ c.writer.buffer (row - 1) col = ground arith in
            moved_down
            ∙ e.rows (row - 1) col lt (omega arith) (omega arith)
            ∙ ap (λ (r : ℕ). before r col) (omega arith);
      }
