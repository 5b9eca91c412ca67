-- ===== src/Interrupts/Typing.antt =====
-- What is typed while the shell listens, from the port to the screen: the keyboard's interrupts of
-- src/interrupts.rs edit the line of src/shell.rs.
use leaf_os.Common.{◌<◌, ◌*◌, ℕ, ◌+◌, ◌≤◌, ◌≡◌, sym, subst, some, List, map, length, All}
use leaf_os.Vga.{Buffer, buffer_width}
use leaf_os.Shell.Typing.{Keystroke, IsPlain, edit_all, key_of, Editing, type_keys-Editing}
use leaf_os.Shell.Rows.{Wrapped}
use leaf_os.Shell.Wrapping.{type_keys-Wrapped}
use leaf_os.Interrupts.{Hardware, System}
use leaf_os.Interrupts.Keys.{
  Listening, decoded, keyboard_interrupts, acknowledged_times, keyboard_interrupts-type_keys,
}

module _ (h : Hardware) where
  open h use {keyboard}

  -- From the keyboard to the row: while the shell listens, keyboard interrupts whose scancodes
  -- complete plain keys, no more of them than fit on the row, edit the line behind the prompt key
  -- by key, as a line editor would. None of them panics, and each is acknowledged once.
  pub keyboard_interrupts-Editing :
      {start : ℕ} {before : Buffer} (n : ℕ) (s : System h) (text : List ℕ) (keys : List Keystroke)
      → Listening h s
      → Editing start before text s.console
      → decoded h n s.machine s.decoder ≡ map (key_of keyboard) keys
      → All IsPlain keys
      → start + length text + length keys ≤ buffer_width
      → (s' : System h) × (keyboard_interrupts h n s ≡ some s')
        × Editing start before (edit_all text keys) s'.console
        × ((s'.lapic, s'.pics) ≡ acknowledged_times h n (s.lapic, s.pics))
        × Listening h s'
  keyboard_interrupts-Editing {start} {before} n s text keys l editing same plain fits =
      let (c, typed, edited) = type_keys-Editing keyboard text s.console keys editing plain fits in
      let (s', returns, console, controllers, l') =
        keyboard_interrupts-type_keys h n s keys c l same typed in
      (
        s',
        returns,
        subst (λ c'. Editing start before (edit_all text keys) c') (sym console) edited,
        controllers,
        l',
      )

  -- From the keyboard to the screen: while the shell listens, keyboard interrupts whose scancodes
  -- complete plain keys, no more of them than fit on `limit + 1` rows, at most the whole screen, edit
  -- the line behind the prompt key by key, as a line editor would whose line goes over the ends of
  -- rows. None of them panics,
  -- and each is acknowledged once.
  pub keyboard_interrupts-Wrapped :
      (start limit : ℕ) (before : Buffer) (n : ℕ) (s : System h) (text : List ℕ)
      (keys : List Keystroke)
      → limit < 25
      → Listening h s
      → Wrapped start limit before text s.console
      → decoded h n s.machine s.decoder ≡ map (key_of keyboard) keys
      → All IsPlain keys
      → start + length text + length keys ≤ 80 * (limit + 1)
      → (s' : System h) × (keyboard_interrupts h n s ≡ some s')
        × Wrapped start limit before (edit_all text keys) s'.console
        × ((s'.lapic, s'.pics) ≡ acknowledged_times h n (s.lapic, s.pics))
        × Listening h s'
  keyboard_interrupts-Wrapped start limit before n s text keys on_screen l editing same plain fits =
      let (c, typed, edited) =
        type_keys-Wrapped keyboard start limit on_screen before text s.console keys editing plain
          fits in
      let (s', returns, console, controllers, l') =
        keyboard_interrupts-type_keys h n s keys c l same typed in
      (
        s',
        returns,
        subst (λ c'. Wrapped start limit before (edit_all text keys) c') (sym console) edited,
        controllers,
        l',
      )
