-- ===== src/Interrupts/Keys.antt =====
-- From the keyboard to the screen: the keyboard interrupts of src/interrupts.rs, the handler that
-- src/lib.rs registers with src/events.rs, and the shell.
use leaf_os.Common.{
  bind-cong, bind-some, ℕ, zero, suc, ◌≡◌, refl, ap, ◌∙◌, true, inl, inr, Option-cases, Option,
  none, some, List, [], ◌∷◌, map, ◌>>=◌, if◌then◌else◌,
}
use leaf_os.Shell.{Console, Keyboard, DecodedKey, key_event}
use leaf_os.Shell.Kept.{key_event-Keeps}
use leaf_os.Shell.Typing.{Keystroke, key_of, type_keys}
use leaf_os.Pit
use leaf_os.Pit.{port_read}
use leaf_os.Events.{event_handlers_new, init_kb_handler, call_keyboard_event}
use leaf_os.Events.Order.{init_kb_handler-key_event}
use leaf_os.Interrupts.{Hardware, System, decode, end_of_interrupt, keyboard_interrupt_handler}

module _ (k : Keyboard) where
  -- A key that came in, if any, and then keys one by one.
  abbrev pub press : Option (DecodedKey k.KeyCode) → Console → Option Console
  press none c = some c
  press (some key) c = key_event k c key

  unfoldable pub press_all : Console → List (DecodedKey k.KeyCode) → Option Console
  press_all c [] = some c
  press_all c (key ∷ keys) = do c' ← key_event k c key; press_all c' keys

  press_all-type_keys :
      (c : Console) (keys : List Keystroke) → press_all c (map (key_of k) keys) ≡ type_keys k c keys
  unfolding press_all type_keys
  press_all-type_keys c [] = refl
  press_all-type_keys c (key ∷ keys) = elim (Option-cases (key_event k c (key_of k key))) [
    | inl stops ↦ rw stops refl
    | inr (c', goes_on) ↦ rw goes_on (press_all-type_keys c' keys)
  ]

  -- The first of the keys that came in, and the others.
  press_all-first :
      (c : Console) (key : Option (DecodedKey k.KeyCode)) (rest : List (DecodedKey k.KeyCode))
      {c' : Console}
      → press_all c (elim key [ none ↦ rest | some key' ↦ key' ∷ rest ]) ≡ some c'
      → (c₁ : Console) × (press key c ≡ some c₁)
        × (c₁.initialized ≡ c.initialized)
        × (press_all c₁ rest ≡ some c')
  unfolding press_all
  press_all-first c none rest e = (c, refl, refl, e)
  press_all-first c (some key) rest e =
      let (c₁, pressed, others) = bind-some (key_event k c key) _ e in
      (c₁, pressed, key_event-Keeps k c key c₁ pressed, others)

module _ (h : Hardware) where
  open h use {ports, keyboard, Lapic, Pics, Decoder}

  -- The controllers after one acknowledgement: the local APIC if there is one, else the others.
  abbrev pub acknowledged : ℕ → Option Lapic × Pics → Option Lapic × Pics
  acknowledged id (none, pics) = (none, h.notify_end_of_interrupt id pics)
  acknowledged id (some l, pics) = (some (h.lapic_end_of_interrupt l), pics)

  -- The system after an acknowledgement.
  abbrev pub acknowledge : ℕ → System h → System h
  acknowledge id s =
      let (lapic, pics) = acknowledged id (s.lapic, s.pics) in
      record s { lapic = lapic; pics = pics }

  pub end_of_interrupt-acknowledge :
      (id : ℕ) (s : System h) → end_of_interrupt h id s ≡ some (acknowledge id s)
  unfolding end_of_interrupt
  end_of_interrupt-acknowledge id s = at_lapic s.lapic
    where
      at_lapic :
          (o : Option Lapic)
          → end_of_interrupt h id (record s { lapic = o })
            ≡ some (acknowledge id (record s { lapic = o }))
      at_lapic none = refl
      at_lapic (some l) = refl

  -- The keys that `n` scancodes from the port complete.
  unfoldable pub decoded : ℕ → Pit.Machine ports → Decoder → List (DecodedKey keyboard.KeyCode)
  decoded zero machine decoder = []
  decoded (suc n) machine decoder =
      let (scancode, machine') = port_read ports 0x60 machine in
      let (key, decoder') = decode h scancode decoder in
      let rest = decoded n machine' decoder' in elim key [ none ↦ rest | some key' ↦ key' ∷ rest ]

  -- `n` keyboard interrupts, one after the other.
  unfoldable pub keyboard_interrupts : ℕ → System h → Option (System h)
  keyboard_interrupts zero s = some s
  keyboard_interrupts (suc n) s = do s' ← keyboard_interrupt_handler h s; keyboard_interrupts n s'

  -- The shell has started, and its handler is the one for keys.
  pub record Listening (s : System h) : Type 0 where
    pub handlers : s.event_handlers ≡ init_kb_handler keyboard (event_handlers_new keyboard)
    pub has_shell : s.console.initialized ≡ true

  -- The system after one scancode, with the console that the key leaves.
  abbrev pub scanned : System h → Console → System h
  scanned s c =
      let (scancode, machine) = port_read ports 0x60 s.machine in
      let (key, decoder) = decode h scancode s.decoder in
      acknowledge 36 (record s { console = c; decoder = decoder; machine = machine })

  abbrev pub scanned_key : System h → Option (DecodedKey keyboard.KeyCode)
  scanned_key s = (decode h (port_read ports 0x60 s.machine).0 s.decoder).0

  keyboard_interrupt_handler-press :
      (s : System h)
      → Listening s
      → keyboard_interrupt_handler h s
        ≡ (press keyboard (scanned_key s) s.console >>= λ c. some (scanned s c))
  unfolding keyboard_interrupt_handler
  keyboard_interrupt_handler-press s l = at_key (scanned_key s)
    where
      to_shell :
          (key : DecodedKey keyboard.KeyCode)
          → call_keyboard_event keyboard s.event_handlers (record { key = key }) s.console
            ≡ key_event keyboard s.console key
      to_shell key =
          ap (λ hs. call_keyboard_event keyboard hs (record { key = key }) s.console) l.handlers
          ∙ init_kb_handler-key_event keyboard (record { key = key }) s.console
          ∙ ap (λ b. if b then key_event keyboard s.console key else some s.console) l.has_shell

      at_key :
          (key : Option (DecodedKey keyboard.KeyCode))
          → (elim key [
            | none ↦ some s.console
            | some key' ↦
                call_keyboard_event keyboard s.event_handlers (record { key = key' }) s.console
          ]
              >>= λ c. end_of_interrupt h 36 (record s {
                console = c;
                decoder = (decode h (port_read ports 0x60 s.machine).0 s.decoder).1;
                machine = (port_read ports 0x60 s.machine).1;
              }))
            ≡ (press keyboard key s.console >>= λ c. some (scanned s c))
      at_key none = end_of_interrupt-acknowledge 36 _
      at_key (some key') =
          ap
            (λ o. o >>= λ c. end_of_interrupt h 36 (record s {
              console = c;
              decoder = (decode h (port_read ports 0x60 s.machine).0 s.decoder).1;
              machine = (port_read ports 0x60 s.machine).1;
            }))
            (to_shell key')
          ∙ bind-cong (key_event keyboard s.console key') _ _
              (λ c. end_of_interrupt-acknowledge 36 _)

  -- The controllers after `n` acknowledgements of the keyboard.
  unfoldable pub acknowledged_times : ℕ → Option Lapic × Pics → Option Lapic × Pics
  acknowledged_times zero controllers = controllers
  acknowledged_times (suc n) controllers = acknowledged_times n (acknowledged 36 controllers)

  -- While the shell listens, keyboard interrupts do to the console what `key_event` does for the
  -- keys that their scancodes complete, in order; each is acknowledged once, and the shell listens on.
  pub keyboard_interrupts-press_all :
      (n : ℕ) (s : System h) (c : Console)
      → Listening s
      → press_all keyboard s.console (decoded n s.machine s.decoder) ≡ some c
      → (s' : System h) × (keyboard_interrupts n s ≡ some s')
        × (s'.console ≡ c)
        × ((s'.lapic, s'.pics) ≡ acknowledged_times n (s.lapic, s.pics))
        × Listening s'
  unfolding press_all decoded keyboard_interrupts acknowledged_times
  keyboard_interrupts-press_all zero s c l e = (s, refl, cc e, refl, l)
  keyboard_interrupts-press_all (suc n) s c l e =
      let (c₁, pressed, kept, rest) =
        press_all-first keyboard s.console (scanned_key s)
          (decoded n (port_read ports 0x60 s.machine).1
            (decode h (port_read ports 0x60 s.machine).0 s.decoder).1)
          e in
      let s₁ = scanned s c₁ in
      let l₁ : Listening s₁ = record { handlers = l.handlers; has_shell = kept ∙ l.has_shell } in
      let (s', returns, console, controllers, l') = keyboard_interrupts-press_all n s₁ c l₁ rest in
      (s', rw (keyboard_interrupt_handler-press s l) (rw pressed returns), console, controllers, l')

  -- Where the scancodes complete the keys of a line editor, the interrupts do what typing does.
  pub keyboard_interrupts-type_keys :
      (n : ℕ) (s : System h) (keys : List Keystroke) (c : Console)
      → Listening s
      → decoded n s.machine s.decoder ≡ map (key_of keyboard) keys
      → type_keys keyboard s.console keys ≡ some c
      → (s' : System h) × (keyboard_interrupts n s ≡ some s')
        × (s'.console ≡ c)
        × ((s'.lapic, s'.pics) ≡ acknowledged_times n (s.lapic, s.pics))
        × Listening s'
  keyboard_interrupts-type_keys n s keys c l same typed = keyboard_interrupts-press_all n s c l (
      ap (λ ks. press_all keyboard s.console ks) same
      ∙ press_all-type_keys keyboard s.console keys
      ∙ typed)
