-- ===== src/Arch/Simulation.antt =====
-- `without_interrupts` of src/arch/mod.rs on the processor's flags does what the model of
-- src/drivers/pit.rs says of it, which keeps one Boolean for them.
use leaf_os.Common.{
  ℕ, Bool, ◌/◌, ◌%◌, ◌*◌, refl, ◌≡◌, sym, ap, ◌∙◌, true, false, inl, inr, Bool-cases, if◌then◌else◌,
}
use leaf_os.Pit.{Ports, Machine}
use leaf_os.Pit
use leaf_os.Arch.Flag.{bit_and-flag}
use leaf_os.Arch.X86.{Processor}
use leaf_os.Arch.X86
use leaf_os.Arch.{is_interrupts_enabled, enable_interrupts, disable_interrupts, without_interrupts}

-- The interrupt flag as the processor has it in RFLAGS.
abbrev pub flag_bit : Bool → ℕ
flag_bit b = if b then 1 else 0

module _ (c : Processor) (p : Ports) where
  -- The machine that a state stands for: bit 9 of what `pushf` pushes is its interrupt flag, which
  -- `sti` and `cli` set and clear, and nothing else that the machine has.
  pub record Views : Type 0 where
    pub view : c.State → Machine p
    pub shows : (s : c.State) → c.pushf s / 512 % 2 ≡ flag_bit (view s).interrupts_enabled
    pub sets : (s : c.State) → view (c.sti s) ≡ record (view s) { interrupts_enabled = true }
    pub clears : (s : c.State) → view (c.cli s) ≡ record (view s) { interrupts_enabled = false }

  -- What `f` does on the processor is what `g` does on the machine.
  abbrev pub Simulates :
      {R : Type 0} → Views → (c.State → R × c.State) → (Machine p → R × Machine p) → Type 0
  Simulates v f g = (s : c.State) → ((f s).0, v.view (f s).1) ≡ g (v.view s)

  is_interrupts_enabled-shows :
      (v : Views) (s : c.State) → is_interrupts_enabled c s ≡ (v.view s).interrupts_enabled
  unfolding is_interrupts_enabled X86.is_interrupts_enabled X86.flags
  is_interrupts_enabled-shows v s =
      let shown = bit_and-flag (c.pushf s) ∙ ap (λ n. n * 512) (v.shows s) in
      elim (Bool-cases (v.view s).interrupts_enabled) [
        | inl on ↦ rw (shown, on) refl
        | inr off ↦ rw (shown, off) refl
      ]

  -- On a processor whose `sti` and `cli` set and clear the interrupt flag, bit 9 of what
  -- `pushf` pushes, and leave the devices alone, `without_interrupts` simulates the one of the interval timer's model:
  -- around code that simulates other code it gives the same result, the same devices and the same
  -- state of interrupts as that one around the other.
  pub without_interrupts-Simulates :
      {R : Type 0} (v : Views) (f : c.State → R × c.State) (g : Machine p → R × Machine p)
      → Simulates v f g
      → Simulates v (without_interrupts c f) (Pit.without_interrupts p g)
  unfolding without_interrupts Pit.without_interrupts enable_interrupts disable_interrupts
      X86.enable_interrupts X86.disable_interrupts
  without_interrupts-Simulates {R} v f g same s = elim (Bool-cases (is_interrupts_enabled c s)) [
    | inl on ↦
        rw on (
          ap (λ m. ((f (c.cli s)).0, m)) (v.sets (f (c.cli s)).1)
          ∙ ap (λ (x : R × Machine p). (x.0, record x.1 { interrupts_enabled = true }))
              (same (c.cli s) ∙ ap g (v.clears s)))
        ∙ ap (λ b. if b then guarded else g (v.view s)) (sym on ∙ is_interrupts_enabled-shows v s)
    | inr off ↦
        rw off (same s)
        ∙ ap (λ b. if b then guarded else g (v.view s)) (sym off ∙ is_interrupts_enabled-shows v s)
  ]
    where
      guarded : R × Machine p
      guarded =
          let (result, k) = g (record (v.view s) { interrupts_enabled = false }) in
          (result, record k { interrupts_enabled = true })
