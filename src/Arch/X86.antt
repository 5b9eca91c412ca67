-- ===== src/Arch/X86.antt =====
-- The instructions that src/arch/x86/mod.rs asks for: `hal_impls`, and `flags`. What they do to the
-- processor is a parameter.
use leaf_os.Common.{ℕ, bit_and, Bool, true, false, ◌==◌, if◌then◌else◌}

-- The state of the processor, and what the instructions do to it; `pushf` is the flags pushed.
pub record Processor : Type 1 where
  pub State : Type 0
  pub nop : State → State
  pub sti : State → State
  pub cli : State → State
  pub hlt : State → State
  pub int3 : State → State
  pub pushf : State → ℕ

abbrev pub interrupt_flag : ℕ
interrupt_flag = 0x0200

module _ (p : Processor) where
  open p use {State}

  unfoldable pub flags : State → ℕ
  flags s = p.pushf s

  pub nop : State → State
  nop s = p.nop s

  unfoldable pub enable_interrupts : State → State
  enable_interrupts s = p.sti s

  unfoldable pub disable_interrupts : State → State
  disable_interrupts s = p.cli s

  unfoldable pub is_interrupts_enabled : State → Bool
  unfolding flags
  is_interrupts_enabled s = if bit_and (flags s) interrupt_flag == 0 then false else true

  pub wait_for_interrupt : State → State
  wait_for_interrupt s = p.hlt s

  pub break_point : State → State
  break_point s = p.int3 s
