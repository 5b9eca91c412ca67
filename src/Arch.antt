-- ===== src/Arch.antt =====
-- What the kernel asks of the processor: src/arch/mod.rs, for x86-64.
pub mod Flag
pub mod Simulation
pub mod X86
mod Tests
use leaf_os.Common.{Bool, if◌then◌else◌}
use leaf_os.Arch.X86.{Processor}
use leaf_os.Arch.X86

module _ (p : Processor) where
  open p use {State}

  pub nop : State → State
  nop s = X86.nop p s

  pub enable_interrupts : State → State
  enable_interrupts s = X86.enable_interrupts p s

  pub disable_interrupts : State → State
  disable_interrupts s = X86.disable_interrupts p s

  pub is_interrupts_enabled : State → Bool
  is_interrupts_enabled s = X86.is_interrupts_enabled p s

  pub without_interrupts : {R : Type 0} → (State → R × State) → State → R × State
  without_interrupts f s =
      if is_interrupts_enabled s
      then (let (result, s') = f (disable_interrupts s) in (result, enable_interrupts s'))
      else f s

  pub wait_for_interrupt : State → State
  wait_for_interrupt s = X86.wait_for_interrupt p s

  pub break_point : State → State
  break_point s = X86.break_point p s
