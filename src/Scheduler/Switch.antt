-- ===== src/Scheduler/Switch.antt =====
-- The whole `apic_timer_handler` of src/interrupts.rs: it saves the registers of the task that it
-- interrupts, has the scheduler of src/scheduler.rs choose, and loads the registers of the task
-- that runs next.
pub mod Areas
pub mod Contexts
use leaf_os.Common.{ℕ, Option, none, some, List, [], ◌∷◌, ◌>>=◌}
use leaf_os.Scheduler.{Memory, Kernel, Task, pop, turn}
use leaf_os.Scheduler.Context.{Registers, Frame, push_regs, pushed, iretq, resume}

-- A timer interrupt: the registers and the stack pointer that it finds, with the frame of the
-- processor on the stack, and memory then and when the handler comes to its pops.
pub record Interrupt : Type 0 where
  pub regs : Registers
  pub rsp : ℕ
  pub memory : Memory
  pub later : Memory

-- What a task is resumed with.
abbrev pub TaskContext : Type 0
TaskContext = Registers × Frame

-- What the interrupted task should be resumed with.
abbrev pub interrupted : Interrupt → TaskContext
interrupted i = (i.regs, iretq i.rsp i.memory)

-- The stack pointer and memory behind the pushes.
abbrev pub saved : Interrupt → ℕ × Memory
saved i = push_regs pushed i.regs i.rsp i.memory

-- The handler: the kernel behind it, and what the next task runs with.
pub switch : Task → Kernel → Interrupt → Option (Kernel × TaskContext)
switch fresh k i = elim (turn fresh k (saved i).0) [
  | none ↦ none
  | some (k', p) ↦ some (k', resume p.kernel_rsp i.later i.regs)
]

-- Interrupts in a row, and what each of them resumes.
pub switches : Task → Kernel → List Interrupt → Option (List TaskContext)
switches fresh k [] = some []
switches fresh k (i ∷ rest) = elim (switch fresh k i) [
  | none ↦ none
  | some (k', loaded) ↦ (do others ← switches fresh k' rest; some (loaded ∷ others))
]

-- Round robin over contexts: the interrupted one goes to the front, and the last one runs.
pub round_robin : List TaskContext → List TaskContext → Option (List TaskContext)
round_robin waiting [] = some []
round_robin waiting (c ∷ rest) = elim (pop waiting) [
  | none ↦ none
  | some (next, others) ↦ (do loaded ← round_robin (c ∷ others) rest; some (next ∷ loaded))
]
