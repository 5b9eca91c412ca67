-- ===== src/Scheduler/Context.antt =====
-- The registers that `apic_timer_handler` of src/interrupts.rs pushes and pops, and the frame that
-- `iretq` takes.
use leaf_os.Common.{ℕ, ◌+◌, ◌-◌, ◌==◌, if◌then◌else◌, List, [], ◌∷◌}
use leaf_os.Scheduler.{Memory, store}

pub data Reg : Type 0 where
  rax rbx rcx rdx rsi rdi r8 r9 r10 r11 r12 r13 r14 r15 rbp : Reg

-- The number of a register's operand, to compare them by.
unfoldable pub reg_index : Reg → ℕ
reg_index rax = 0
reg_index rbx = 1
reg_index rcx = 2
reg_index rdx = 3
reg_index rsi = 4
reg_index rdi = 5
reg_index r8 = 6
reg_index r9 = 7
reg_index r10 = 8
reg_index r11 = 9
reg_index r12 = 10
reg_index r13 = 11
reg_index r14 = 12
reg_index r15 = 13
reg_index rbp = 14

abbrev pub Registers : Type 0
Registers = Reg → ℕ

unfoldable pub set_reg : Registers → Reg → ℕ → Registers
set_reg regs r v q = if reg_index q == reg_index r then v else regs q

-- `push`, for each register in turn: the new stack pointer and memory.
unfoldable pub push_regs : List Reg → Registers → ℕ → Memory → ℕ × Memory
push_regs [] regs rsp m = (rsp, m)
push_regs (r ∷ rs) regs rsp m = push_regs rs regs (rsp - 8) (store m (rsp - 8) (regs r))

-- `pop`, for each register in turn: the new stack pointer and registers.
unfoldable pub pop_regs : List Reg → Registers → ℕ → Memory → ℕ × Registers
pop_regs [] regs rsp m = (rsp, regs)
pop_regs (r ∷ rs) regs rsp m = pop_regs rs (set_reg regs r (m rsp)) (rsp + 8) m

abbrev pub pushed : List Reg
pushed = rax ∷ rbx ∷ rcx ∷ rdx ∷ rsi ∷ rdi ∷ r8 ∷ r9 ∷ r10 ∷ r11 ∷ r12 ∷ r13 ∷ r14 ∷ r15 ∷ rbp ∷ []

abbrev pub popped : List Reg
popped = rbp ∷ r15 ∷ r14 ∷ r13 ∷ r12 ∷ r11 ∷ r10 ∷ r9 ∷ r8 ∷ rdi ∷ rsi ∷ rdx ∷ rcx ∷ rbx ∷ rax ∷ []

-- What `iretq` takes from the stack, from its pointer upwards.
pub record Frame : Type 0 where
  pub rip : ℕ
  pub cs : ℕ
  pub rflags : ℕ
  pub rsp : ℕ
  pub ss : ℕ

unfoldable pub iretq : ℕ → Memory → Frame
iretq sp m = record {
  rip = m sp;
  cs = m (sp + 8);
  rflags = m (sp + 16);
  rsp = m (sp + 24);
  ss = m (sp + 32);
}

-- The end of the handler at the stack pointer that it loaded: its pops, then `iretq`.
unfoldable pub resume : ℕ → Memory → Registers → Registers × Frame
resume sp m regs = let (sp', regs') = pop_regs popped regs sp m in (regs', iretq sp' m)
