-- ===== src/Syscall.antt =====
-- System calls: src/syscall.rs with the codes of src/error_codes.rs, and `syscall_handler` of
-- src/interrupts.rs, over the words of memory. `none` is a panic.
pub mod Assembly
pub mod Laws
pub mod Processes
mod Tests
use leaf_os.Interrupts.Table.{as_u8, syscall}
use leaf_os.Common.{
  Bool, true, false, ℕ, zero, suc, ◌+◌, ◌-◌, ◌==◌, if◌then◌else◌, Option, none, some, List, [], ◌∷◌,
  ◌++◌, ◌>>=◌,
}
use leaf_os.Shell.{Console, print}
use leaf_os.Scheduler.{Memory, store}
use leaf_os.Scheduler.Context.{
  Reg, rax, rbx, rcx, rdx, rsi, rdi, r8, r9, r10, r11, r12, r13, r14, r15, rbp, Registers, set_reg,
  push_regs, pop_regs,
}

pub data Error : Type 0 where
  eio enosys : Error

-- `error as usize`.
unfoldable pub error_code : Error → ℕ
error_code eio = 5
error_code enosys = 38

abbrev pub stdout_fd : ℕ
stdout_fd = 1

-- The fields of a `SyscallArgs` in memory, by the address of the struct.
abbrev pub syscall_id : ℕ → Memory → ℕ
syscall_id args m = m args

abbrev pub arg0 : ℕ → Memory → ℕ
arg0 args m = m (args + 8)

abbrev pub arg1 : ℕ → Memory → ℕ
arg1 args m = m (args + 16)

abbrev pub arg2 : ℕ → Memory → ℕ
arg2 args m = m (args + 24)

abbrev pub set_error : ℕ → ℕ → Memory → Memory
set_error args value m = store m (args + 56) value

-- The bytes of a text in memory, from an address on.
pub read_bytes : (ℕ → ℕ) → ℕ → ℕ → List ℕ
read_bytes bytes msg zero = []
read_bytes bytes msg (suc len) = bytes msg ∷ read_bytes bytes (msg + 1) len

-- `String::from` of a text of this length: an allocation, but for the empty text, which panics if
-- the heap does not serve it. The string is dropped again before `_handle_write` returns.
unfoldable pub string_from : (ℕ → Bool) → ℕ → Bool
string_from heap msg_len = if msg_len == 0 then true else heap msg_len

-- `_handle_write`: the console after it, and the result.
pub write_result : (ℕ → ℕ) → (ℕ → Bool) → ℕ → ℕ → ℕ → Console → Option (Console × ℕ)
write_result bytes heap fd msg msg_len c =
    if fd == stdout_fd
    then (if string_from heap msg_len
        then (do c' ← print c (read_bytes bytes msg msg_len ++ b'\n' ∷ []); some (c', 0))
        else none)
    else some (c, error_code eio)

pub handle_write : (ℕ → ℕ) → (ℕ → Bool) → ℕ → Memory → Console → Option (Console × Memory)
handle_write bytes heap args m c = do
  (c', result) ← write_result bytes heap (arg0 args m) (arg1 args m) (arg2 args m) c
  some (c', set_error args result m)

-- Any other number is `unimplemented!`.
pub handle_syscall : (ℕ → ℕ) → (ℕ → Bool) → ℕ → Memory → Console → Option (Console × Memory)
handle_syscall bytes heap args m c =
    if syscall_id args m == 1 then handle_write bytes heap args m c else none

abbrev pub args_pushed : List Reg
args_pushed = r9 ∷ r8 ∷ rcx ∷ rdx ∷ rsi ∷ rdi ∷ rax ∷ []

abbrev pub args_popped : List Reg
args_popped = rdi ∷ rsi ∷ rdx ∷ rcx ∷ r8 ∷ r9 ∷ rax ∷ []

-- The registers that a call of a function does not keep: the compiler has an interrupt function
-- that makes calls save them first, and take them back last.
abbrev pub caller_saved : List Reg
caller_saved = rax ∷ rcx ∷ rdx ∷ rsi ∷ rdi ∷ r8 ∷ r9 ∷ r10 ∷ r11 ∷ []

abbrev pub caller_restored : List Reg
caller_restored = r11 ∷ r10 ∷ r9 ∷ r8 ∷ rdi ∷ rsi ∷ rdx ∷ rcx ∷ rax ∷ []

-- `rsp` is the stack pointer below the frame that the processor pushes. `scratch` is what a called
-- function leaves in the registers that it does not keep, `heap` tells which allocations succeed,
-- and `acknowledged` has the interrupts whose end was signalled, the last one first.
pub record Machine : Type 0 where
  pub registers : Registers
  pub rsp : ℕ
  pub memory : Memory
  pub console : Console
  pub interrupts_enabled : Bool
  pub acknowledged : List ℕ
  pub scratch : Registers
  pub heap : ℕ → Bool

-- The registers behind a call.
unfoldable pub called : Registers → Registers → Registers
called scratch regs rbx = regs rbx
called scratch regs rbp = regs rbp
called scratch regs r12 = regs r12
called scratch regs r13 = regs r13
called scratch regs r14 = regs r14
called scratch regs r15 = regs r15
called scratch regs q = scratch q

-- The assembly of `syscall_handler`: the pushes, the call, `add rsp, 8`, and the pops.
pub syscall_assembly : (ℕ → ℕ) → Machine → Option Machine
syscall_assembly bytes k =
    let (args, m) = push_regs args_pushed k.registers (k.rsp - 8) (store k.memory (k.rsp - 8) 0) in
    do
      (c, m') ← handle_syscall bytes k.heap args m k.console
      let (sp, regs) = pop_regs args_popped (called k.scratch k.registers) (args + 8) m'
      some (record k { registers = regs; rsp = sp; memory = m'; console = c })

-- The handler, with what the compiler puts around its body.
pub syscall_handler : (ℕ → ℕ) → Machine → Option Machine
syscall_handler bytes k =
    let (sp, m) = push_regs caller_saved k.registers k.rsp k.memory in
    do
      k' ← syscall_assembly bytes (record k { rsp = sp; memory = m; interrupts_enabled = false })
      let (sp', regs) = pop_regs caller_restored (called k'.scratch k'.registers) k'.rsp k'.memory
      some (record k' {
        registers = regs;
        rsp = sp';
        interrupts_enabled = true;
        acknowledged = as_u8 syscall ∷ k'.acknowledged;
      })

-- The registers loaded before `int 0x80`.
abbrev pub load : Machine → List (Reg × ℕ) → Machine
load k [] = k
load k ((r, v) ∷ rest) = load (record k { registers = set_reg k.registers r v }) rest

-- `int 0x80` with the operands in their registers, and the result in `rax`. `iretq` takes the
-- flags back that were pushed.
abbrev pub interrupt : (ℕ → ℕ) → Machine → List (Reg × ℕ) → Option (Machine × ℕ)
interrupt bytes k operands = do
  k' ← syscall_handler bytes (load k operands)
  some (record k' { interrupts_enabled = k.interrupts_enabled }, k'.registers rax)

module _ (bytes : ℕ → ℕ) (k : Machine) where
  pub do_syscall_0 : ℕ → Option (Machine × ℕ)
  do_syscall_0 id = interrupt bytes k ((rax, id) ∷ [])

  pub do_syscall_1 : ℕ → ℕ → Option (Machine × ℕ)
  do_syscall_1 id a0 = interrupt bytes k ((rax, id) ∷ (rdi, a0) ∷ [])

  pub do_syscall_2 : ℕ → ℕ → ℕ → Option (Machine × ℕ)
  do_syscall_2 id a0 a1 = interrupt bytes k ((rax, id) ∷ (rdi, a0) ∷ (rsi, a1) ∷ [])

  pub do_syscall_3 : ℕ → ℕ → ℕ → ℕ → Option (Machine × ℕ)
  do_syscall_3 id a0 a1 a2 = interrupt bytes k ((rax, id) ∷ (rdi, a0) ∷ (rsi, a1) ∷ (rdx, a2) ∷ [])

  pub do_syscall_4 : ℕ → ℕ → ℕ → ℕ → ℕ → Option (Machine × ℕ)
  do_syscall_4 id a0 a1 a2 a3 =
      interrupt bytes k ((rax, id) ∷ (rdi, a0) ∷ (rsi, a1) ∷ (rdx, a2) ∷ (rcx, a3) ∷ [])

  pub do_syscall_5 : ℕ → ℕ → ℕ → ℕ → ℕ → ℕ → Option (Machine × ℕ)
  do_syscall_5 id a0 a1 a2 a3 a4 =
      interrupt bytes k ((rax, id) ∷ (rdi, a0) ∷ (rsi, a1) ∷ (rdx, a2) ∷ (rcx, a3) ∷ (r8, a4) ∷ [])

  pub do_syscall_6 : ℕ → ℕ → ℕ → ℕ → ℕ → ℕ → ℕ → Option (Machine × ℕ)
  do_syscall_6 id a0 a1 a2 a3 a4 a5 =
      interrupt bytes k
        ((rax, id) ∷ (rdi, a0) ∷ (rsi, a1) ∷ (rdx, a2) ∷ (rcx, a3) ∷ (r8, a4) ∷ (r9, a5) ∷ [])
