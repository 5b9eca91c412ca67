-- ===== src/Syscall/Laws.antt =====
-- What a system call of src/syscall.rs does to the machine that makes it.
use leaf_os.Common.{
  ℕ, ◌+◌, ◌≤◌, ◌≡◌, ◌≢◌, refl, ap, ◌∙◌, fun_ext, ◌==◌, some, List, [], ◌∷◌, ◌++◌, arith, Bool, true,
  false, Bool-cases, inl, inr, ==_iff,
}
use leaf_os.Shell.{Console, print}
use leaf_os.Scheduler.{Memory}
use leaf_os.Scheduler.Context.{
  Reg, rax, rbx, rcx, rdx, rsi, rdi, r8, r9, r10, r11, r12, r13, r14, r15, rbp, Registers,
  reg_index, set_reg, push_regs, pop_regs,
}
use leaf_os.Scheduler.Frame.{rev, restored, push_regs-rsp, push_regs-above, pop_regs-push_regs}
use leaf_os.Shell.Total.{IsValid, print-Continues}
use leaf_os.Syscall.{
  error_code, load, Machine, read_bytes, string_from, write_result, called, caller_saved,
  caller_restored, syscall_assembly, syscall_handler, do_syscall_3,
}
use leaf_os.Syscall.Assembly.{syscall_assembly-write}

-- What was saved comes back over what a call has left.
restored_registers :
    (regs regs' scratch : Registers)
    → ((q : Reg) → called scratch regs' q ≡ called scratch regs q)
    → restored caller_saved regs (called scratch regs') ≡ regs
unfolding restored set_reg reg_index called
restored_registers regs regs' scratch kept = fun_ext same
  where
    same : (q : Reg) → restored caller_saved regs (called scratch regs') q ≡ regs q
    same rax = refl
    same rbx = kept rbx
    same rcx = refl
    same rdx = refl
    same rsi = refl
    same rdi = refl
    same r8 = refl
    same r9 = refl
    same r10 = refl
    same r11 = refl
    same r12 = kept r12
    same r13 = kept r13
    same r14 = kept r14
    same r15 = kept r15
    same rbp = kept rbp

-- The end of the handler, behind its assembly.
returned :
    (bytes : ℕ → ℕ) (k k' : Machine)
    → (let (sp, m) = push_regs caller_saved k.registers k.rsp k.memory in
        syscall_assembly bytes (record k { rsp = sp; memory = m; interrupts_enabled = false }))
      ≡ some k'
    → pop_regs caller_restored (called k'.scratch k'.registers) k'.rsp k'.memory
      ≡ (k.rsp, k.registers)
    → syscall_handler bytes k
      ≡ some (record k' {
        registers = k.registers;
        rsp = k.rsp;
        interrupts_enabled = true;
        acknowledged = 128 ∷ k'.acknowledged;
      })
unfolding syscall_handler
returned bytes k k' runs back = rw (runs, back) refl

-- `write`, as a call of it runs through the handler: with room on the stack for the saved registers
-- and the arguments, and if `_handle_write` does not panic, `syscall_handler` comes back to the
-- same stack pointer, with every register and the stack above as they were, so that the result is
-- lost. The console is as `_handle_write` leaves it, the interrupt is acknowledged, and interrupts
-- are enabled.
pub syscall_handler-write :
    (bytes : ℕ → ℕ) (k : Machine) (args : ℕ) (c : Console) (result : ℕ)
    → k.rsp ≡ args + 136
    → k.registers rax ≡ 1
    → write_result bytes k.heap (k.registers rdi) (k.registers rsi) (k.registers rdx) k.console
      ≡ some (c, result)
    → (m : Memory) × (syscall_handler bytes k
        ≡ some (record k {
          memory = m;
          console = c;
          interrupts_enabled = true;
          acknowledged = 128 ∷ k.acknowledged;
        }))
      × ((a : ℕ) → k.rsp ≤ a → m a ≡ k.memory a)
unfolding rev
syscall_handler-write bytes k args c result e id h =
    let (sp, m₀) = push_regs caller_saved k.registers k.rsp k.memory in
    let saved = push_regs-rsp caller_saved k.registers k.rsp k.memory (omega arith) in
    let k₁ = record k { rsp = sp; memory = m₀; interrupts_enabled = false } in
    let (regs, m, runs, kept, above) =
      syscall_assembly-write bytes k₁ args c result (omega (arith, saved)) id h in
    let back =
      pop_regs-push_regs caller_saved k.registers (called k.scratch regs) k.rsp k.memory m
        (omega arith) above in
    (
      m,
      returned bytes k (record k₁ { registers = regs; memory = m; console = c }) runs
          (back
            ∙ ap (λ (q : Registers). (k.rsp, q))
                (restored_registers k.registers regs k.scratch kept)),
      λ a le.
          above a (omega (arith, saved, le))
          ∙ push_regs-above caller_saved k.registers k.rsp k.memory a (omega arith) le,
    )

write_result-cases :
    (bytes : ℕ → ℕ) (heap : ℕ → Bool) (fd msg len : ℕ) (c : Console)
    → IsValid c
    → string_from heap len ≡ true
    → (c' : Console) × (result : ℕ) × (write_result bytes heap fd msg len c ≡ some (c', result))
      × (fd ≡ 1 → print c (read_bytes bytes msg len ++ b'\n' ∷ []) ≡ some c')
      × (fd ≢ 1 → c' ≡ c)
unfolding write_result error_code
write_result-cases bytes heap fd msg len c v room = elim (Bool-cases (fd == 1)) [
  | inl e ↦
      let text = read_bytes bytes msg len ++ b'\n' ∷ [] in
      let printed = print-Continues c text v in
      (
        printed.out,
        0,
        rw (e, room, printed.returns) refl,
        λ _. printed.returns,
        λ other. absurd (other ((==_iff fd 1).0 e)),
      )
  | inr e ↦ (c, 5, rw e, λ one. ground arith, λ _. refl)
]

-- The operands of a call of `write`.
abbrev pub write_operands : ℕ → ℕ → ℕ → List (Reg × ℕ)
write_operands fd msg len = (rax, 1) ∷ (rdi, fd) ∷ (rsi, msg) ∷ (rdx, len) ∷ []

-- `do_syscall_3` of `write`, made on a valid console with room on the stack, returns if the heap
-- has room for a copy of the text. For standard output the bytes are printed with a newline behind
-- them, and for any other descriptor the console is as it was. In both cases what it returns is 1,
-- the number of the system call that was put in `rax`, and not the result of `write`: the handler
-- comes back with the registers as they were loaded. The stack pointer, the stack above it and the
-- interrupt flag are as they were, and the interrupt is acknowledged.
pub do_syscall_3-write :
    (bytes : ℕ → ℕ) (k : Machine) (args fd msg len : ℕ)
    → k.rsp ≡ args + 136
    → IsValid k.console
    → string_from k.heap len ≡ true
    → (c : Console) × (m : Memory) × (do_syscall_3 bytes k 1 fd msg len
        ≡ some (
          record k {
            registers = (load k (write_operands fd msg len)).registers;
            memory = m;
            console = c;
            acknowledged = 128 ∷ k.acknowledged;
          },
          1,
        ))
      × (fd ≡ 1 → print k.console (read_bytes bytes msg len ++ b'\n' ∷ []) ≡ some c)
      × (fd ≢ 1 → c ≡ k.console)
      × ((a : ℕ) → k.rsp ≤ a → m a ≡ k.memory a)
unfolding do_syscall_3 set_reg reg_index
do_syscall_3-write bytes k args fd msg len e v room =
    let (c, result, written, out, other) =
      write_result-cases bytes k.heap fd msg len k.console v room in
    let loaded = load k (write_operands fd msg len) in
    let (m, returns, above) = syscall_handler-write bytes loaded args c result e refl written in
    (c, m, rw returns refl, out, other, above)
