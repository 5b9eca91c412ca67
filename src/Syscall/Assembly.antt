-- ===== src/Syscall/Assembly.antt =====
-- The assembly of `syscall_handler` in src/interrupts.rs.
use leaf_os.Common.{ne→==, ℕ, ◌+◌, ◌-◌, ◌≤◌, ◌≡◌, ◌≢◌, refl, ◌∙◌, none, some, arith}
use leaf_os.Shell.{Console}
use leaf_os.Scheduler.{Memory, store}
use leaf_os.Scheduler.Context.{
  Reg, rbx, rbp, r10, r11, r12, r13, r14, r15, rax, rcx, rdx, rsi, rdi, r8, r9, Registers,
  reg_index, set_reg, push_regs, pop_regs,
}
use leaf_os.Syscall.{
  Machine, write_result, handle_write, handle_syscall, syscall_assembly, called, args_pushed,
  args_popped,
}

-- The memory with the arguments on the stack, whose struct is at `args`.
abbrev framed : Machine → Memory
framed k = (push_regs args_pushed k.registers (k.rsp - 8) (store k.memory (k.rsp - 8) 0)).1

-- The fields of the struct are the registers, by its order, with `error` zero.
framed_fields :
    (k : Machine) (args : ℕ)
    → k.rsp ≡ args + 64
    → (framed k args ≡ k.registers rax)
      × (framed k (args + 8) ≡ k.registers rdi)
      × (framed k (args + 16) ≡ k.registers rsi)
      × (framed k (args + 24) ≡ k.registers rdx)
      × (framed k (args + 32) ≡ k.registers rcx)
      × (framed k (args + 40) ≡ k.registers r8)
      × (framed k (args + 48) ≡ k.registers r9)
      × (framed k (args + 56) ≡ 0)
unfolding push_regs
framed_fields k args e = ground arith

framed-rsp :
    (k : Machine) (args : ℕ)
    → k.rsp ≡ args + 64
    → (push_regs args_pushed k.registers (k.rsp - 8) (store k.memory (k.rsp - 8) 0)).0 ≡ args
unfolding push_regs
framed-rsp k args e = omega arith

framed-above : (k : Machine) (args a : ℕ) → k.rsp ≡ args + 64 → k.rsp ≤ a → framed k a ≡ k.memory a
unfolding push_regs
framed-above k args a e above = ground arith

args_popped-rsp :
    (regs : Registers) (sp : ℕ) (m : Memory) → (pop_regs args_popped regs sp m).0 ≡ sp + 56
unfolding pop_regs
args_popped-rsp regs sp m = omega arith

-- The pops leave the registers alone that a call keeps.
popped-called :
    (scratch regs : Registers) (sp : ℕ) (m : Memory) (q : Reg)
    → called scratch (pop_regs args_popped (called scratch regs) sp m).1 q ≡ called scratch regs q
unfolding called pop_regs set_reg reg_index
popped-called scratch regs sp m rbx = refl
popped-called scratch regs sp m rbp = refl
popped-called scratch regs sp m r12 = refl
popped-called scratch regs sp m r13 = refl
popped-called scratch regs sp m r14 = refl
popped-called scratch regs sp m r15 = refl
popped-called scratch regs sp m rax = refl
popped-called scratch regs sp m rcx = refl
popped-called scratch regs sp m rdx = refl
popped-called scratch regs sp m rsi = refl
popped-called scratch regs sp m rdi = refl
popped-called scratch regs sp m r8 = refl
popped-called scratch regs sp m r9 = refl
popped-called scratch regs sp m r10 = refl
popped-called scratch regs sp m r11 = refl

module _ (k : Machine) (regs : Registers) (args : ℕ) (e : k.rsp ≡ args + 64) (result : ℕ) where
  abbrev returned : Memory
  returned = store (framed k) (args + 56) result

  popped_rsp : (pop_regs args_popped regs (args + 8) returned).0 ≡ k.rsp
  popped_rsp = args_popped-rsp regs (args + 8) returned ∙ omega arith

module _ (bytes : ℕ → ℕ) (k : Machine) (args : ℕ) (c : Console) (result : ℕ) where
  handled :
      k.rsp ≡ args + 64
      → k.registers rax ≡ 1
      → write_result bytes k.heap (k.registers rdi) (k.registers rsi) (k.registers rdx) k.console
        ≡ some (c, result)
      → handle_syscall bytes k.heap args (framed k) k.console
        ≡ some (c, store (framed k) (args + 56) result)
  unfolding handle_syscall handle_write
  handled e id h = let f = framed_fields k args e in rw (f.0, id, f.1, f.2, f.3, h)

  -- A call of `write`, with room for its arguments on the stack, and for which `_handle_write`
  -- does not panic, comes to the same stack pointer, with the stack above as it was, and the
  -- console as `_handle_write` leaves it, and the registers that a call keeps are kept.
  pub syscall_assembly-write :
      k.rsp ≡ args + 64
      → k.registers rax ≡ 1
      → write_result bytes k.heap (k.registers rdi) (k.registers rsi) (k.registers rdx) k.console
        ≡ some (c, result)
      → (regs : Registers) × (m : Memory) × (syscall_assembly bytes k
          ≡ some (record k { registers = regs; memory = m; console = c }))
        × ((q : Reg) → called k.scratch regs q ≡ called k.scratch k.registers q)
        × ((a : ℕ) → k.rsp ≤ a → m a ≡ k.memory a)
  unfolding syscall_assembly
  syscall_assembly-write e id h =
      let m' = store (framed k) (args + 56) result in
      let regs' = called k.scratch k.registers in
      (
        (pop_regs args_popped regs' (args + 8) m').1,
        m',
        rw (framed-rsp k args e, handled e id h, popped_rsp k regs' args e result) refl,
        popped-called k.scratch k.registers (args + 8) m',
        λ a above. rw (ne→== a (args + 56) (omega arith)) (framed-above k args a e above),
      )

-- A call of any number but 1, with room for its arguments on the stack, panics.
pub syscall_assembly-unimplemented :
    (bytes : ℕ → ℕ) (k : Machine) (args : ℕ)
    → k.rsp ≡ args + 64
    → k.registers rax ≢ 1
    → syscall_assembly bytes k ≡ none
unfolding syscall_assembly handle_syscall
syscall_assembly-unimplemented bytes k args e id =
    rw (framed-rsp k args e, (framed_fields k args e).0, ne→== (k.registers rax) 1 id)
