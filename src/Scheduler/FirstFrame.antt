-- ===== src/Scheduler/FirstFrame.antt =====
-- The first frame that `ProcessState::new` of src/scheduler.rs builds, as the end of
-- `apic_timer_handler` of src/interrupts.rs reads it.
use leaf_os.Common.{
  inl, inr, inr, Bool-cases, ◌⊎◌, ℕ, zero, suc, ◌+◌, ◌-◌, ◌*◌, ◌≤◌, ◌<◌, ◌≡◌, refl, ap, ap₂, ◌∙◌,
  fun_ext, Bool, false, ◌==◌, ne→==, if◌then◌else◌, arith,
}
use leaf_os.Scheduler.{
  Stack, ProcessState, Memory, store, below_top, zero_registers, process_state_new, default_flags,
  code_selector,
}
use leaf_os.Scheduler.Context.{
  Reg, rax, rbx, rcx, rdx, rsi, rdi, r8, r9, r10, r11, r12, r13, r14, r15, rbp, reg_index,
  Registers, set_reg, pop_regs, popped, Frame, iretq, resume,
}
use leaf_os.Scheduler.Frame.{Frame_path}

zero_registers-outside :
    (top left n : ℕ) (m : Memory) (a : ℕ)
    → (a < below_top top (3 + n + left)) ⊎ (below_top top (4 + n) < a)
    → zero_registers top left n m a ≡ m a
unfolding zero_registers
zero_registers-outside top zero n m a h = refl
zero_registers-outside top (suc left) n m a (inl under) =
    zero_registers-outside top left (n + 1) (store m (below_top top (4 + n)) 0) a
      (inl (omega arith))
    ∙ ground arith
zero_registers-outside top (suc left) n m a (inr over) =
    zero_registers-outside top left (n + 1) (store m (below_top top (4 + n)) 0) a
      (inr (omega arith))
    ∙ ground arith

zero_registers-zero :
    (top left n : ℕ) (m : Memory) (i : ℕ)
    → 8 * (4 + n + left) ≤ top
    → n ≤ i
    → i < n + left
    → zero_registers top left n m (below_top top (4 + i)) ≡ 0
unfolding zero_registers
zero_registers-zero top zero n m i h lo hi = absurd (omega arith)
zero_registers-zero top (suc left) n m i h lo hi = elim (Bool-cases (i == n)) [
  | inl e ↦
      let same : i ≡ n = ground arith in
      zero_registers-outside top left (n + 1) (store m (below_top top (4 + n)) 0)
        (below_top top (4 + i)) (inr (omega arith))
      ∙ ground arith
  | inr e ↦
      zero_registers-zero top left (n + 1) (store m (below_top top (4 + n)) 0) i (omega arith)
        (ground arith) (omega arith)
]

-- The registers of a process that has not run: zero, but for `rbp`.
abbrev pub first_registers : ℕ → Registers
first_registers top q = if reg_index q == 14 then top else 0

module _ (kernel_stack user_stack : Stack) (kernel : Bool) (start_fn : ℕ) (m : Memory) where
  abbrev pub top : ℕ
  top = kernel_stack.addr + kernel_stack.size

  abbrev pub made : ProcessState × Memory
  made = process_state_new kernel_stack user_stack kernel start_fn m

  -- The memory with the frame for `iretq`, before the registers are written below it.
  abbrev framed : Memory
  framed =
      store
        (store
          (store (store m (below_top top 0) (if kernel then top else user_stack.addr))
            (below_top top 1) default_flags)
          (below_top top 2) (code_selector kernel))
        (below_top top 3) start_fn

  made-framed : (a : ℕ) → 152 ≤ top → top - 32 < a → made.1 a ≡ framed a
  unfolding process_state_new
  made-framed a h above =
      let other : (a == below_top top 18) ≡ false = ne→== a (below_top top 18) (omega arith) in
      rw other (zero_registers-outside top 14 0 framed a (inr (omega arith)))

  pub made-rsp : made.0.kernel_rsp ≡ top - 144
  unfolding process_state_new
  made-rsp = omega arith

  -- Nothing else is written.
  pub made-outside : (a : ℕ) → 152 ≤ top → (a < top - 144) ⊎ (top < a) → made.1 a ≡ m a
  unfolding process_state_new
  made-outside a h (inl under) =
      let other : (a == below_top top 18) ≡ false = ne→== a (below_top top 18) (omega arith) in
      rw other (zero_registers-outside top 14 0 framed a (inl (omega arith)) ∙ (ground arith))
  made-outside a h (inr over) = made-framed a h (omega arith) ∙ ground arith

  made-register : (i : ℕ) → 152 ≤ top → i < 14 → made.1 (top - 8 * (4 + i)) ≡ 0
  unfolding process_state_new
  made-register i h lt =
      let other : (below_top top (4 + i) == below_top top 18) ≡ false =
        ne→== (below_top top (4 + i)) (below_top top 18) (omega arith) in
      rw other (zero_registers-zero top 14 0 framed i (omega arith) (omega arith) (omega arith))

  made-rbp : made.1 (top - 144) ≡ top
  unfolding process_state_new
  made-rbp = ground arith

  -- What `iretq` finds for a process that has not run.
  abbrev pub first_frame : Frame
  first_frame = record {
    rip = start_fn;
    cs = if kernel then 8 else 19;
    rflags = 0x202;
    rsp = if kernel then top else user_stack.addr;
    ss = m (top + 8);
  }

  first_iretq : 152 ≤ top → iretq (top - 24) made.1 ≡ first_frame
  unfolding iretq
  first_iretq h =
      Frame_path (made-framed (top - 24) h (omega arith) ∙ ground arith)
        (made-framed (top - 24 + 8) h (omega arith) ∙ ground arith)
        (made-framed (top - 24 + 16) h (omega arith) ∙ ground arith)
        (made-framed (top - 24 + 24) h (omega arith) ∙ ground arith)
        (made-framed (top - 24 + 32) h (omega arith)
          ∙ (let at : top - 24 + 32 ≡ top + 8 = omega arith in rw at (ground arith)))

  register_at : (i a : ℕ) → 152 ≤ top → i < 14 → a ≡ top - 8 * (4 + i) → made.1 a ≡ 0
  register_at i a h lt e = ap made.1 e ∙ made-register i h lt

  first_pops :
      152 ≤ top
      → (regs : Registers)
      → pop_regs popped regs (top - 144) made.1 ≡ (top - 24, first_registers top)
  unfolding pop_regs set_reg reg_index
  first_pops h regs = ap₂ (λ (n : ℕ) (q : Registers). (n, q)) (omega arith) (fun_ext each)
    where
      each : (q : Reg) → (pop_regs popped regs (top - 144) made.1).1 q ≡ first_registers top q
      each rax = register_at 0 _ h (omega arith) (omega arith)
      each rbx = register_at 1 _ h (omega arith) (omega arith)
      each rcx = register_at 2 _ h (omega arith) (omega arith)
      each rdx = register_at 3 _ h (omega arith) (omega arith)
      each rsi = register_at 4 _ h (omega arith) (omega arith)
      each rdi = register_at 5 _ h (omega arith) (omega arith)
      each r8 = register_at 6 _ h (omega arith) (omega arith)
      each r9 = register_at 7 _ h (omega arith) (omega arith)
      each r10 = register_at 8 _ h (omega arith) (omega arith)
      each r11 = register_at 9 _ h (omega arith) (omega arith)
      each r12 = register_at 10 _ h (omega arith) (omega arith)
      each r13 = register_at 11 _ h (omega arith) (omega arith)
      each r14 = register_at 12 _ h (omega arith) (omega arith)
      each r15 = register_at 13 _ h (omega arith) (omega arith)
      each rbp = made-rbp

  -- The first resumption of a new process, from the stack pointer that `ProcessState::new`
  -- returns, with its kernel stack's end at 152 or above: it starts `start_fn` with interrupts
  -- enabled, in the kernel's code segment or the user's, with every register zero but `rbp`, which
  -- is the end of the kernel stack. The stack pointer is the end of the kernel stack, or the start
  -- of the user stack; the stack segment is what memory held in the second word behind the kernel
  -- stack.
  pub resume-process_state_new :
      152 ≤ top
      → (regs : Registers)
      → resume made.0.kernel_rsp made.1 regs ≡ (first_registers top, first_frame)
  unfolding resume process_state_new
  resume-process_state_new h regs =
      ap (λ (p : ℕ × Registers). (p.1, iretq p.0 made.1)) (first_pops h regs)
      ∙ ap (λ (f : Frame). (first_registers top, f)) (first_iretq h)

  -- `ProcessState::new`, with its kernel stack's end at 152 or above, writes the word just behind
  -- the kernel stack's last byte, and takes for the top of the kernel stack an address that lies
  -- behind it by the stack's size once more.
  pub process_state_new-overrun :
      152 ≤ top
      → (made.1 (kernel_stack.addr + kernel_stack.size)
          ≡ (if kernel then kernel_stack.addr + kernel_stack.size else user_stack.addr))
        × (made.0.kernel_top_rsp ≡ kernel_stack.addr + 2 * kernel_stack.size)
  unfolding process_state_new
  process_state_new-overrun h = (made-framed top h (omega arith) ∙ ground arith, omega arith)
