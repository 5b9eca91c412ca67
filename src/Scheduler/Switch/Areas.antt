-- ===== src/Scheduler/Switch/Areas.antt =====
-- The part of a stack that `apic_timer_handler` of src/interrupts.rs reads when it resumes a task:
-- 15 registers and the processor's frame.
use leaf_os.Common.{
  ℕ, ◌+◌, ◌-◌, ◌*◌, ◌≤◌, ◌<◌, ◌≡◌, ◌⊎◌, inl, inr, refl, ap, ◌∙◌, List, [], ◌∷◌, length, arith,
}
use leaf_os.Scheduler.{Memory, store}
use leaf_os.Scheduler.Context.{
  Reg, Registers, set_reg, push_regs, pop_regs, pushed, popped, Frame, iretq, resume,
}
use leaf_os.Scheduler.Frame.{Frame_path}

-- The saved state of a task is 160 bytes from its stack pointer on.
abbrev pub area_size : ℕ
area_size = 160

abbrev pub Keeps : Memory → Memory → ℕ → Type 0
Keeps m m' s = (a : ℕ) → s ≤ a → a < s + area_size → m' a ≡ m a

abbrev pub Disjoint : ℕ → ℕ → Type 0
Disjoint s t = (s + area_size ≤ t) ⊎ (t + area_size ≤ s)

pop_regs-rsp :
    (rs : List Reg) (regs : Registers) (sp : ℕ) (m : Memory)
    → (pop_regs rs regs sp m).0 ≡ sp + 8 * length rs
unfolding pop_regs
pop_regs-rsp [] regs sp m = omega arith
pop_regs-rsp (r ∷ rs) regs sp m = omega (arith, pop_regs-rsp rs (set_reg regs r (m sp)) (sp + 8) m)

pop_regs-agree :
    (rs : List Reg) (regs : Registers) (sp : ℕ) (m m' : Memory)
    → ((a : ℕ) → sp ≤ a → a < sp + 8 * length rs → m' a ≡ m a)
    → pop_regs rs regs sp m' ≡ pop_regs rs regs sp m
unfolding pop_regs
pop_regs-agree [] regs sp m m' same = refl
pop_regs-agree (r ∷ rs) regs sp m m' same =
    ap (λ (v : ℕ). pop_regs rs (set_reg regs r v) (sp + 8) m') (same sp (omega arith) (omega arith))
    ∙ pop_regs-agree rs (set_reg regs r (m sp)) (sp + 8) m m'
        (λ a lo hi. same a (omega arith) (omega arith))

-- What a task is resumed with lies in its area.
pub resume-agree :
    (s : ℕ) (m m' : Memory) (regs : Registers) → Keeps m m' s → resume s m' regs ≡ resume s m regs
unfolding resume iretq
resume-agree s m m' regs same =
    let pops = pop_regs-agree popped regs s m m' (λ a lo hi. same a lo (omega arith)) in
    let top = pop_regs-rsp popped regs s m in
    ap (λ (p : ℕ × Registers). (p.1, iretq p.0 m')) pops
    ∙ ap (λ (f : Frame). ((pop_regs popped regs s m).1, f))
        (Frame_path (same _ (omega arith) (omega arith)) (same _ (omega arith) (omega arith))
          (same _ (omega arith) (omega arith)) (same _ (omega arith) (omega arith))
          (same _ (omega arith) (omega arith)))

push_regs-outside :
    (rs : List Reg) (regs : Registers) (rsp : ℕ) (m : Memory) (a : ℕ)
    → 8 * length rs ≤ rsp
    → (rsp ≤ a) ⊎ (a + 8 * length rs < rsp)
    → (push_regs rs regs rsp m).1 a ≡ m a
unfolding push_regs
push_regs-outside [] regs rsp m a h out = refl
push_regs-outside (r ∷ rs) regs rsp m a h (inl above) =
    push_regs-outside rs regs (rsp - 8) (store m (rsp - 8) (regs r)) a (omega arith)
      (inl (omega arith))
    ∙ ground arith
push_regs-outside (r ∷ rs) regs rsp m a h (inr below) =
    push_regs-outside rs regs (rsp - 8) (store m (rsp - 8) (regs r)) a (omega arith)
      (inr (omega arith))
    ∙ ground arith

-- The pushes leave an area alone that is apart from the one that they make.
pub push_regs-Keeps :
    (regs : Registers) (rsp : ℕ) (m : Memory) (s : ℕ)
    → 120 ≤ rsp
    → Disjoint s (rsp - 120)
    → Keeps m (push_regs pushed regs rsp m).1 s
push_regs-Keeps regs rsp m s room (inl before) a lo hi =
    push_regs-outside pushed regs rsp m a room (inr (omega arith))
push_regs-Keeps regs rsp m s room (inr behind) a lo hi =
    push_regs-outside pushed regs rsp m a room (inl (omega arith))
