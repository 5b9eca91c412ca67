-- ===== src/Scheduler/Frame.antt =====
-- The frames that `apic_timer_handler` of src/interrupts.rs saves, as the end of the handler reads
-- them.
use leaf_os.Common.{
  ℕ, ◌+◌, ◌-◌, ◌*◌, ◌≤◌, ◌≡◌, refl, ap, ap₂, ◌∙◌, fun_ext, List, [], ◌∷◌, ◌++◌, length, arith,
}
use leaf_os.Scheduler.{Memory, store}
use leaf_os.Scheduler.Context.{
  Reg, rax, reg_index, Registers, set_reg, push_regs, pop_regs, pushed, Frame, iretq, resume,
}

unfoldable pub rev : List Reg → List Reg
rev [] = []
rev (r ∷ rs) = rev rs ++ r ∷ []

pub push_regs-rsp :
    (rs : List Reg) (regs : Registers) (rsp : ℕ) (m : Memory)
    → 8 * length rs ≤ rsp
    → (push_regs rs regs rsp m).0 + 8 * length rs ≡ rsp
unfolding push_regs
push_regs-rsp [] regs rsp m h = omega arith
push_regs-rsp (r ∷ rs) regs rsp m h =
    omega (arith, push_regs-rsp rs regs (rsp - 8) (store m (rsp - 8) (regs r)) (omega arith))

pub push_regs-above :
    (rs : List Reg) (regs : Registers) (rsp : ℕ) (m : Memory) (a : ℕ)
    → 8 * length rs ≤ rsp
    → rsp ≤ a
    → (push_regs rs regs rsp m).1 a ≡ m a
unfolding push_regs
push_regs-above [] regs rsp m a h above = refl
push_regs-above (r ∷ rs) regs rsp m a h above =
    push_regs-above rs regs (rsp - 8) (store m (rsp - 8) (regs r)) a (omega arith) (omega arith)
    ∙ ground arith

pop_regs-append :
    (rs : List Reg) (r : Reg) (regs : Registers) (sp : ℕ) (m : Memory)
    → pop_regs (rs ++ r ∷ []) regs sp m ≡ (
      (pop_regs rs regs sp m).0 + 8,
      set_reg (pop_regs rs regs sp m).1 r (m (pop_regs rs regs sp m).0),
    )
unfolding pop_regs
pop_regs-append [] r regs sp m = refl
pop_regs-append (q ∷ rs) r regs sp m = pop_regs-append rs r (set_reg regs q (m sp)) (sp + 8) m

unfoldable pub restored : List Reg → Registers → Registers → Registers
restored [] regs regs₀ = regs₀
restored (r ∷ rs) regs regs₀ = set_reg (restored rs regs regs₀) r (regs r)

-- Registers popped in the opposite order, from a memory that kept what lies above the stack
-- pointer, are those that were pushed.
pub pop_regs-push_regs :
    (rs : List Reg) (regs regs₀ : Registers) (rsp : ℕ) (m m' : Memory)
    → 8 * length rs ≤ rsp
    → ((a : ℕ) → (push_regs rs regs rsp m).0 ≤ a → m' a ≡ (push_regs rs regs rsp m).1 a)
    → pop_regs (rev rs) regs₀ (push_regs rs regs rsp m).0 m' ≡ (rsp, restored rs regs regs₀)
unfolding pop_regs push_regs rev restored
pop_regs-push_regs [] regs regs₀ rsp m m' h kept = refl
pop_regs-push_regs (r ∷ rs) regs regs₀ rsp m m' h kept =
    let under = store m (rsp - 8) (regs r) in
    let sp = (push_regs rs regs (rsp - 8) under).0 in
    let ih = pop_regs-push_regs rs regs regs₀ (rsp - 8) under m' (omega arith) kept in
    let below = push_regs-rsp rs regs (rsp - 8) under (omega arith) in
    let slot : m' (rsp - 8) ≡ regs r =
      kept (rsp - 8) (omega arith)
      ∙ push_regs-above rs regs (rsp - 8) under (rsp - 8) (omega arith) (omega arith)
      ∙ ground arith in
    pop_regs-append (rev rs) r regs₀ sp m'
    ∙ ap (λ (p : ℕ × Registers). (p.0 + 8, set_reg p.1 r (m' p.0))) ih
    ∙ ap₂ (λ (n v : ℕ). (n, set_reg (restored rs regs regs₀) r v)) (omega arith) slot

restored-pushed : (regs regs₀ : Registers) (q : Reg) → restored pushed regs regs₀ q ≡ regs q
unfolding restored set_reg reg_index
restored-pushed regs regs₀ rax = refl
restored-pushed regs regs₀ _ = refl

pub Frame_path :
    {f g : Frame}
    → f.rip ≡ g.rip
    → f.cs ≡ g.cs
    → f.rflags ≡ g.rflags
    → f.rsp ≡ g.rsp
    → f.ss ≡ g.ss
    → f ≡ g
Frame_path p q r s t = λ i. record { rip = p i; cs = q i; rflags = r i; rsp = s i; ss = t i }

iretq-agree : (sp : ℕ) (m m' : Memory) → ((a : ℕ) → sp ≤ a → m' a ≡ m a) → iretq sp m' ≡ iretq sp m
unfolding iretq
iretq-agree sp m m' same = λ i. record {
  rip = same sp (omega arith) i;
  cs = same (sp + 8) (omega arith) i;
  rflags = same (sp + 16) (omega arith) i;
  rsp = same (sp + 24) (omega arith) i;
  ss = same (sp + 32) (omega arith) i;
}

-- An interrupted task comes back as it was. Take the registers pushed at the interrupt on a stack
-- with room for them: whatever the registers are when it is resumed there, and whatever was
-- written below the pushed ones, the end of the handler loads every register anew and returns by
-- the frame that the interrupt left.
pub resume-push_regs :
    (regs regs₀ : Registers) (rsp : ℕ) (m m' : Memory)
    → 120 ≤ rsp
    → ((a : ℕ) → rsp - 120 ≤ a → m' a ≡ (push_regs pushed regs rsp m).1 a)
    → resume (push_regs pushed regs rsp m).0 m' regs₀ ≡ (regs, iretq rsp m)
unfolding resume rev
resume-push_regs regs regs₀ rsp m m' h kept =
    let below = push_regs-rsp pushed regs rsp m h in
    let kept' = λ (a : ℕ) (le : (push_regs pushed regs rsp m).0 ≤ a). kept a (omega arith) in
    ap (λ (p : ℕ × Registers). (p.1, iretq p.0 m'))
      (pop_regs-push_regs pushed regs regs₀ rsp m m' h kept')
    ∙ ap₂ (λ (q : Registers) (f : Frame). (q, f)) (fun_ext (restored-pushed regs regs₀))
        (iretq-agree rsp m m'
          (λ a le. kept a (omega arith) ∙ push_regs-above pushed regs rsp m a h le))
