-- ===== src/Startup/Contexts.antt =====
-- The processes that `kernel_main` of src/main.rs leaves, over any number of timer interrupts.
use leaf_os.Common.{
  ℕ, ◌+◌, ◌-◌, ◌<◌, ◌≡◌, inl, inr, refl, sym, ap, ap₂, subst, ◌∙◌, true, some, List, [], ◌∷◌, map,
  length, arith,
}
use leaf_os.Scheduler.{Memory, Stack, Kernel, ProcessState, Task, process_new, runnable, turn}
use leaf_os.Scheduler.Context.{Registers, resume}
use leaf_os.Scheduler.FirstFrame.{
  first_registers, first_frame, made-rsp, made-outside, resume-process_state_new,
}
use leaf_os.Scheduler.Turn.{turn-Runs, requeued}
use leaf_os.Scheduler.Switch.{Interrupt, TaskContext, interrupted, switches, round_robin}
use leaf_os.Scheduler.Switch.Areas.{Keeps, Disjoint, resume-agree}
use leaf_os.Scheduler.Switch.Contexts.{area, Holds, Undisturbed, Same, switches-round_robin}
use leaf_os.Startup.{Boot, World, kernel_main}
use leaf_os.Startup.Steps.{CanStart}
use leaf_os.Startup.Points.{Fresh}
use leaf_os.Startup.Ready.{Made, made_first, made_second, started-Ready}

module _ (b : Boot) where
  -- The end of the kernel stack of a process, and where its state is saved at first.
  abbrev pub stack_top : ℕ → ℕ
  stack_top n = b.kernel_box n + 4096

  abbrev pub first_area : ℕ → ℕ
  first_area n = stack_top n - 144

  -- A process that has not run: it begins a function with interrupts enabled, on its own stack.
  abbrev pub Begins : ℕ → ℕ → TaskContext → Type 0
  Begins n target c =
      (c.0 ≡ first_registers (stack_top n))
      × (c.1.rip ≡ target)
      × (c.1.rflags ≡ 0x202)
      × (c.1.rsp ≡ stack_top n)

  -- Memory holds the context of a process that has not run.
  abbrev Waits : Memory → ProcessState → ℕ → ℕ → Type 0
  Waits m p n target =
      (c : TaskContext) × Begins n target c × ((regs : Registers) → resume p.kernel_rsp m regs ≡ c)

  abbrev kernel_stack : ℕ → Stack
  kernel_stack n = record { addr = b.kernel_box n; size = 4096 }

  abbrev user_stack : ℕ → Stack
  user_stack n = record { addr = b.user_box n; size = 4096 }

  abbrev context : ℕ → ℕ → Memory → TaskContext
  context n target m =
      (first_registers (stack_top n), first_frame (kernel_stack n) (user_stack n) true target m)

  Made-second :
      (w : World b) (first second : ProcessState)
      → Made b w first second
      → (second.kernel_rsp ≡ first_area 1) × Waits w.memory second 1 b.test_fn_hello
  Made-second w first second made =
      let m = (made_first b made.before).1 in
      (
        ap (λ (p : ProcessState). p.kernel_rsp) made.second_made
            ∙ made-rsp (kernel_stack 1) (user_stack 1) true b.test_fn_hello m,
        (
          context 1 b.test_fn_hello m,
          (refl, refl, refl, refl),
          λ regs.
              ap₂ (λ (p : ProcessState) (x : Memory). resume p.kernel_rsp x regs) made.second_made
                made.memory
              ∙ resume-process_state_new (kernel_stack 1) (user_stack 1) true b.test_fn_hello m
                  (omega arith) regs,
        ),
      )

  -- Making the second process leaves the saved state of the first one alone.
  second-Keeps :
      (m : Memory)
      → Disjoint (first_area 0) (first_area 1)
      → Keeps (made_first b m).1 (made_second b m).1 (first_area 0)
  second-Keeps m (inl before) a lo hi =
      made-outside (kernel_stack 1) (user_stack 1) true b.test_fn_hello (made_first b m).1 a
        (omega arith) (inl (omega arith))
  second-Keeps m (inr behind) a lo hi =
      made-outside (kernel_stack 1) (user_stack 1) true b.test_fn_hello (made_first b m).1 a
        (omega arith) (inr (omega arith))

  Made-first :
      (w : World b) (first second : ProcessState)
      → Made b w first second
      → Disjoint (first_area 0) (first_area 1)
      → (first.kernel_rsp ≡ first_area 0) × Waits w.memory first 0 b.test_fn
  Made-first w first second made apart =
      let m = made.before in
      let at : (made_first b m).0.kernel_rsp ≡ first_area 0 =
        made-rsp (kernel_stack 0) (user_stack 0) true b.test_fn m in
      (
        ap (λ (p : ProcessState). p.kernel_rsp) made.first_made ∙ at,
        (
          context 0 b.test_fn m,
          (refl, refl, refl, refl),
          λ regs.
              ap₂ (λ (p : ProcessState) (x : Memory). resume p.kernel_rsp x regs) made.first_made
                made.memory
              ∙ ap (λ (s : ℕ). resume s (made_second b m).1 regs) at
              ∙ resume-agree (first_area 0) (made_first b m).1 (made_second b m).1 regs
                  (second-Keeps m apart)
              ∙ ap (λ (s : ℕ). resume s (made_first b m).1 regs) (sym at)
              ∙ resume-process_state_new (kernel_stack 0) (user_stack 0) true b.test_fn m
                  (omega arith) regs,
        ),
      )

  Waits-Keeps :
      (m m' : Memory) (p : ProcessState) (n target : ℕ)
      → p.kernel_rsp ≡ first_area n
      → Keeps m m' (first_area n)
      → Waits m p n target
      → Waits m' p n target
  Waits-Keeps m m' p n target at kept (c, begins, stores) = (
    c,
    begins,
    λ regs.
        ap (λ (s : ℕ). resume s m' regs) at
        ∙ resume-agree (first_area n) m m' regs kept
        ∙ ap (λ (s : ℕ). resume s m regs) (sym at)
        ∙ stores regs,
  )

-- From the start to the processes' turns. `kernel_main` has reached its last loop, on a machine
-- that can start and on which nothing had run, and the kernel stacks of its two processes are
-- apart. Nobody writes to the saved state of a process that waits, and each interrupt has room for
-- its pushes apart from there. Then the first timer interrupt begins `test_fn_hello`, no turn
-- panics, and over any number of further timer interrupts the handler resumes what round robin over
-- contexts gives, the context that begins `test_fn` being the one that waits at first.
pub kernel_main-round_robin :
    (b : Boot) (w w' : World b) (fresh_task : Task) (rsp : ℕ) (m : Memory) (is : List Interrupt)
    → CanStart b
    → Fresh b w
    → kernel_main b w ≡ some w'
    → Disjoint (first_area b 0) (first_area b 1)
    → Keeps w'.memory m (first_area b 0)
    → Keeps w'.memory m (first_area b 1)
    → Undisturbed (first_area b 0 ∷ []) m is
    → (k : Kernel) × (p : ProcessState) × (c₁ : TaskContext) × (c₂ : TaskContext) × (turn fresh_task
          w'.kernel rsp
        ≡ some (k, p))
      × ((regs : Registers) → resume p.kernel_rsp m regs ≡ c₂)
      × Begins b 1 b.test_fn_hello c₂
      × Begins b 0 b.test_fn c₁
      × Same (switches fresh_task k is) (round_robin (c₁ ∷ []) (map interrupted is))
kernel_main-round_robin b w w' fresh_task rsp m is can fresh starts apart kept₀ kept₁ undisturbed =
    let ready = started-Ready b w w' can fresh starts in
    let s = ready.scheduled in
    let (at₀, waits₀) = Made-first b w' s.first s.second ready.made apart in
    let (at₁, waits₁) = Made-second b w' s.first s.second ready.made in
    let (c₁, begins₁, stores₁) = Waits-Keeps b w'.memory m s.first 0 b.test_fn at₀ kept₀ waits₀ in
    let (c₂, begins₂, stores₂) =
      Waits-Keeps b w'.memory m s.second 1 b.test_fn_hello at₁ kept₁ waits₁ in
    let one : Task = (process_new 1 runnable, s.first) in
    let two : Task = (process_new 2 runnable, s.second) in
    let r =
      turn-Runs fresh_task w'.kernel rsp (one ∷ []) two
        (record { state = s.void_state; made = s.void_made }) (ap (λ x. x.tasks) s.tasks) in
    let queue : r.out.scheduler.tasks ≡ one ∷ [] =
      r.queue ∙ ap (λ o. requeued o rsp (one ∷ [])) s.no_task in
    let same =
      switches-round_robin fresh_task r.out two m (c₁ ∷ []) is r.ready r.running
        (subst (λ ts. 0 < length {0} {A = Task} ts) (sym queue) (omega arith))
        (subst (λ ts. Holds m ts (c₁ ∷ [])) (sym queue) (stores₁, tt))
        (subst (λ ss. Undisturbed ss m is)
          (ap (λ (n : ℕ). n ∷ []) (sym at₀) ∙ ap (λ ts. map area ts) (sym queue)) undisturbed) in
    (r.out, s.second, c₁, c₂, r.returns, stores₂, begins₂, begins₁, same)
