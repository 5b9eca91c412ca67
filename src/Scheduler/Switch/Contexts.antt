-- ===== src/Scheduler/Switch/Contexts.antt =====
-- Tasks as what they are resumed with: `apic_timer_handler` of src/interrupts.rs and the queue of
-- src/scheduler.rs are round robin over these contexts, as long as nobody writes to the saved state
-- of a task that waits.
use leaf_os.Common.{
  ℕ, ◌-◌, ◌≤◌, ◌<◌, ◌≡◌, inl, inr, refl, sym, ap, subst, ◌∙◌, none, some, List, [], ◌∷◌, ◌++◌, map,
  All, length, arith, Option,
}
use leaf_os.Scheduler.{Memory, Kernel, Task, pop, set_task_rsp}
use leaf_os.Scheduler.Context.{Registers, pushed, resume}
use leaf_os.Scheduler.Frame.{push_regs-rsp, resume-push_regs}
use leaf_os.Scheduler.Queue.{pop-append, last_cases}
use leaf_os.Scheduler.Turn.{IsReady, turn-Runs, requeued}
use leaf_os.Scheduler.Switch.{
  Interrupt, TaskContext, interrupted, saved, switch, switches, round_robin,
}
use leaf_os.Scheduler.Switch.Areas.{Keeps, Disjoint, resume-agree, push_regs-Keeps}

-- Where the saved state of a task is.
abbrev pub area : Task → ℕ
area t = t.1.kernel_rsp

-- Whatever the registers are, the task is resumed with the context.
abbrev pub Stores : Memory → Task → TaskContext → Type 0
Stores m t c = (regs : Registers) → resume (area t) m regs ≡ c

abbrev pub Holds : Memory → List Task → List TaskContext → Type 0
Holds m [] [] = Unit
Holds m [] (c ∷ cs) = ⊥
Holds m (t ∷ ts) [] = ⊥
Holds m (t ∷ ts) (c ∷ cs) = Stores m t c × Holds m ts cs

-- The areas that wait once the last one runs.
abbrev pub front : List ℕ → List ℕ
front areas = elim (pop areas) [ none ↦ [] | some (s, rest) ↦ rest ]

-- Nobody writes to the areas of the tasks that wait, between the interrupts or in the handler. Each
-- interrupt finds room for the pushes on a stack that is apart from these areas.
abbrev pub Undisturbed : List ℕ → Memory → List Interrupt → Type 0
Undisturbed areas m [] = Unit
Undisturbed areas m (i ∷ rest) =
    (120 ≤ i.rsp)
    × All (λ s. Keeps m i.memory s × Disjoint s (i.rsp - 120) × Keeps (saved i).1 i.later s) areas
    × Keeps (saved i).1 i.later (i.rsp - 120)
    × Undisturbed ((i.rsp - 120) ∷ front areas) i.later rest

Stores-Keeps :
    (m m' : Memory) (t : Task) (c : TaskContext)
    → Keeps m m' (area t)
    → Stores m t c
    → Stores m' t c
Stores-Keeps m m' t c same s regs = resume-agree (area t) m m' regs same ∙ s regs

Holds-Keeps :
    (m m' : Memory) (ts : List Task) (cs : List TaskContext)
    → All (λ s. Keeps m m' s) (map area ts)
    → Holds m ts cs
    → Holds m' ts cs
Holds-Keeps m m' [] [] same h = tt
Holds-Keeps m m' [] (c ∷ cs) same h = h
Holds-Keeps m m' (t ∷ ts) [] same h = h
Holds-Keeps m m' (t ∷ ts) (c ∷ cs) same h =
    (Stores-Keeps m m' t c same.0 h.0, Holds-Keeps m m' ts cs same.1 h.1)

Holds-last :
    (m : Memory) (zs : List Task) (y : Task) (cs : List TaskContext)
    → Holds m (zs ++ y ∷ []) cs
    → (cs' : List TaskContext) × (c : TaskContext) × (cs ≡ cs' ++ c ∷ [])
      × Holds m zs cs'
      × Stores m y c
Holds-last m [] y [] h = absurd h
Holds-last m [] y (c ∷ []) h = ([], c, refl, tt, h.0)
Holds-last m [] y (c ∷ c' ∷ cs) h = absurd h.1
Holds-last m (z ∷ zs) y [] h = absurd h
Holds-last m (z ∷ zs) y (c ∷ cs) h =
    let (cs', last, e, hs, hl) = Holds-last m zs y cs h.1 in
    (c ∷ cs', last, ap (λ l. c ∷ l) e, (h.0, hs), hl)

areas-append : (zs : List Task) (y : Task) → map area (zs ++ y ∷ []) ≡ map area zs ++ area y ∷ []
areas-append [] y = refl
areas-append (z ∷ zs) y = ap (λ l. area z ∷ l) (areas-append zs y)

front-areas : (zs : List Task) (y : Task) → front (map area (zs ++ y ∷ [])) ≡ map area zs
front-areas zs y =
    ap (λ o. elim o as (λ x. List ℕ) [ none ↦ [] | some (s, rest) ↦ rest ])
      (ap pop (areas-append zs y) ∙ pop-append (map area zs) (area y))

-- What happens between two resumptions keeps the areas of the tasks that wait.
All-Keeps :
    (m : Memory) (i : Interrupt) (areas : List ℕ)
    → 120 ≤ i.rsp
    → All (λ s. Keeps m i.memory s × Disjoint s (i.rsp - 120) × Keeps (saved i).1 i.later s) areas
    → All (λ s. Keeps m i.later s) areas
All-Keeps m i [] room all = tt
All-Keeps m i (s ∷ areas) room all = (
  λ a lo hi.
      all.0.2 a lo hi
      ∙ push_regs-Keeps i.regs i.rsp i.memory s room all.0.1 a lo hi
      ∙ all.0.0 a lo hi,
  All-Keeps m i areas room all.1,
)

-- The handler saves the interrupted task's context and resumes the one at the end of the queue.
record Switched (fresh : Task) (k : Kernel) (t : Task) (i : Interrupt) (zs : List Task)
    (cs : List TaskContext) (c : TaskContext) : Type 0 where
  out : Kernel
  next : Task
  returns : switch fresh k i ≡ some (out, c)
  running : out.task ≡ some next
  queue : out.scheduler.tasks ≡ set_task_rsp t (i.rsp - 120) ∷ zs
  ready : IsReady out
  holds : Holds i.later (set_task_rsp t (i.rsp - 120) ∷ zs) (interrupted i ∷ cs)

saved-rsp : (i : Interrupt) → 120 ≤ i.rsp → (saved i).0 ≡ i.rsp - 120
saved-rsp i room = omega (arith, push_regs-rsp pushed i.regs i.rsp i.memory room)

-- The interrupted task's context is in the area that the pushes made.
saved-Stores :
    (t : Task) (i : Interrupt)
    → 120 ≤ i.rsp
    → Keeps (saved i).1 i.later (i.rsp - 120)
    → Stores i.later (set_task_rsp t (i.rsp - 120)) (interrupted i)
saved-Stores t i room kept regs =
    resume-agree (i.rsp - 120) (saved i).1 i.later regs kept
    ∙ ap (λ (s : ℕ). resume s (saved i).1 regs) (sym (saved-rsp i room))
    ∙ resume-push_regs i.regs regs i.rsp i.memory (saved i).1 room (λ a le. refl)

switch-Switched :
    (fresh : Task) (k : Kernel) (t : Task) (m : Memory) (i : Interrupt) (zs : List Task) (y : Task)
    (cs : List TaskContext) (c : TaskContext)
    → IsReady k
    → k.task ≡ some t
    → k.scheduler.tasks ≡ zs ++ y ∷ []
    → Holds m zs cs
    → Stores m y c
    → 120 ≤ i.rsp
    → All (λ s. Keeps m i.later s) (map area zs)
    → Keeps m i.later (area y)
    → Keeps (saved i).1 i.later (i.rsp - 120)
    → Switched fresh k t i zs cs c
unfolding switch
switch-Switched fresh k t m i zs y cs c ready running e h hy room kept kept_last own =
    let r = turn-Runs fresh k (saved i).0 zs y ready e in
    record {
      out = r.out;
      next = y;
      returns =
          rw (r.returns, switch)
            (ap (λ d. some (r.out, d)) (Stores-Keeps m i.later y c kept_last hy i.regs));
      running = r.running;
      queue =
          r.queue
          ∙ ap (λ o. requeued o (saved i).0 zs) running
          ∙ ap (λ (s : ℕ). set_task_rsp t s ∷ zs) (saved-rsp i room);
      ready = r.ready;
      holds = (saved-Stores t i room own, Holds-Keeps m i.later zs cs kept h);
    }

All-last : (P : ℕ → Type 0) (xs : List ℕ) (x : ℕ) → All P (xs ++ x ∷ []) → All P xs × P x
All-last P [] x all = (tt, all.0)
All-last P (y ∷ xs) x all = let (init, last) = All-last P xs x all.1 in ((all.0, init), last)

-- What `switches` and `round_robin` come to.
abbrev pub Same : Option (List TaskContext) → Option (List TaskContext) → Type 0
Same a b = (loaded : List TaskContext) × (a ≡ some loaded) × (b ≡ some loaded)

-- Every task comes back as it was interrupted, and in its turn. A task runs, others wait, whose
-- contexts memory holds, and `VOID_TASK` is set; nobody writes to the saved state of a task that
-- waits, and each interrupt has room for its pushes apart from there. Then no turn panics, and over
-- any number of timer interrupts the handler resumes the tasks with the contexts that round robin
-- over contexts gives: the interrupted task's registers and frame go to the front of those that
-- wait, and the last of these is loaded.
pub switches-round_robin :
    (fresh : Task) (k : Kernel) (t : Task) (m : Memory) (cs : List TaskContext)
    (is : List Interrupt)
    → IsReady k
    → k.task ≡ some t
    → 0 < length k.scheduler.tasks
    → Holds m k.scheduler.tasks cs
    → Undisturbed (map area k.scheduler.tasks) m is
    → Same (switches fresh k is) (round_robin cs (map interrupted is))
unfolding switches round_robin
switches-round_robin fresh k t m cs [] ready running some_wait h undisturbed = ([], refl, refl)
switches-round_robin fresh k t m cs (i ∷ is) ready running some_wait h u =
    elim (last_cases k.scheduler.tasks) [
      | inl nothing ↦ absurd (omega (arith, ap (length {0} {A = Task}) nothing))
      | inr (y, zs, e) ↦
          let (cs', c, split, hs, hy) = Holds-last m zs y cs (subst (λ ts. Holds m ts cs) e h) in
          let all =
            All-last (λ s. Keeps m i.later s) (map area zs) (area y)
              (subst (λ ss. All (λ s. Keeps m i.later s) ss)
                (ap (λ ts. map area ts) e ∙ areas-append zs y)
                (All-Keeps m i (map area k.scheduler.tasks) u.0 u.1)) in
          let s =
            switch-Switched fresh k t m i zs y cs' c ready running e hs hy u.0 all.0 all.1 u.2 in
          let left : map area s.out.scheduler.tasks
              ≡ (i.rsp - 120) ∷ front (map area k.scheduler.tasks) =
            ap (λ ts. map area ts) s.queue
            ∙ ap (λ ss. (i.rsp - 120) ∷ ss)
                (sym (front-areas zs y) ∙ ap (λ ts. front (map area ts)) (sym e)) in
          let (loaded, runs, robin) =
            switches-round_robin fresh s.out s.next i.later (interrupted i ∷ cs') is s.ready
              s.running (subst (λ ts. 0 < length {0} {A = Task} ts) (sym s.queue) (omega arith))
              (subst (λ ts. Holds i.later ts (interrupted i ∷ cs')) (sym s.queue) s.holds)
              (subst (λ ss. Undisturbed ss i.later is) (sym left) u.3) in
          let popped : pop cs ≡ some (c, cs') = ap pop split ∙ pop-append cs' c in
          (
            c ∷ loaded,
            rw (s.returns, switches) (rw runs refl),
            rw (popped, round_robin) (rw robin refl),
          )
    ]
