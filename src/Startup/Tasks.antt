-- ===== src/Startup/Tasks.antt =====
-- The first turns of the scheduler after the start of the kernel in src/main.rs.
use leaf_os.Common.{ℕ, ◌≡◌, refl, ap, some, List, [], ◌∷◌}
use leaf_os.Scheduler.{Kernel, ProcessState, Task, process_new, runnable}
use leaf_os.Scheduler.Turn.{IsReady, turns, turns-waiting}
use leaf_os.Scheduler.Context.{Registers, resume}
use leaf_os.Startup.{Boot, World, kernel_main}
use leaf_os.Startup.Steps.{CanStart}
use leaf_os.Startup.Points.{Fresh}
use leaf_os.Startup.Ready.{Scheduled, kernel_main-Ready}

-- The interrupts at these stack pointers end in the task's turn.
pub record RunsAt (fresh : Task) (k : Kernel) (rsp : ℕ) (rsps : List ℕ) (task : Task) : Type 0 where
  pub out : Kernel
  pub returns : turns fresh k rsp rsps ≡ some (out, task.1)
  pub running : out.task ≡ some task

Scheduled-RunsAt :
    (k : Kernel) (s : Scheduled k) (fresh : Task) (rsp rsp' : ℕ)
    → RunsAt fresh k rsp [] (process_new 2 runnable, s.second)
      × RunsAt fresh k rsp (rsp' ∷ []) (process_new 1 runnable, s.first)
Scheduled-RunsAt k s fresh rsp rsp' =
    let ready : IsReady k = record { state = s.void_state; made = s.void_made } in
    let queue = ap (λ x. x.tasks) s.tasks in
    let one : Task = (process_new 1 runnable, s.first) in
    let two : Task = (process_new 2 runnable, s.second) in
    let r₁ = turns-waiting fresh k rsp [] (one ∷ []) two [] ready queue refl in
    let r₂ = turns-waiting fresh k rsp (rsp' ∷ []) [] one (two ∷ []) ready queue refl in
    (
      record { out = r₁.0; returns = r₁.1; running = r₁.2 },
      record { out = r₂.0; returns = r₂.1; running = r₂.2 },
    )

-- Once `kernel_main` has reached its last loop, on a machine that can start and on which nothing
-- had run, both of its processes run, wherever the first two timer interrupts come in: the first
-- one resumes process 2 as it was made, which begins `test_fn_hello`, and the second one process 1.
pub kernel_main-RunsAt :
    (b : Boot) (w : World b) (fresh : Task) (rsp rsp' : ℕ) (regs : Registers)
    → CanStart b
    → Fresh b w
    → (w' : World b) × (first : ProcessState) × (second : ProcessState) × (kernel_main b w
        ≡ some w')
      × ((resume second.kernel_rsp w'.memory regs).1.rip ≡ b.test_fn_hello)
      × RunsAt fresh w'.kernel rsp [] (process_new 2 runnable, second)
      × RunsAt fresh w'.kernel rsp (rsp' ∷ []) (process_new 1 runnable, first)
kernel_main-RunsAt b w fresh rsp rsp' regs can new =
    let (w', returns, ready) = kernel_main-Ready b w can new in
    let s = ready.scheduled in
    let both = Scheduled-RunsAt w'.kernel s fresh rsp rsp' in
    (w', s.first, s.second, returns, ready.entry regs, both.0, both.1)
