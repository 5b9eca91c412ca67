-- ===== src/Scheduler/Turn/Alone.antt =====
-- What a timer interrupt does with the only process of src/scheduler.rs: nothing waits, so that the
-- idle task runs, and the process has the turn behind it.
use leaf_os.Common.{◌⊎◌, inl, ℕ, ◌≡◌, refl, ◌∙◌, true, none, some, List, [], ◌∷◌, ◌++◌, arith}
use leaf_os.Scheduler.{
  Task, Kernel, set_task_rsp, save_rsp, pop, pick_next, reinsert_task, replace_curr_task,
  select_next_task, get_idle_task, current_task_ptr, turn,
}
use leaf_os.Scheduler.Turn.{turns}

-- The task runs, and no other one waits. The idle task may still have to be made.
pub record Alone (fresh : Task) (k : Kernel) (task idle_task : Task) : Type 0 where
  pub running : k.task ≡ some task
  pub none_waits : k.scheduler.tasks ≡ []
  pub past : k.initialized ≡ true
  pub has_idle : (k.idle_task ≡ some idle_task) ⊎ ((k.idle_task ≡ none) × (idle_task ≡ fresh))

-- The idle task runs, and the task waits.
record Idles (k : Kernel) (task idle_task : Task) : Type 0 where
  running : k.task ≡ none
  waits : k.scheduler.tasks ≡ task ∷ []
  past : k.initialized ≡ true
  has_idle : k.idle_task ≡ some idle_task

turn-Idles :
    (fresh : Task) (k : Kernel) (task idle_task : Task) (rsp : ℕ)
    → Alone fresh k task idle_task
    → (k' : Kernel) × (turn fresh k rsp ≡ some (k', idle_task.1))
      × Idles k' (set_task_rsp task rsp) idle_task
unfolding turn current_task_ptr save_rsp select_next_task pick_next pop replace_curr_task
    reinsert_task get_idle_task
turn-Idles fresh k task idle_task rsp a = (
  record k {
    scheduler = record k.scheduler { tasks = set_task_rsp task rsp ∷ [] };
    task = none;
    idle_task = some idle_task;
  },
  ground arith,
  record { running = refl; waits = refl; past = a.past; has_idle = refl },
)

turn-Alone :
    (fresh : Task) (k : Kernel) (task idle_task : Task) (rsp : ℕ)
    → Idles k task idle_task
    → (k' : Kernel) × (turn fresh k rsp ≡ some (k', task.1))
      × Alone fresh k' task (set_task_rsp idle_task rsp)
unfolding turn current_task_ptr save_rsp select_next_task pick_next pop replace_curr_task
    reinsert_task get_idle_task
turn-Alone fresh k task idle_task rsp a = (
  record k {
    scheduler = record k.scheduler { tasks = [] };
    task = some task;
    idle_task = some (set_task_rsp idle_task rsp);
  },
  ground arith,
  record { running = refl; none_waits = refl; past = a.past; has_idle = inl refl },
)

-- The stack pointers of pairs of interrupts: of the task, and of the idle task behind it.
abbrev pub in_turn : List (ℕ × ℕ) → List ℕ
in_turn [] = []
in_turn ((rsp, idle_rsp) ∷ rounds) = rsp ∷ idle_rsp ∷ in_turn rounds

-- Where the task and the idle task are after these interrupts.
abbrev pub last_rsp : Task → List (ℕ × ℕ) → Task
last_rsp task [] = task
last_rsp task ((rsp, idle_rsp) ∷ rounds) = last_rsp (set_task_rsp task rsp) rounds

abbrev pub last_idle : Task → List (ℕ × ℕ) → Task
last_idle idle_task [] = idle_task
last_idle idle_task ((rsp, idle_rsp) ∷ rounds) = last_idle (set_task_rsp idle_task idle_rsp) rounds

-- A round: the kernel behind it, from which later turns go on.
record Round (fresh : Task) (k : Kernel) (task idle_task : Task) (rsp idle_rsp : ℕ) : Type 0 where
  out : Kernel
  returns : turns fresh k rsp (idle_rsp ∷ []) ≡ some (out, (set_task_rsp task rsp).1)
  goes_on :
      (next : ℕ) (rsps : List ℕ)
      → turns fresh k rsp (idle_rsp ∷ next ∷ rsps) ≡ turns fresh out next rsps
  alone : Alone fresh out (set_task_rsp task rsp) (set_task_rsp idle_task idle_rsp)

round :
    (fresh : Task) (k : Kernel) (task idle_task : Task) (rsp idle_rsp : ℕ)
    → Alone fresh k task idle_task
    → Round fresh k task idle_task rsp idle_rsp
unfolding turns
round fresh k task idle_task rsp idle_rsp a =
    let (k', first, idles) = turn-Idles fresh k task idle_task rsp a in
    let (k'', second, alone) =
      turn-Alone fresh k' (set_task_rsp task rsp) idle_task idle_rsp idles in
    record {
      out = k'';
      returns = rw (first, turns) second;
      goes_on = λ next rsps. rw (first, turns) (rw (second, turns) refl);
      alone = alone;
    }

-- A process that is alone gets every second turn: at each interrupt of it the idle task runs, though
-- the process could, and at the next interrupt the process runs again. However often that goes on,
-- each of the two is resumed on the stack pointer that it was interrupted with, and the process is
-- alone as before.
pub turns-Alone :
    (fresh : Task) (k : Kernel) (task idle_task : Task) (rsp idle_rsp : ℕ) (rounds : List (ℕ × ℕ))
    → Alone fresh k task idle_task
    → let all = (rsp, idle_rsp) ∷ rounds in
      (k' : Kernel) × (turns fresh k rsp (idle_rsp ∷ in_turn rounds)
        ≡ some (k', (last_rsp task all).1))
      × Alone fresh k' (last_rsp task all) (last_idle idle_task all)
      × ((next : ℕ)
          → (k₁ : Kernel) × (turns fresh k rsp (idle_rsp ∷ in_turn rounds ++ next ∷ [])
              ≡ some (k₁, (last_idle idle_task all).1)))
unfolding turns
turns-Alone fresh k task idle_task rsp idle_rsp [] a =
    let r = round fresh k task idle_task rsp idle_rsp a in
    (
      r.out,
      r.returns,
      r.alone,
      λ next.
          let (k₁, idled, _) = turn-Idles fresh r.out _ _ next r.alone in
          (k₁, r.goes_on next [] ∙ idled),
    )
turns-Alone fresh k task idle_task rsp idle_rsp ((rsp', idle_rsp') ∷ rounds) a =
    let r = round fresh k task idle_task rsp idle_rsp a in
    let (k', returns, alone, idled) = turns-Alone fresh r.out _ _ rsp' idle_rsp' rounds r.alone in
    (
      k',
      r.goes_on rsp' (idle_rsp' ∷ in_turn rounds) ∙ returns,
      alone,
      λ next.
          let (k₁, idles) = idled next in
          (k₁, r.goes_on rsp' (idle_rsp' ∷ in_turn rounds ++ next ∷ []) ∙ idles),
    )
