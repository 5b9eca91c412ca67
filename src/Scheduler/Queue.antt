-- ===== src/Scheduler/Queue.antt =====
-- Tasks and their ids through the operations of src/scheduler.rs.
use mathlib.Core.List.Perm
use mathlib.Core.Logic.Or
use native.Mathlib.Bridge.{le_prop}
use mathlib.Core.List.{Nodup, Nodup-cons, Mem, mem-cons}
use leaf_os.Common.{
  subst, inr, inl, ◌⊎◌, ℕ, ◌+◌, ◌%◌, ◌^◌, ◌≤◌, ◌<◌, ◌≡◌, refl, sym, ap, ◌∙◌, Option, none, some,
  List, [], ◌∷◌, ◌++◌, map, arith,
}
use mathlib.Core.List.{Mem, Nodup, perm_append_singleton, Perm, map-append}
use leaf_os.Scheduler.{
  Scheduler, scheduler_new, runnable, process_new, Task, ProcessState, Kernel, pop, pick_next,
  reinsert_task, start_process, replace_curr_task, select_next_task, get_idle_task,
}

pub pop-append {ℓ} : {A : Type ℓ} (xs : List A) (x : A) → pop (xs ++ x ∷ []) ≡ some (x, xs)
unfolding pop
pop-append [] x = refl
pop-append (y ∷ xs) x = rw (pop-append xs x)

-- A list is empty, or has a last element.
pub last_cases {ℓ} :
    {A : Type ℓ} (xs : List A) → (xs ≡ []) ⊎ ((x : A) × (ys : List A) × (xs ≡ ys ++ x ∷ []))
last_cases [] = inl refl
last_cases (x ∷ xs) = elim (last_cases xs) [
  | inl e ↦ inr (x, [], ap (λ zs. x ∷ zs) e)
  | inr (y, ys, e) ↦ inr (y, x ∷ ys, ap (λ zs. x ∷ zs) e)
]

abbrev pub id_of : Task → ℕ
id_of task = task.0.id

abbrev pub ids : List Task → List ℕ
ids tasks = map id_of tasks

-- The ids with a given task running.
abbrev pub ids_with : Option Task → List ℕ → List ℕ
ids_with none waiting = waiting
ids_with (some task) waiting = id_of task ∷ waiting

-- The ids of all processes: the one that runs, and those that wait.
abbrev pub all_ids : Kernel → List ℕ
all_ids k = ids_with k.task (ids k.scheduler.tasks)

select_next_task-none :
    (k : Kernel) (fresh : Task)
    → k.scheduler.tasks ≡ []
    → (select_next_task k fresh).0 ≡ (get_idle_task (replace_curr_task k none) fresh).0
unfolding select_next_task pick_next pop
select_next_task-none k fresh e = rw (ap pop e, select_next_task)

-- The kernel after `x` was taken from the queue, which keeps `xs`.
abbrev pub taken : Kernel → List Task → Task → Kernel
taken k xs x =
    replace_curr_task (record k { scheduler = record k.scheduler { tasks = xs } }) (some x)

pub select_next_task-some :
    (k : Kernel) (fresh : Task) (xs : List Task) (x : Task)
    → k.scheduler.tasks ≡ xs ++ x ∷ []
    → select_next_task k fresh ≡ (taken k xs x, x.1)
unfolding select_next_task pick_next
select_next_task-some k fresh xs x e = rw (ap pop e ∙ pop-append xs x, select_next_task)

ids_with_perm :
    (o : Option Task) {xs ys : List ℕ} → Perm xs ys → Perm (ids_with o xs) (ids_with o ys)
ids_with_perm none p = p
ids_with_perm (some task) p = Perm.cons (id_of task) p

taken-ids :
    (o : Option Task) (k : Kernel) (xs : List Task) (x : Task)
    → k.task ≡ o
    → all_ids (taken k xs x) ≡ (id_of x ∷ ids_with o (ids xs))
unfolding replace_curr_task reinsert_task
taken-ids none k xs x e = simp e
taken-ids (some t) k xs x e = simp e

ids-append : (xs : List Task) (x : Task) → Perm (id_of x ∷ ids xs) (ids (xs ++ x ∷ []))
ids-append xs x =
    rw (map-append id_of xs (x ∷ [])) (Perm.symm (perm_append_singleton (id_of x) (ids xs)))

idle-ids : (k : Kernel) (fresh : Task) → all_ids (get_idle_task k fresh).0 ≡ all_ids k
unfolding get_idle_task
idle-ids k fresh = ground arith

moved_in :
    (o : Option Task) (xs : List Task) (x : Task)
    → Perm (id_of x ∷ ids_with o (ids xs)) (ids_with o (ids (xs ++ x ∷ [])))
moved_in none xs x = ids-append xs x
moved_in (some t) xs x =
    Perm.trans (Perm.swap (id_of t) (id_of x) (ids xs)) (Perm.cons (id_of t) (ids-append xs x))

replaced-ids :
    (o : Option Task) (k : Kernel)
    → k.task ≡ o
    → k.scheduler.tasks ≡ []
    → all_ids (replace_curr_task k none) ≡ ids_with o []
unfolding replace_curr_task reinsert_task
replaced-ids none k t e = ground (arith, ap ids e)
replaced-ids (some x) k t e = ground (arith, ap ids e)

-- `select_next_task` neither loses a process nor runs one twice: the ids of the running process
-- and of those that wait are the same ones afterwards.
pub select_next_task-perm :
    (k : Kernel) (fresh : Task) → Perm (all_ids (select_next_task k fresh).0) (all_ids k)
select_next_task-perm k fresh = elim (last_cases k.scheduler.tasks) [
  | inl e ↦
      let same = select_next_task-none k fresh e in
      let whole : all_ids (select_next_task k fresh).0 ≡ all_ids k =
        ap all_ids same
        ∙ idle-ids (replace_curr_task k none) fresh
        ∙ replaced-ids k.task k refl e
        ∙ ap (λ tasks. ids_with k.task (ids tasks)) (sym e) in
      rw whole (Perm.refl (all_ids k))
  | inr (x, xs, e) ↦
      let whole : all_ids (select_next_task k fresh).0 ≡ (id_of x ∷ ids_with k.task (ids xs)) =
        ap (λ p. all_ids p.0) (select_next_task-some k fresh xs x e)
        ∙ taken-ids k.task k xs x refl in
      rw whole (
        Perm.trans (moved_in k.task xs x) (
          subst (λ tasks. Perm (ids_with k.task (ids (xs ++ x ∷ []))) (ids_with k.task (ids tasks)))
            (sym e) (Perm.refl _)))
]

-- Every process has an id of its own, none above the last one given.
pub record IsNumbered (k : Kernel) : Type 0 where
  pub distinct : Nodup (all_ids k)
  pub given : (i : ℕ) → Mem i (all_ids k) → i ≤ k.scheduler.task_id

select_next_task-task_id :
    (k : Kernel) (fresh : Task)
    → (select_next_task k fresh).0.scheduler.task_id ≡ k.scheduler.task_id
unfolding select_next_task pick_next replace_curr_task reinsert_task get_idle_task
select_next_task-task_id k fresh = ground arith

-- Where every id is the process's own and given, choosing the next task keeps that so.
pub select_next_task-IsNumbered :
    (k : Kernel) (fresh : Task) → IsNumbered k → IsNumbered (select_next_task k fresh).0
select_next_task-IsNumbered k fresh n = record {
  distinct = Perm.nodup (Perm.symm (select_next_task-perm k fresh)) n.distinct;
  given = λ i m.
      rw (select_next_task-task_id k fresh)
        (n.given i ((Perm.mem_iff (select_next_task-perm k fresh)).0 m));
}

-- The kernel with a process started.
abbrev pub started : Kernel → ProcessState → Kernel
started k p = record k { scheduler = (start_process k.scheduler p).0 }

started-perm :
    (k : Kernel) (p : ProcessState)
    → k.scheduler.task_id + 1 < 2 ^ 64
    → Perm ((k.scheduler.task_id + 1) ∷ all_ids k) (all_ids (started k p))
unfolding start_process
started-perm k p small =
    let id : (k.scheduler.task_id + 1) % 2 ^ 64 ≡ k.scheduler.task_id + 1 = omega arith in
    subst (λ n. Perm (n ∷ all_ids k) (all_ids (started k p))) id
      (moved_in k.task k.scheduler.tasks (process_new _ runnable, p))

started-task_id :
    (k : Kernel) (p : ProcessState)
    → k.scheduler.task_id + 1 < 2 ^ 64
    → (started k p).scheduler.task_id ≡ k.scheduler.task_id + 1
unfolding start_process
started-task_id k p small = omega arith

-- Where every id is the process's own and given, starting a process, short of the wrap of the
-- counter, adds its id to those of the others and keeps that so.
pub start_process-IsNumbered :
    (k : Kernel) (p : ProcessState)
    → IsNumbered k
    → k.scheduler.task_id + 1 < 2 ^ 64
    → IsNumbered (started k p)
      × Perm (all_ids (started k p)) ((k.scheduler.task_id + 1) ∷ all_ids k)
start_process-IsNumbered k p n small =
    let perm = started-perm k p small in
    let new = λ (m : Mem (k.scheduler.task_id + 1) (all_ids k)).
      absurd (omega (arith, n.given (k.scheduler.task_id + 1) m)) in
    (
      record {
        distinct = Perm.nodup perm (Nodup-cons.1 (new, n.distinct));
        given = λ i m. rw (started-task_id k p small) (
            Or.elim le_prop (mem-cons.0 ((Perm.mem_iff perm).1 m)) (λ e. omega arith)
              (λ old. omega (arith, n.given i old)));
      },
      Perm.symm perm,
    )

-- The first two processes that are started.
pub start_process-twice :
    (s : Scheduler) (first second : ProcessState)
    → s ≡ scheduler_new
    → (start_process (start_process s first).0 second).0 ≡ record {
      tasks = (process_new 1 runnable, first) ∷ (process_new 2 runnable, second) ∷ [];
      task_id = 2;
    }
unfolding start_process
start_process-twice s first second new =
    ap (λ s'. (start_process (start_process s' first).0 second).0) new
