-- ===== src/Scheduler/Turn/Void.antt =====
-- What becomes of the stack that the scheduler's first interrupt finds, that of `kernel_main`:
-- `current_task_ptr` of src/scheduler.rs has its stack pointer saved in the void task.
use leaf_os.Common.{
  ℕ, ◌≡◌, refl, ap, ◌∙◌, Bool-cases, inl, inr, true, false, subst, Option, none, some, List, [],
  ◌∷◌, Option-cases, arith,
}
use leaf_os.Scheduler.{
  Task, ProcessState, Kernel, set_rsp, save_rsp, current, idle, replace_curr_task, select_next_task,
  get_idle_task, current_task_ptr, turn,
}
use leaf_os.Scheduler.Turn.{IsReady, turns}

abbrev with_void : Kernel → ProcessState → Kernel
with_void k v = record k { void_task = some v }

get_idle_task-with_void :
    (k : Kernel) (v : ProcessState) (fresh : Task)
    → get_idle_task (with_void k v) fresh
      ≡ (with_void (get_idle_task k fresh).0 v, (get_idle_task k fresh).1)
unfolding get_idle_task
get_idle_task-with_void k v fresh = elim (Option-cases k.idle_task) [
  | inl e ↦ ground arith
  | inr (t, e) ↦ ground arith
]

select_next_task-with_void :
    (k : Kernel) (v : ProcessState) (fresh : Task)
    → select_next_task (with_void k v) fresh
      ≡ (with_void (select_next_task k fresh).0 v, (select_next_task k fresh).1)
unfolding select_next_task replace_curr_task get_idle_task
select_next_task-with_void k v fresh = ground arith

-- Two turns that differ in the void task alone differ in the void task alone afterwards.
record Agree (a b : Option (Kernel × ProcessState)) : Type 0 where
  out : Kernel
  v : ProcessState
  v' : ProcessState
  state : ProcessState
  first : a ≡ some (with_void out v, state)
  second : b ≡ some (with_void out v', state)

Agree-saved :
    (fresh : Task) (saved : Kernel) (v v' : ProcessState) {a b : Option (Kernel × ProcessState)}
    → a ≡ some (select_next_task (with_void saved v) fresh)
    → b ≡ some (select_next_task (with_void saved v') fresh)
    → Agree a b
Agree-saved fresh saved v v' e e' = record {
  out = (select_next_task saved fresh).0;
  v = v;
  v' = v';
  state = (select_next_task saved fresh).1;
  first = e ∙ ap some (select_next_task-with_void saved v fresh);
  second = e' ∙ ap some (select_next_task-with_void saved v' fresh);
}

turn-Agree :
    (fresh : Task) (k : Kernel) (v v' : ProcessState) (rsp : ℕ)
    → Agree (turn fresh (with_void k v) rsp) (turn fresh (with_void k v') rsp)
unfolding turn current_task_ptr save_rsp
turn-Agree fresh k v v' rsp = elim (Option-cases k.task) [
  | inr (task, e) ↦ Agree-saved fresh (save_rsp k current rsp) v v' (ground arith) (ground arith)
  | inl e ↦ elim (Bool-cases k.initialized) [
    | inl past ↦
        Agree-saved fresh (save_rsp (get_idle_task k fresh).0 idle rsp) v v'
          (ground (arith, get_idle_task-with_void k v fresh))
          (ground (arith, get_idle_task-with_void k v' fresh))
    | inr first ↦
        Agree-saved fresh (record k { initialized = true }) (set_rsp v rsp) (set_rsp v' rsp)
          (ground arith) (ground arith)
  ]
]

-- The first turn with no task differs by the stack pointer in the void task alone.
turn-first :
    (fresh : Task) (k : Kernel) (v : ProcessState) (rsp rsp' : ℕ)
    → k.task ≡ none
    → k.initialized ≡ false
    → Agree (turn fresh (with_void k v) rsp) (turn fresh (with_void k v) rsp')
unfolding turn current_task_ptr save_rsp
turn-first fresh k v rsp rsp' e first =
    Agree-saved fresh (record k { initialized = true }) (set_rsp v rsp) (set_rsp v rsp')
      (ground arith) (ground arith)

turns-Agree :
    (fresh : Task) (k : Kernel) (v v' : ProcessState) (rsp : ℕ) (rsps : List ℕ)
    → Agree (turns fresh (with_void k v) rsp rsps) (turns fresh (with_void k v') rsp rsps)
unfolding turns
turns-Agree fresh k v v' rsp [] = turn-Agree fresh k v v' rsp
turns-Agree fresh k v v' rsp (next ∷ rsps) =
    let a = turn-Agree fresh k v v' rsp in
    rw (a.first, turns) (rw (a.second, turns) (turns-Agree fresh a.out a.v a.v' next rsps))

turns-first :
    (fresh : Task) (k : Kernel) (v : ProcessState) (rsp rsp' : ℕ) (rsps : List ℕ)
    → k.task ≡ none
    → k.initialized ≡ false
    → Agree (turns fresh (with_void k v) rsp rsps) (turns fresh (with_void k v) rsp' rsps)
unfolding turns
turns-first fresh k v rsp rsp' [] e first = turn-first fresh k v rsp rsp' e first
turns-first fresh k v rsp rsp' (next ∷ rsps) e first =
    let a = turn-first fresh k v rsp rsp' e first in
    rw (a.first, turns) (rw (a.second, turns) (turns-Agree fresh a.out a.v a.v' next rsps))

-- The stack that the scheduler's first interrupt finds is never resumed, once `VOID_TASK` is set:
-- whatever its stack pointer is, this turn and every later one, wherever those interrupt the
-- kernel, resume the same states, and leave kernels that agree in all but the void task.
pub turns-unresumed :
    (fresh : Task) (k : Kernel) (rsp rsp' : ℕ) (rsps : List ℕ)
    → IsReady k
    → k.task ≡ none
    → k.initialized ≡ false
    → (out : Kernel) × (out' : Kernel) × (state : ProcessState) × (turns fresh k rsp rsps
        ≡ some (out, state))
      × (turns fresh k rsp' rsps ≡ some (out', state))
      × (out' ≡ record out { void_task = out'.void_task })
turns-unresumed fresh k rsp rsp' rsps ready e first =
    let is_with : with_void k ready.state ≡ k = ground (arith, ready.made) in
    let a = turns-first fresh k ready.state rsp rsp' rsps e first in
    (
      with_void a.out a.v,
      with_void a.out a.v',
      a.state,
      subst (λ k'. turns fresh k' rsp rsps ≡ some (with_void a.out a.v, a.state)) is_with a.first,
      subst (λ k'. turns fresh k' rsp' rsps ≡ some (with_void a.out a.v', a.state)) is_with
          a.second,
      refl,
    )
