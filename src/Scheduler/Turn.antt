-- ===== src/Scheduler/Turn.antt =====
-- What a timer interrupt does with the tasks of src/scheduler.rs: who runs next, and on which stack.
pub mod Alone
pub mod Void
use leaf_os.Common.{
  length-append, Bool-cases, ℕ, ◌≡◌, refl, sym, ap, ◌∙◌, true, Option, none, some, List, [], ◌∷◌,
  ◌++◌, length, append_assoc, Option-cases, inl, inr, arith,
}
use leaf_os.Scheduler.{
  map_option, Task, ProcessState, Kernel, current, idle, void, set_rsp, set_task_rsp, save_rsp,
  reinsert_task, replace_curr_task, select_next_task, get_idle_task, current_task_ptr, turn,
}
use leaf_os.Scheduler.Queue.{last_cases, taken, select_next_task-some}

-- `init` of src/scheduler.rs has made the void task.
pub record IsReady (k : Kernel) : Type 0 where
  pub state : ProcessState
  pub made : k.void_task ≡ some state

-- The tasks behind the one that was interrupted, if any, which goes to the back of the queue
-- with its stack pointer saved.
abbrev pub requeued : Option Task → ℕ → List Task → List Task
requeued none rsp xs = xs
requeued (some task) rsp xs = set_task_rsp task rsp ∷ xs

-- A turn with a task at the head of the queue runs it, on the stack pointer saved in it.
pub record Runs (k : Kernel) (rsp : ℕ) (xs : List Task) (x : Task)
    (r : Option (Kernel × ProcessState)) : Type 0 where
  pub out : Kernel
  pub returns : r ≡ some (out, x.1)
  pub running : out.task ≡ some x
  pub queue : out.scheduler.tasks ≡ requeued k.task rsp xs
  pub same_id : out.scheduler.task_id ≡ k.scheduler.task_id
  pub ready : IsReady out

-- The kernel with the interrupted stack pointer saved where it belongs.
record Saved (fresh : Task) (k : Kernel) (rsp : ℕ) : Type 0 where
  at : Kernel
  returns : turn fresh k rsp ≡ some (select_next_task at fresh)
  same_scheduler : at.scheduler ≡ k.scheduler
  saved : at.task ≡ map_option (λ t. set_task_rsp t rsp) k.task
  ready : IsReady at

turn-Saved : (fresh : Task) (k : Kernel) (rsp : ℕ) → IsReady k → Saved fresh k rsp
unfolding turn current_task_ptr save_rsp get_idle_task
turn-Saved fresh k rsp ready = elim (Option-cases k.task) [
  | inr (task, e) ↦ record {
    at = save_rsp k current rsp;
    returns = ground arith;
    same_scheduler = refl;
    saved = refl;
    ready = record { state = ready.state; made = ready.made };
  }
  | inl e ↦ elim (Bool-cases k.initialized) [
    | inl past ↦ record {
      at = save_rsp (get_idle_task k fresh).0 idle rsp;
      returns = ground arith;
      same_scheduler = ground arith;
      saved = ground arith;
      ready = record { state = ready.state; made = ground (arith, ready.made) };
    }
    | inr first ↦ record {
      at = save_rsp (record k { initialized = true }) void rsp;
      returns = ground (arith, ready.made);
      same_scheduler = refl;
      saved = ground arith;
      ready = record { state = set_rsp ready.state rsp; made = ground (arith, ready.made) };
    }
  ]
]

taken-queue :
    (o : Option Task) (k : Kernel) (rsp : ℕ) (xs : List Task) (x : Task)
    → k.task ≡ map_option (λ t. set_task_rsp t rsp) o
    → (taken k xs x).scheduler.tasks ≡ requeued o rsp xs
unfolding replace_curr_task reinsert_task
taken-queue none k rsp xs x e = ground arith
taken-queue (some task) k rsp xs x e = ground arith

taken-fields :
    (k : Kernel) (xs : List Task) (x : Task)
    → ((taken k xs x).task ≡ some x)
      × ((taken k xs x).scheduler.task_id ≡ k.scheduler.task_id)
      × ((taken k xs x).void_task ≡ k.void_task)
unfolding replace_curr_task reinsert_task
taken-fields k xs x = (ground arith, ground arith, ground arith)

-- With a task at the head of the queue and `VOID_TASK` set, a turn runs it on the stack pointer
-- that was saved for it; the interrupted task goes to the back of the queue with its own stack
-- pointer saved.
pub turn-Runs :
    (fresh : Task) (k : Kernel) (rsp : ℕ) (xs : List Task) (x : Task)
    → IsReady k
    → k.scheduler.tasks ≡ xs ++ x ∷ []
    → Runs k rsp xs x (turn fresh k rsp)
turn-Runs fresh k rsp xs x ready e =
    let s = turn-Saved fresh k rsp ready in
    let fields = taken-fields s.at xs x in
    record {
      out = taken s.at xs x;
      returns =
          s.returns
          ∙ ap some
              (select_next_task-some s.at fresh xs x (ap (λ q. q.tasks) s.same_scheduler ∙ e));
      running = fields.0;
      queue = taken-queue k.task s.at rsp xs x s.saved;
      same_id = fields.1 ∙ ap (λ q. q.task_id) s.same_scheduler;
      ready = record { state = s.ready.state; made = fields.2 ∙ s.ready.made };
    }

-- Turns in a row, one for each stack pointer: the kernel and the state that runs after the last.
pub turns : Task → Kernel → ℕ → List ℕ → Option (Kernel × ProcessState)
turns fresh k rsp [] = turn fresh k rsp
turns fresh k rsp (next ∷ rsps) = elim (turn fresh k rsp) [
  | none ↦ none
  | some (k', p) ↦ turns fresh k' next rsps
]

requeued-append :
    (o : Option Task) (rsp : ℕ) (xs : List Task) (t : Task) (ys : List Task)
    → (zs : List Task) × (requeued o rsp (xs ++ t ∷ ys) ≡ zs ++ t ∷ ys)
requeued-append none rsp xs t ys = (xs, refl)
requeued-append (some task) rsp xs t ys = (set_task_rsp task rsp ∷ xs, refl)

-- Every waiting task is resumed in its turn, once `VOID_TASK` is set: with `n` tasks before it in
-- the queue, the turn after `n` others runs it, on the stack pointer that was saved for it,
-- wherever these turns interrupt the other tasks.
pub turns-waiting :
    (fresh : Task) (k : Kernel) (rsp : ℕ) (rsps : List ℕ) (xs : List Task) (t : Task)
    (ys : List Task)
    → IsReady k
    → k.scheduler.tasks ≡ xs ++ t ∷ ys
    → length ys ≡ length rsps
    → (k' : Kernel) × (turns fresh k rsp rsps ≡ some (k', t.1)) × (k'.task ≡ some t) × IsReady k'
unfolding turns
turns-waiting fresh k rsp [] xs t [] ready e h =
    let r = turn-Runs fresh k rsp xs t ready e in (r.out, r.returns, r.running, r.ready)
turns-waiting fresh k rsp [] xs t (y ∷ ys) ready e h = absurd (omega arith)
turns-waiting fresh k rsp (next ∷ rsps) xs t ys ready e h = elim (last_cases ys) [
  | inl nothing ↦ absurd (omega (arith, ap (length {0} {A = Task}) nothing))
  | inr (y, zs, split) ↦
      let behind : k.scheduler.tasks ≡ (xs ++ t ∷ zs) ++ y ∷ [] =
        e ∙ ap (λ l. xs ++ t ∷ l) split ∙ sym (append_assoc xs (t ∷ zs) (y ∷ [])) in
      let r = turn-Runs fresh k rsp (xs ++ t ∷ zs) y ready behind in
      let (ws, moved) = requeued-append k.task rsp xs t zs in
      let shorter : length zs ≡ length rsps =
        omega (arith, ap (length {0} {A = Task}) split, length-append zs (y ∷ [])) in
      rw (r.returns, turns)
        (turns-waiting fresh r.out next rsps ws t zs r.ready (r.queue ∙ moved) shorter)
]

-- A task that is interrupted while others wait is resumed, once each of them has had its turn, on
-- the very stack pointer that it was interrupted with, if `VOID_TASK` is set.
pub turns-interrupted :
    (fresh : Task) (k : Kernel) (task : Task) (rsp next : ℕ) (rsps : List ℕ) (xs : List Task)
    (y : Task)
    → IsReady k
    → k.task ≡ some task
    → k.scheduler.tasks ≡ xs ++ y ∷ []
    → length xs ≡ length rsps
    → (k' : Kernel) × (turns fresh k rsp (next ∷ rsps) ≡ some (k', set_rsp task.1 rsp))
      × (k'.task ≡ some (set_task_rsp task rsp))
      × IsReady k'
unfolding turns
turns-interrupted fresh k task rsp next rsps xs y ready t e h =
    let r = turn-Runs fresh k rsp xs y ready e in
    let back : r.out.scheduler.tasks ≡ [] ++ set_task_rsp task rsp ∷ xs =
      r.queue ∙ ap (λ o. requeued o rsp xs) t in
    rw (r.returns, turns)
      (turns-waiting fresh r.out next rsps [] (set_task_rsp task rsp) xs r.ready back h)
