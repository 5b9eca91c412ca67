-- ===== src/Scheduler/Tests.antt =====
-- Runs of the scheduler of src/scheduler.rs.
use leaf_os.Common.{inr, ℕ, ◌≡◌, refl, true, false, none, some, [], ◌∷◌, arith}
use mathlib.Core.List.{Perm, Nodup-nil, not-mem-nil}
use leaf_os.Scheduler.{
  process_new, runnable, Stack, ProcessState, Memory, Task, Kernel, process_state_new,
  select_next_task,
}
use leaf_os.Scheduler.Context.{Registers, push_regs, pushed, iretq, resume}
use leaf_os.Scheduler.FirstFrame.{first_registers, resume-process_state_new}
use leaf_os.Scheduler.Queue.{
  all_ids, IsNumbered, started, select_next_task-perm, start_process-IsNumbered,
}
use leaf_os.Common.{fun_ext, ap, inl}
use leaf_os.Scheduler.{pop}
use leaf_os.Scheduler.Context.{Reg, set_reg, reg_index, pop_regs}
use leaf_os.Scheduler.Switch.{Interrupt, TaskContext, interrupted, switches, round_robin}
use leaf_os.Scheduler.Switch.Contexts.{Stores, Undisturbed, Same, switches-round_robin}
use leaf_os.Scheduler.Turn.Void.{turns-unresumed}
use leaf_os.Scheduler.Turn.Alone.{Alone, turns-Alone}
use leaf_os.Scheduler.Turn.{IsReady, turns, turns-waiting}

abbrev stack : Stack
stack = record { addr = 0x10000; size = 4096 }

abbrev state : ℕ → ProcessState
state rsp = record {
  kernel_rsp = rsp;
  kernel_top_rsp = 0;
  kernel_stack = stack;
  user_stack = stack;
}

abbrev task : ℕ → ℕ → Task
task id rsp = (process_new id runnable, state rsp)

-- Process 1 runs; 2 and 3 wait, 3 at the head of the queue.
abbrev kernel : Kernel
kernel = record {
  scheduler = record { tasks = task 2 200 ∷ task 3 300 ∷ []; task_id = 3 };
  task = some (task 1 100);
  initialized = true;
  idle_task = none;
  void_task = some (state 0);
}

-- The scheduler before it has run anything, with nothing to run.
abbrev empty_kernel : Kernel
empty_kernel = record {
  scheduler = record { tasks = []; task_id = 0 };
  task = none;
  initialized = false;
  idle_task = none;
  void_task = some (state 0);
}

kernel-IsReady : IsReady kernel
kernel-IsReady = record { state = state 0; made = refl }

empty_kernel-IsNumbered : IsNumbered empty_kernel
empty_kernel-IsNumbered = record { distinct = Nodup-nil; given = λ i m. absurd (not-mem-nil m) }

turns-waiting_example :
    (k' : Kernel) × (turns (task 0 0) kernel 150 (350 ∷ []) ≡ some (k', state 200))
    × (k'.task ≡ some (task 2 200))
    × IsReady k'
turns-waiting_example =
    turns-waiting (task 0 0) kernel 150 (350 ∷ []) [] (task 2 200) (task 3 300 ∷ []) kernel-IsReady
      refl refl

select_next_task-perm_example :
    Perm (all_ids (select_next_task kernel (task 0 0)).0) (1 ∷ 2 ∷ 3 ∷ [])
select_next_task-perm_example = select_next_task-perm kernel (task 0 0)

start_process-IsNumbered_example :
    IsNumbered (started empty_kernel (state 0))
    × Perm (all_ids (started empty_kernel (state 0))) (1 ∷ [])
start_process-IsNumbered_example =
    start_process-IsNumbered empty_kernel (state 0) empty_kernel-IsNumbered (omega arith)

-- Every register holds 7, and memory holds its addresses.
abbrev sevens : Registers
sevens r = 7

abbrev identity : Memory
identity a = a

resume-process_state_new_example :
    resume
      (process_state_new stack stack false 0x5000 identity).0.kernel_rsp
      (process_state_new stack stack false 0x5000 identity).1
      sevens
    ≡ (
      first_registers 0x11000,
      record { rip = 0x5000; cs = 19; rflags = 0x202; rsp = 0x10000; ss = 0x11008 },
    )
resume-process_state_new_example =
    resume-process_state_new stack stack false 0x5000 identity (omega arith) sevens

-- Process 1 runs alone, before the idle task was made.
abbrev lone_kernel : Kernel
lone_kernel = record kernel { scheduler = record { tasks = []; task_id = 1 } }

lone_kernel-Alone : Alone (task 0 900) lone_kernel (task 1 100) (task 0 900)
lone_kernel-Alone = record {
  running = refl;
  none_waits = refl;
  past = refl;
  has_idle = inr (refl, refl);
}

turns-Alone_example :
    (k' : Kernel) × (turns (task 0 900) lone_kernel 110 (910 ∷ 120 ∷ 920 ∷ [])
      ≡ some (k', state 120))
    × Alone (task 0 900) k' (task 1 120) (task 0 920)
    × ((next : ℕ)
        → (k₁ : Kernel) × (turns (task 0 900) lone_kernel 110 (910 ∷ 120 ∷ 920 ∷ next ∷ [])
            ≡ some (k₁, state 920)))
turns-Alone_example =
    turns-Alone (task 0 900) lone_kernel (task 1 100) (task 0 900) 110 910 ((120, 920) ∷ [])
      lone_kernel-Alone

-- Before the first interrupt.
abbrev first_kernel : Kernel
first_kernel = record kernel { task = none; initialized = false }

turns-unresumed_example :
    (out : Kernel) × (out' : Kernel) × (s : ProcessState) × (turns
        (task 0 900)
        first_kernel
        110
        (120 ∷ 130 ∷ [])
      ≡ some (out, s))
    × (turns (task 0 900) first_kernel 777 (120 ∷ 130 ∷ []) ≡ some (out', s))
    × (out' ≡ record out { void_task = out'.void_task })
turns-unresumed_example =
    turns-unresumed (task 0 900) first_kernel 110 777 (120 ∷ 130 ∷ [])
      (record { state = state 0; made = refl }) refl refl

-- Process 2 waits at 1000, with zeros saved; process 1 is interrupted, and then process 2.
abbrev two_tasks : Kernel
two_tasks = record kernel { scheduler = record { tasks = task 2 1000 ∷ []; task_id = 2 } }

abbrev zeros : Memory
zeros a = 0

abbrev zero_context : TaskContext
zero_context = ((λ r. 0), record { rip = 0; cs = 0; rflags = 0; rsp = 0; ss = 0 })

zeros-Stores : Stores zeros (task 2 1000) zero_context
unfolding resume pop_regs iretq set_reg reg_index
zeros-Stores regs = ap (λ (rs : Registers). (rs, zero_context.1)) (fun_ext (λ q. zero_reg q))
  where
    zero_reg : (q : Reg) → (resume 1000 zeros regs).0 q ≡ 0
    zero_reg Reg.rax = refl
    zero_reg _ = refl

abbrev first_interrupt : Interrupt
first_interrupt = record {
  regs = λ r. 7;
  rsp = 2120;
  memory = zeros;
  later = (push_regs pushed (λ r. 7) 2120 zeros).1;
}

abbrev second_interrupt : Interrupt
second_interrupt = record {
  regs = λ r. 5;
  rsp = 1160;
  memory = first_interrupt.later;
  later = (push_regs pushed (λ r. 5) 1160 first_interrupt.later).1;
}

undisturbed : Undisturbed (1000 ∷ []) zeros (first_interrupt ∷ second_interrupt ∷ [])
unfolding pop
undisturbed = (
  omega arith,
  ((λ a lo hi. refl, inl (omega arith), λ a lo hi. refl), tt),
  λ a lo hi. refl,
  (omega arith, ((λ a lo hi. refl, inr (omega arith), λ a lo hi. refl), tt), λ a lo hi. refl, tt),
)

switches-round_robin_example :
    Same (switches (task 0 900) two_tasks (first_interrupt ∷ second_interrupt ∷ [])) (
      round_robin
        (zero_context ∷ [])
        (interrupted first_interrupt ∷ interrupted second_interrupt ∷ []))
switches-round_robin_example =
    switches-round_robin (task 0 900) two_tasks (task 1 100) zeros (zero_context ∷ [])
      (first_interrupt ∷ second_interrupt ∷ []) (record { state = state 0; made = refl }) refl
      (omega arith) (zeros-Stores, tt) undisturbed
