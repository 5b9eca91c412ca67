-- ===== src/Scheduler.antt =====
-- The scheduler of src/scheduler.rs with the processes of src/process.rs: the round-robin queue,
-- the globals `TASK`, `INIT`, `IDLE_TASK` and `VOID_TASK`, and what one timer interrupt of
-- src/interrupts.rs (`apic_timer_handler`) does with them.
pub mod Context
pub mod FirstFrame
pub mod Frame
pub mod Queue
pub mod Switch
pub mod Turn
mod Tests
use leaf_os.Common.{
  ℕ, zero, suc, ◌+◌, ◌-◌, ◌*◌, ◌%◌, ◌^◌, bit_or, Bool, true, false, Option, none, some, List, [],
  ◌∷◌, ◌++◌, ◌==◌, if◌then◌else◌,
}

pub data State : Type 0 where
  waiting runnable running shutting_down : State

pub record Process : Type 0 where
  pub id : ℕ
  pub state : State

abbrev pub process_new : ℕ → State → Process
process_new id state = record { id = id; state = state }

-- A boxed stack: its address and its size in bytes.
pub record Stack : Type 0 where
  pub addr : ℕ
  pub size : ℕ

pub record ProcessState : Type 0 where
  pub kernel_rsp : ℕ
  pub kernel_top_rsp : ℕ
  pub kernel_stack : Stack
  pub user_stack : Stack

-- The words of memory by address.
abbrev pub Memory : Type 0
Memory = ℕ → ℕ

abbrev pub store : Memory → ℕ → ℕ → Memory
store m a v b = if b == a then v else m b

abbrev pub word_size : ℕ
word_size = 8

-- The address `kernel_stack.offset(-n)`.
abbrev pub below_top : ℕ → ℕ → ℕ
below_top kernel_addr n = kernel_addr - word_size * n

abbrev pub kernel_code_segment_idx : ℕ
kernel_code_segment_idx = 1

abbrev pub user_code_segment_idx : ℕ
user_code_segment_idx = 2

abbrev pub default_flags : ℕ
default_flags = bit_or (bit_or 0 (2 ^ 1)) (2 ^ 9)

abbrev pub interrupt_frame_offset : ℕ
interrupt_frame_offset = 4

abbrev pub code_selector : Bool → ℕ
code_selector kernel =
    bit_or (if kernel then kernel_code_segment_idx * 8 else user_code_segment_idx * 8)
      (if kernel then 0 else 3)

-- `left` zeros for the registers from slot `n` of the interrupt frame's side on.
pub zero_registers : ℕ → ℕ → ℕ → Memory → Memory
zero_registers top zero n m = m
zero_registers top (suc left) n m =
    zero_registers top left (n + 1) (store m (below_top top (interrupt_frame_offset + n)) 0)

-- `ProcessState::new` on two boxes: the state, and the memory with the first frame in it.
pub process_state_new : Stack → Stack → Bool → ℕ → Memory → ProcessState × Memory
process_state_new kernel_stack user_stack kernel start_fn m =
    let kernel_addr = kernel_stack.addr + kernel_stack.size in
    let m₀ = store m (below_top kernel_addr 0) (if kernel then kernel_addr else user_stack.addr) in
    let m₁ = store m₀ (below_top kernel_addr 1) default_flags in
    let m₂ = store m₁ (below_top kernel_addr 2) (code_selector kernel) in
    let m₃ = store m₂ (below_top kernel_addr 3) start_fn in
    let m₄ = zero_registers kernel_addr 14 0 m₃ in
    let m₅ = store m₄ (below_top kernel_addr (interrupt_frame_offset + 14)) kernel_addr in
    (
      record {
        kernel_rsp = kernel_addr - word_size * (14 + interrupt_frame_offset);
        kernel_top_rsp = kernel_addr + kernel_stack.size;
        kernel_stack = kernel_stack;
        user_stack = user_stack;
      },
      m₅,
    )

abbrev pub Task : Type 0
Task = Process × ProcessState

-- `RoundRobinScheduler`.
pub record Scheduler : Type 0 where
  pub tasks : List Task
  pub task_id : ℕ

abbrev pub scheduler_new : Scheduler
scheduler_new = record { tasks = []; task_id = 0 }

-- `Vec::pop`: the last element and the others.
pub pop {ℓ} : {A : Type ℓ} → List A → Option (A × List A)
pop [] = none
pop (x ∷ xs) = elim (pop xs) [ none ↦ some (x, []) | some (y, ys) ↦ some (y, x ∷ ys) ]

pub pick_next : Scheduler → Option (Task × Scheduler)
pick_next s = elim (pop s.tasks) [
  | none ↦ none
  | some (task, tasks) ↦ some (task, record s { tasks = tasks })
]

pub reinsert_task : Scheduler → Task → Scheduler
reinsert_task s task = record s { tasks = task ∷ s.tasks }

-- `start_process`, with the state that `ProcessState::new` makes; a `u64` addition wraps.
pub start_process : Scheduler → ProcessState → Scheduler × ℕ
start_process s state =
    let id = (s.task_id + 1) % 2 ^ 64 in
    (record { tasks = s.tasks ++ (process_new id runnable, state) ∷ []; task_id = id }, id)

-- The scheduler and the other globals. `idle_task` is made at its first use.
pub record Kernel : Type 0 where
  pub scheduler : Scheduler
  pub task : Option Task
  pub initialized : Bool
  pub idle_task : Option Task
  pub void_task : Option ProcessState

-- Where a `*mut ProcessState` points.
pub data Pointer : Type 0 where
  current idle void : Pointer

abbrev pub set_rsp : ProcessState → ℕ → ProcessState
set_rsp p rsp = record p { kernel_rsp = rsp }

abbrev pub set_task_rsp : Task → ℕ → Task
set_task_rsp (process, p) rsp = (process, set_rsp p rsp)

abbrev pub map_option {ℓ} : {A : Type ℓ} → (A → A) → Option A → Option A
map_option f none = none
map_option f (some a) = some (f a)

-- `mov [rax], rsp` for a pointer in `rax`: `kernel_rsp` is the first field.
pub save_rsp : Kernel → Pointer → ℕ → Kernel
save_rsp k current rsp = record k { task = map_option (λ t. set_task_rsp t rsp) k.task }
save_rsp k idle rsp = record k { idle_task = map_option (λ t. set_task_rsp t rsp) k.idle_task }
save_rsp k void rsp = record k { void_task = map_option (λ p. set_rsp p rsp) k.void_task }

pub replace_curr_task : Kernel → Option Task → Kernel
replace_curr_task k task = elim k.task [
  | none ↦ record k { task = task }
  | some old_task ↦ record k { scheduler = reinsert_task k.scheduler old_task; task = task }
]

-- `IDLE_TASK.call_once`, with the task that the closure would make.
pub get_idle_task : Kernel → Task → Kernel × Task
get_idle_task k fresh = elim k.idle_task [
  | none ↦ (record k { idle_task = some fresh }, fresh)
  | some task ↦ (k, task)
]

-- Returns the state that the pointer is to, too.
pub select_next_task : Kernel → Task → Kernel × ProcessState
select_next_task k fresh = elim (pick_next k.scheduler) [
  | none ↦ let (k', task) = get_idle_task (replace_curr_task k none) fresh in (k', task.1)
  | some (task, scheduler) ↦
      (replace_curr_task (record k { scheduler = scheduler }) (some task), task.1)
]

pub current_task_ptr : Kernel → Task → Option (Kernel × Pointer)
current_task_ptr k fresh = elim k.task [
  | some task ↦ some (k, current)
  | none ↦
      if k.initialized
      then some ((get_idle_task k fresh).0, idle)
      else elim k.void_task [ none ↦ none | some p ↦ some (record k { initialized = true }, void) ]
]

-- `apic_timer_handler` between its pushes and its pops: the old stack pointer is saved where
-- `current_task_ptr` says, and the new one and the new kernel stack's top are loaded from where
-- `select_next_task` says. `none` is the panic of `VOID_TASK.as_mut().unwrap()`.
pub turn : Task → Kernel → ℕ → Option (Kernel × ProcessState)
turn fresh k rsp = elim (current_task_ptr k fresh) [
  | none ↦ none
  | some (k', pointer) ↦ some (select_next_task (save_rsp k' pointer rsp) fresh)
]
