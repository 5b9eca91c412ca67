-- ===== src/Startup.antt =====
-- The start of the kernel: `kernel_main` of src/main.rs, `init` of src/lib.rs, `setup` of
-- src/memory.rs, and `init` and `start_proc` of src/scheduler.rs. `none` is a panic.
pub mod Contexts
pub mod Interrupted
pub mod Points
pub mod Ready
pub mod Steps
pub mod Tasks
mod Tests
use leaf_os.Common.{
  ℕ, ◌+◌, Bool, true, Option, none, some, List, ◌>>=◌, bytes, Result, ok, err, if◌then◌else◌,
}
use leaf_os.Shell
use leaf_os.Pit
use leaf_os.Gdt.{DescriptorTables, TaskStateSegment, Loaded}
use leaf_os.Gdt
use leaf_os.Events.{init_kb_handler}
use leaf_os.FrameAllocator
use leaf_os.FrameAllocator.{
  Region, Paging, MapTo, BootInfoFrameAllocator, allocator_init, init_heap,
}
use leaf_os.Scheduler.{Kernel, Memory, Stack, process_state_new, start_process}
use leaf_os.Interrupts.{
  Hardware, System, Arrival, Round, take_interrupts, println, init_apic, start_timer_one_shot,
  scheduler_timer_delay,
}
use leaf_os.Interrupts.Table.{init_idt}

-- What the kernel is started with: the crates, the boot information, the interrupts that come in
-- between `init` and `init_apic`, the rounds of the wait in there, and the addresses of functions, statics and boxes.
pub record Boot : Type 1 where
  pub hardware : Hardware
  pub tables : DescriptorTables
  pub paging : Paging
  pub map_to : MapTo paging
  pub cr3 : ℕ
  pub memory_map : List Region
  pub physical_memory_offset : ℕ
  pub xapic_base : ℕ
  pub early : List (Arrival hardware)
  pub rounds : List (Round hardware)
  pub double_fault_stack : ℕ
  pub kernel_stack : ℕ
  pub idle : ℕ
  pub test_fn : ℕ
  pub test_fn_hello : ℕ
  pub void_kernel_stack : ℕ
  pub void_user_stack : ℕ
  pub kernel_box : ℕ → ℕ
  pub user_box : ℕ → ℕ

module _ (b : Boot) where
  open b use {hardware, tables, paging}

  pub record World : Type 0 where
    pub system : System hardware
    pub kernel : Kernel
    pub memory : Memory
    pub loaded : Loaded tables
    pub heap : Option (paging.Mapper × BootInfoFrameAllocator)

  abbrev pub on_system : World → Option (System hardware) → Option World
  on_system w o = o >>= λ s. some (record w { system = s })

  abbrev pub print_line : World → List ℕ → Option World
  print_line w text = println w.system.console text >>= λ c.
      some (record w { system = record w.system { console = c } })

  pub init : World → World
  init w =
      let w₁ = record w {
        loaded = Gdt.init tables b.double_fault_stack b.kernel_stack w.loaded.tss;
      } in
      let w₂ = record w₁ { system = record w₁.system { idt = init_idt w₁.system.idt } } in
      let w₃ = record w₂ {
        system = record w₂.system { pics = hardware.initialize w₂.system.pics };
      } in
      record w₃ {
        system = record w₃.system {
          machine = record w₃.system.machine { interrupts_enabled = true };
        };
      }

  -- `expect` panics if the heap cannot be mapped.
  pub setup : World → Option World
  setup w = do
    phys_mem_offset ← paging.virt_addr_new b.physical_memory_offset
    mapper ← FrameAllocator.init paging b.cr3 phys_mem_offset
    elim (init_heap paging b.map_to mapper (allocator_init b.memory_map)) [
      | err e ↦ none
      | ok (mapper', frame_allocator, start, size) ↦
          some (record w { heap = some (mapper', frame_allocator) })
    ]

  pub scheduler_init : World → World
  scheduler_init w =
      let (state, memory) =
        process_state_new (record { addr = b.void_kernel_stack; size = 256 })
          (record { addr = b.void_user_stack; size = 0 }) true b.idle w.memory in
      record w { kernel = record w.kernel { void_task = some state }; memory = memory }

  -- With the number of the boxes that the process gets.
  pub start_proc : ℕ → ℕ → Bool → World → World
  start_proc n target kernel_owned w =
      let (state, memory) =
        process_state_new (record { addr = b.kernel_box n; size = 4096 })
          (record { addr = b.user_box n; size = 4096 }) kernel_owned target w.memory in
      record w {
        kernel = record w.kernel { scheduler = (start_process w.kernel.scheduler state).0 };
        memory = memory;
      }

  -- `kernel_main` up to the start of the scheduler's timer. The interrupts that come in between
  -- `init`, which enables them, and `init_apic` are taken before the latter.
  pub until_timer : World → Option World
  until_timer w = do
    w₁ ← print_line w (bytes "Initializing...")
    w₂ ← print_line (init w₁) (bytes "Initialization succeeded!")
    w₃ ← setup w₂
    let w₄ = scheduler_init w₃
    w₅ ← on_system w₄ (take_interrupts hardware b.early w₄.system)
    w₆ ← on_system w₅ (init_apic hardware b.physical_memory_offset b.xapic_base b.rounds w₅.system)
    (_, machine) ← Pit.init hardware.ports w₆.system.machine
    let w₇ = record w₆ { system = record w₆.system { machine = machine } }
    on_system w₇ (start_timer_one_shot hardware scheduler_timer_delay w₇.system)

  -- Up to the start of the first process, of the second one, and to the last line printed.
  pub until_first : World → Option World
  until_first w = do w' ← until_timer w; some (start_proc 0 b.test_fn true w')

  pub until_second : World → Option World
  until_second w = do w' ← until_first w; some (start_proc 1 b.test_fn_hello true w')

  pub until_announced : World → Option World
  until_announced w = do w' ← until_second w; print_line w' (bytes "Startup succeeded!")

  -- Up to the shell's prompt.
  pub until_shell : World → Option World
  until_shell w = do
    w' ← until_announced w
    c ← Shell.init w'.system.console
    some (record w' { system = record w'.system { console = c } })

  -- Up to `hlt_loop`.
  pub kernel_main : World → Option World
  kernel_main w = do
    w' ← until_shell w
    some (record w' {
      system = record w'.system {
        event_handlers = init_kb_handler hardware.keyboard w'.system.event_handlers;
      };
    })
