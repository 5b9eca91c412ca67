-- ===== src/Startup/Tests.antt =====
-- A run of the start of the kernel in src/main.rs.
use leaf_os.Common.{
  inr, ◌⊎◌, ◌-◌, ◌/◌, ◌%◌, ◌≤◌, ◌<◌, inl, if◌then◌else◌, ◌==◌, ◌*◌, ℕ, ◌+◌, ◌≡◌, refl, false, none,
  some, [], ◌∷◌, arith,
}
use leaf_os.Scheduler.{turn, Task, ProcessState, process_new, runnable, scheduler_new}
use leaf_os.Scheduler.Context.{resume}
use leaf_os.Gdt.{DescriptorTables}
use leaf_os.FrameAllocator.Sample.{
  numbers, usable, reserved, map_to, map_to-Grants, pages-Distinct, pages-free, room,
}
use mathlib.Core.List.{Mem}
use leaf_os.Events.{event_handlers_new}
use leaf_os.Pit.{Ports}
use leaf_os.Pit.Counts.{Latches, read_pit_count-latched}
use leaf_os.Interrupts.{Hardware, Arrival}
use leaf_os.Interrupts.Wait.{Clock, IsArrival}
use leaf_os.Interrupts.Measure.{Counting}
use leaf_os.Interrupts.Sample.{keyboard, hardware, console}
use leaf_os.Startup.{Boot, World, kernel_main}
use leaf_os.Startup.Steps.{CanMap, CanStart}
use leaf_os.Startup.Points.{Fresh}
use leaf_os.Startup.Ready.{Ready, kernel_main-Ready}
use leaf_os.Scheduler.Context.{Registers, push_regs, pushed}
use leaf_os.Scheduler.Switch.{Interrupt, TaskContext, interrupted, switches, round_robin}
use leaf_os.Scheduler.Switch.Contexts.{Same}
use leaf_os.Startup.Contexts.{Begins, kernel_main-round_robin}
use leaf_os.Startup.Interrupted.{second_started, until, kernel_main-interrupted}
use leaf_os.Scheduler.{Kernel}
use leaf_os.Scheduler.Turn.{turns}

-- A machine whose timer is its count: a write shifts a byte into it, a read turns it by a byte. Its
-- keyboard has one key held down.
abbrev held_ports : Ports
held_ports = record {
  Device = ℕ;
  write = λ port byte d. if port == 0x40 then d / 256 % 256 + byte * 256 else d;
  read = λ port d. if port == 0x60 then (b'h', d) else (d % 256, d / 256 + d % 256 * 256);
}

abbrev held_hardware : Hardware
held_hardware = record hardware { ports = held_ports }

-- An interrupt, a thousand ticks later.
abbrev arrival : ℕ → Arrival held_hardware
arrival n = record { meanwhile = λ d. d - 1000; vector = n }

-- A table by the number of its entries.
abbrev counted : DescriptorTables
counted = record { Table = ℕ; empty = 1; add_entry = λ d g. (8 * g, g + 1) }

abbrev boot : Boot
boot = record {
  hardware = held_hardware;
  tables = counted;
  paging = numbers;
  map_to = map_to;
  cr3 = 0x1000;
  memory_map = usable ∷ reserved ∷ [];
  physical_memory_offset = 0;
  xapic_base = 0xfee00000;
  early = arrival 32 ∷ [];
  rounds =
      record { missed = arrival 34 ∷ []; waking = arrival 36 }
      ∷ record { missed = []; waking = arrival 33 }
      ∷ [];
  double_fault_stack = 0x1000;
  kernel_stack = 0x2000;
  idle = 0x100;
  test_fn = 0x200;
  test_fn_hello = 0x300;
  void_kernel_stack = 0x8000;
  void_user_stack = 0x9000;
  kernel_box = λ n. 0x10000 + n * 0x2000;
  user_box = λ n. 0x11000 + n * 0x2000;
}

ports-Latches : Latches held_ports (λ d. d % 65536)
ports-Latches = record { reads_low = λ d. omega arith; reads_high = λ d. omega arith }

clock : Clock held_hardware
clock = record {
  Loaded = λ (d : ℕ). d ≡ 65535;
  Running = λ (d : ℕ). d < 65535;
  keeps = λ d below. below;
}

clock-Counting : Counting held_hardware clock
unfolding clock
clock-Counting = record {
  loads = λ d. omega arith;
  shows = λ m enabled below.
      omega (
        arith,
        (read_pit_count-latched held_ports (λ d. d % 65536) m ports-Latches (omega arith)).0,
      );
}

comes : (n : ℕ) → 32 ≤ n → n ≤ 36 → IsArrival held_hardware clock (arrival n)
unfolding clock
comes n lo hi = (lo, hi, counts)
  where
    counts : (d : ℕ) → (d ≡ 65535) ⊎ (d < 65535) → d - 1000 < 65535
    counts d (inl full) = omega arith
    counts d (inr below) = omega arith

boot-CanMap : CanMap boot
boot-CanMap = record {
  tables = 0;
  IsFree = λ mapper page. ¬ Mem page mapper;
  grants = map_to-Grants;
  distinct = pages-Distinct;
  offset = 0;
  offset_canonical = refl;
  level_4 = 0x1000;
  level_4_canonical = refl;
  not_mapped = pages-free;
  enough = omega (arith, room);
}

boot-CanStart : CanStart boot
boot-CanStart = record {
  can_map = boot-CanMap;
  early_lines = (refl, tt);
  apic_built = (0, refl);
  clock = clock;
  counting = clock-Counting;
  devices = (
    ((comes 34 (omega arith) (omega arith), tt), comes 36 (omega arith) (omega arith)),
    ((tt, comes 33 (omega arith) (omega arith)), tt),
  );
  timer_fires = inr (inl (inr refl));
}

abbrev world : World boot
world = record {
  system = record {
    console = console;
    event_handlers = event_handlers_new keyboard;
    decoder = 0;
    lapic = some 0;
    pics = 0;
    triggered_once = false;
    apic_timer_frequency = 0;
    idt = λ n. none;
    machine = record { device = 0; interrupts_enabled = false };
  };
  kernel = record {
    scheduler = scheduler_new;
    task = none;
    initialized = false;
    idle_task = none;
    void_task = none;
  };
  memory = λ a. 0;
  loaded = record {
    gdtr = 0;
    cs = 0;
    tr = 0;
    tss = record { privilege_stack_table = []; interrupt_stack_table = [] };
  };
  heap = none;
}

world-Fresh : Fresh boot world
world-Fresh = record {
  booting = record { valid = omega arith; off = refl; same_shell = refl };
  no_handlers = refl;
  none_typed = refl;
  prompt_fits = omega arith;
  no_processes = refl;
  no_task = refl;
  no_turn = refl;
  not_triggered = refl;
}

kernel_main-Ready_example : (w' : World boot) × (kernel_main boot world ≡ some w') × Ready boot 2 w'
kernel_main-Ready_example = kernel_main-Ready boot world boot-CanStart world-Fresh

abbrev task : Task
task = (
  process_new 0 runnable,
  record {
    kernel_rsp = 0;
    kernel_top_rsp = 0;
    kernel_stack = record { addr = 0; size = 0 };
    user_stack = record { addr = 0; size = 0 };
  },
)

-- The kernel has started.
started : (w' : World boot) × (kernel_main boot world ≡ some w')
started =
    let (w', returns, ready) = kernel_main-Ready boot world boot-CanStart world-Fresh in
    (w', returns)

kernel_main-interrupted_example :
    (w' : World boot) × (until boot second_started world ≡ some w')
    × ((out : Kernel) × (out' : Kernel) × (state : ProcessState) × (turns task w'.kernel 500
            (900 ∷ [])
          ≡ some (out, state))
        × (turns task w'.kernel 700 (900 ∷ []) ≡ some (out', state))
        × (out' ≡ record out { void_task = out'.void_task }))
    × (w'.system.event_handlers ≡ event_handlers_new keyboard)
kernel_main-interrupted_example =
    kernel_main-interrupted boot world second_started task 500 700 (900 ∷ []) boot-CanStart
      world-Fresh

-- `test_fn_hello` is interrupted on a stack of its own, when memory is as the start left it.
abbrev interrupt : Interrupt
interrupt = record {
  regs = λ r. 7;
  rsp = 0x50000;
  memory = started.0.memory;
  later = (push_regs pushed (λ r. 7) 0x50000 started.0.memory).1;
}

kernel_main-round_robin_example :
    (k : Kernel) × (p : ProcessState) × (c₁ : TaskContext) × (c₂ : TaskContext) × (turn task
        started.0.kernel 500
      ≡ some (k, p))
    × ((regs : Registers) → resume p.kernel_rsp started.0.memory regs ≡ c₂)
    × Begins boot 1 0x300 c₂
    × Begins boot 0 0x200 c₁
    × Same (switches task k (interrupt ∷ [])) (round_robin (c₁ ∷ []) (interrupted interrupt ∷ []))
kernel_main-round_robin_example =
    kernel_main-round_robin boot world started.0 task 500 started.0.memory (interrupt ∷ [])
      boot-CanStart world-Fresh started.1 (inl (omega arith)) (λ a lo hi. refl) (λ a lo hi. refl)
      (
        omega arith,
        ((λ a lo hi. refl, inl (omega arith), λ a lo hi. refl), tt),
        λ a lo hi. refl,
        tt,
      )
