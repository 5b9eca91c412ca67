-- ===== src/Startup/Steps.antt =====
-- The steps of the kernel's start in src/main.rs, one lemma for each.
use leaf_os.Common.{
  subst, All, ◌*◌, arith, ℕ, ◌+◌, ◌≤◌, ◌≡◌, refl, sym, ap, ◌∙◌, some, List, [], length, true, false,
  bind-returns,
}
use leaf_os.Vga.{buffer_width}
use leaf_os.Shell.{Shell}
use leaf_os.Shell
use leaf_os.Shell.Boot.{Booting, print-Booting}
use leaf_os.Shell.Quirks.{init-Editing}
use leaf_os.Shell.Typing.{Editing}
use leaf_os.Pit
use leaf_os.Pit.Counts.{init-returns}
use leaf_os.Pit.{read_pit_count, nearest_divisor}
use leaf_os.Events.{event_handlers_new}
use leaf_os.FrameAllocator
use leaf_os.FrameAllocator.{BootInfoFrameAllocator, allocator_init, heap_pages, usable_frames}
use leaf_os.FrameAllocator.Enough.{Grants, Distinct, init_heap_ok}
use leaf_os.Interrupts.{start_timer_one_shot, scheduler_timer_delay, init_apic, System, Arrival}
use leaf_os.Interrupts.Measure.{
  Counting, Measured, init_apic-returns, start_timer_one_shot-Measured,
}
use leaf_os.Interrupts.Wait.{Clock, IsRound, Fires}
use leaf_os.Interrupts.Table.{HandlesDevices}
use leaf_os.Startup.{Boot, World, setup, print_line}

-- The heap can be mapped: the level 4 table is at a canonical address, the heap's pages are distinct and not mapped yet, `map_to` maps such a page and
-- takes a bounded number of frames for page tables, and the memory map has frames enough.
pub record CanMap (b : Boot) : Type 1 where
  pub tables : ℕ
  pub IsFree : b.paging.Mapper → b.paging.Page → Type 0
  pub grants : Grants b.paging b.map_to tables IsFree
  pub distinct : Distinct (heap_pages b.paging)
  pub offset : b.paging.VirtAddr
  pub offset_canonical : b.paging.virt_addr_new b.physical_memory_offset ≡ some offset
  pub level_4 : b.paging.VirtAddr
  pub level_4_canonical : b.paging.virt_addr_add offset b.cr3 ≡ some level_4
  pub not_mapped :
      All
        (IsFree (b.paging.offset_page_table_new (b.paging.page_table_at level_4) offset))
        (heap_pages b.paging)
  pub enough :
      length (heap_pages b.paging) * (tables + 1)
      ≤ length (usable_frames b.paging (allocator_init b.memory_map))

-- The machine can start: the heap can be mapped; only the interval timer interrupts between `init`
-- and `init_apic`; the local APIC can be built; while the timer is measured, devices interrupt, and
-- the timer's interrupt is among theirs; and until then the interval timer counts down from 65535.
pub record CanStart (b : Boot) : Type 1 where
  pub can_map : CanMap b
  pub early_lines : All (λ (a : Arrival b.hardware). a.vector ≡ 32) b.early
  pub apic_built :
      (l : b.hardware.Lapic) × (b.hardware.build 33 34 35 (b.physical_memory_offset + b.xapic_base)
        ≡ some l)
  pub clock : Clock b.hardware
  pub counting : Counting b.hardware clock
  pub devices : All (IsRound b.hardware clock) b.rounds
  pub timer_fires : Fires b.hardware b.rounds

module _ (b : Boot) where
  open b use {hardware}

  pub print_line-Booting :
      (shell : Shell) (w : World b) (text : List ℕ)
      → Booting shell w.system.console
      → (c : Shell.Console) × (print_line b w text
          ≡ some (record w { system = record w.system { console = c } }))
        × Booting shell c
        × (c.writer.column_position ≡ 0)
  print_line-Booting shell w text booting =
      let (c, printed, booting', home) = print-Booting shell w.system.console text booting in
      (c, bind-returns _ printed refl, booting', home)

  pub setup-mapped :
      (w : World b)
      → CanStart b
      → (heap : b.paging.Mapper × BootInfoFrameAllocator) × (setup b w
          ≡ some (record w { heap = some heap }))
  unfolding setup FrameAllocator.init FrameAllocator.active_level_4_table
  setup-mapped w can =
      let m = can.can_map in
      let (mapper, a, mapped) =
        init_heap_ok b.paging b.map_to m.tables m.IsFree m.grants _ (allocator_init b.memory_map)
          m.distinct m.not_mapped (omega (arith, m.enough)) in
      (
        (mapper, a),
        bind-returns _ m.offset_canonical (
            bind-returns _ (bind-returns _ (bind-returns _ m.level_4_canonical refl) refl)
              (rw (mapped, setup) refl)),
      )

  Measured-console :
      (shell : Shell) (s : System hardware) (machine : Pit.Machine hardware.ports)
      (c : Shell.Console)
      → Measured hardware shell s
      → Booting shell c
      → Measured hardware shell (record s { machine = machine; console = c })
  Measured-console shell s machine c m booting = record {
    measuring = record {
      lapic = m.measuring.lapic;
      has_lapic = m.measuring.has_lapic;
      no_handlers = m.measuring.no_handlers;
      booting = booting;
    };
    scheduling = m.scheduling;
  }

  pub timer-started :
      (shell : Shell) (s : System hardware)
      → CanStart b
      → s.event_handlers ≡ event_handlers_new hardware.keyboard
      → Booting shell s.console
      → HandlesDevices s.idt
      → s.machine.interrupts_enabled ≡ true
      → s.triggered_once ≡ false
      → (s₁ : System hardware) × (machine : Pit.Machine hardware.ports) × (s₂ : System hardware)
        × (init_apic hardware b.physical_memory_offset b.xapic_base b.rounds s ≡ some s₁)
        × (Pit.init hardware.ports s₁.machine ≡ some (tt, machine))
        × (start_timer_one_shot hardware scheduler_timer_delay (record s₁ { machine = machine })
            ≡ some s₂)
        × Measured hardware shell s₂
  timer-started shell s can no_handlers booting handles enabled not_yet =
      let (s₁, measured, m₁) =
        init_apic-returns hardware shell can.clock b.physical_memory_offset b.xapic_base b.rounds s
          can.apic_built.0 no_handlers booting handles enabled not_yet can.apic_built.1 can.counting
          can.devices can.timer_fires in
      let (machine, timer_set) = init-returns hardware.ports s₁.machine in
      let (s₂, started, m₂, _) =
        start_timer_one_shot-Measured hardware shell scheduler_timer_delay
          (record s₁ { machine = machine })
          (Measured-console shell s₁ machine s₁.console m₁ m₁.measuring.booting) in
      (s₁, machine, s₂, measured, timer_set, started, m₂)

  pub shell-started :
      (shell : Shell) (c : Shell.Console)
      → Booting shell c
      → c.writer.column_position ≡ 0
      → shell.written_char_count ≡ 0
      → length shell.prompt.chars ≤ buffer_width
      → (c' : Shell.Console) × (Shell.init c ≡ some c')
        × (c'.initialized ≡ true)
        × Editing (length shell.prompt.chars) c'.writer.buffer [] c'
  shell-started shell c booting home none_typed fits =
      let same_length = ap (λ (sh : Shell). length sh.prompt.chars) booting.same_shell in
      let (c', prompted, on, editing) =
        init-Editing c home
          (ap (λ (sh : Shell). sh.written_char_count) booting.same_shell ∙ none_typed)
          (subst (λ (n : ℕ). n ≤ buffer_width) (sym same_length) fits) in
      (c', prompted, on, subst (λ (n : ℕ). Editing n c'.writer.buffer [] c') same_length editing)
