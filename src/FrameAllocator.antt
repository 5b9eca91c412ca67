-- ===== src/FrameAllocator.antt =====
-- Physical frames for the kernel: `BootInfoFrameAllocator` and `EmptyFrameAllocator` of
-- src/memory.rs, and `init_heap` of src/allocators/mod.rs. The crates `bootloader` and `x86_64`
-- are the memory map and a parameter.
pub mod Enough
pub mod Frames
pub mod Heap
pub mod Sample
pub mod Usable
mod Tests
use leaf_os.Common.{
  ℕ, zero, suc, ◌+◌, ◌-◌, ◌*◌, Bool, true, false, Option, none, some, List, [], ◌∷◌, ◌++◌, map, ltb,
  if◌then◌else◌, get_elem?, Result, ok, err, ◌>>=◌,
}

-- A region of the memory map, and whether its type is `Usable`.
pub record Region : Type 0 where
  pub start_addr : ℕ
  pub end_addr : ℕ
  pub usable : Bool

pub record BootInfoFrameAllocator : Type 0 where
  pub memory_map : List Region
  pub next : ℕ

abbrev pub frame_size : ℕ
frame_size = 4096

abbrev pub allocator_init : List Region → BootInfoFrameAllocator
allocator_init memory_map = record { memory_map = memory_map; next = 0 }

-- `(start..end).step_by(4096)`, on fuel: `end` rounds are enough.
pub step_by : ℕ → ℕ → ℕ → List ℕ
step_by zero addr end_addr = []
step_by (suc fuel) addr end_addr =
    let rest = step_by fuel (addr + frame_size) end_addr in
    if ltb addr end_addr then addr ∷ rest else []

pub region_addresses : Region → List ℕ
region_addresses r = step_by r.end_addr r.start_addr r.end_addr

-- The start addresses of the usable frames: `filter`, then `flat_map`.
pub frame_addresses : List Region → List ℕ
frame_addresses [] = []
frame_addresses (r ∷ rest) =
    if r.usable then region_addresses r ++ frame_addresses rest else frame_addresses rest

-- What the crate `x86_64` gives: frames, pages, and the page table.
pub record Paging : Type 1 where
  pub Frame : Type 0
  pub frame_containing : ℕ → Frame
  pub Page : Type 0
  pub page_containing : ℕ → Page
  pub range_inclusive : Page → Page → List Page
  pub Mapper : Type 0
  pub MapError : Type 0
  pub frame_allocation_failed : MapError
  -- Virtual addresses. `new` and the addition panic unless the result is canonical.
  pub VirtAddr : Type 0
  pub virt_addr_new : ℕ → Option VirtAddr
  pub virt_addr_add : VirtAddr → ℕ → Option VirtAddr
  -- The page table that stands at an address, and `OffsetPageTable::new`.
  pub PageTable : Type 0
  pub page_table_at : VirtAddr → PageTable
  pub offset_page_table_new : PageTable → VirtAddr → Mapper

module _ (p : Paging) where
  open p use {
    Frame, frame_containing, Page, page_containing, range_inclusive, Mapper, MapError,
    frame_allocation_failed, VirtAddr, PageTable,
  }

  -- With the start address of the frame that `Cr3::read` returns. `none` is a panic.
  unfoldable pub active_level_4_table : ℕ → VirtAddr → Option PageTable
  active_level_4_table cr3 physical_memory_offset = do
    virt ← p.virt_addr_add physical_memory_offset cr3
    some (p.page_table_at virt)

  unfoldable pub init : ℕ → VirtAddr → Option Mapper
  init cr3 physical_memory_offset = do
    level_4_table ← active_level_4_table cr3 physical_memory_offset
    some (p.offset_page_table_new level_4_table physical_memory_offset)

  pub usable_frames : BootInfoFrameAllocator → List Frame
  usable_frames a = map frame_containing (frame_addresses a.memory_map)

  pub allocate_frame : BootInfoFrameAllocator → Option Frame × BootInfoFrameAllocator
  allocate_frame a = (get_elem? (usable_frames a) a.next, record a { next = a.next + 1 })

  -- `EmptyFrameAllocator`.
  pub allocate_no_frame : Option Frame
  allocate_no_frame = none

  -- `map_to(page, frame, PRESENT | WRITABLE, frame_allocator)`, which may take frames itself.
  abbrev pub MapTo : Type 0
  MapTo =
      Page
      → Frame
      → Mapper
      → BootInfoFrameAllocator
      → Result MapError (Mapper × BootInfoFrameAllocator)

  abbrev pub heap_start : ℕ
  heap_start = 0x444444440000

  abbrev pub heap_size : ℕ
  heap_size = 1000 * 1024

  pub map_pages :
      MapTo
      → List Page
      → Mapper
      → BootInfoFrameAllocator
      → Result MapError (Mapper × BootInfoFrameAllocator)
  map_pages map_to [] mapper a = ok (mapper, a)
  map_pages map_to (page ∷ pages) mapper a =
      let (frame, a₁) = allocate_frame a in
      elim frame [
        | none ↦ err frame_allocation_failed
        | some f ↦ elim (map_to page f mapper a₁) [
          | err e ↦ err e
          | ok (mapper', a₂) ↦ map_pages map_to pages mapper' a₂
        ]
      ]

  pub heap_pages : List Page
  heap_pages =
      range_inclusive (page_containing heap_start) (page_containing (heap_start + heap_size - 1))

  -- The mapper, the frame allocator, and the bounds that the global allocator is given.
  pub init_heap :
      MapTo
      → Mapper
      → BootInfoFrameAllocator
      → Result MapError (Mapper × BootInfoFrameAllocator × ℕ × ℕ)
  init_heap map_to mapper a = elim (map_pages map_to heap_pages mapper a) [
    | err e ↦ err e
    | ok (mapper', a') ↦ ok (mapper', a', heap_start, heap_size)
  ]
