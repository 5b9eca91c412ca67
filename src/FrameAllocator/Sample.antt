-- ===== src/FrameAllocator/Sample.antt =====
-- A small memory map and page table to run `init_heap` of src/allocators/mod.rs on.
use leaf_os.Common.{ok, ℕ, ◌/◌, ◌≡◌, refl, true, false, some, List, [], ◌∷◌}
use leaf_os.Common.{Result, ◌+◌, ◌*◌, ◌≤◌, sym, subst, All, length, arith}
use leaf_os.FrameAllocator.Enough.{Grants, Distinct}
use mathlib.Core.List.{Mem, not-mem-nil, eq-or-mem_of_mem-cons}
use mathlib.Core.Logic.Or
use mathlib.Core.HLevel.{⊥_prop}
use leaf_os.FrameAllocator.{
  Region, BootInfoFrameAllocator, allocator_init, step_by, region_addresses, frame_addresses,
  usable_frames, Paging, MapTo, allocate_frame, map_pages, heap_pages, init_heap,
}

-- Frames and pages by number; a range is its two ends, and a page table the pages it maps.
abbrev pub numbers : Paging
numbers = record {
  Frame = ℕ;
  frame_containing = λ a. a / 4096;
  Page = ℕ;
  page_containing = λ a. a / 4096;
  range_inclusive = λ a b. a ∷ b ∷ [];
  Mapper = List ℕ;
  MapError = ℕ;
  frame_allocation_failed = 7;
  VirtAddr = ℕ;
  virt_addr_new = λ a. some a;
  virt_addr_add = λ a n. some (a + n);
  PageTable = Unit {0};
  page_table_at = λ a. tt;
  offset_page_table_new = λ table offset. [];
}

abbrev pub usable : Region
usable = record { start_addr = 4096; end_addr = 12288; usable = true }

abbrev pub reserved : Region
reserved = record { start_addr = 12288; end_addr = 16384; usable = false }

abbrev pub two_frames : BootInfoFrameAllocator
two_frames = allocator_init (usable ∷ reserved ∷ [])

abbrev pub no_frames : BootInfoFrameAllocator
no_frames = allocator_init (reserved ∷ [])

abbrev pub map_to : MapTo numbers
map_to page frame mapper a = ok (page ∷ mapper, a)

-- The first and the last page of the heap.
abbrev pub table : List ℕ
table = 18325194041 ∷ 18325193792 ∷ []

pub mapped :
    init_heap numbers map_to [] two_frames
    ≡ ok (table, record two_frames { next = 2 }, 0x444444440000, 1024000)
unfolding init_heap map_pages heap_pages allocate_frame usable_frames frame_addresses
    region_addresses step_by
mapped = refl

pub map_to-mapper :
    {page : ℕ} (frame : ℕ) {mapper mapper' : List ℕ} {a a' : BootInfoFrameAllocator}
    → ◌≡◌ {A = Result ℕ (List ℕ × BootInfoFrameAllocator)}
        (map_to page frame mapper a)
        (ok (mapper', a'))
    → page ∷ mapper ≡ mapper'
map_to-mapper frame h = ground arith

pub map_to-Grants : Grants numbers map_to 0 (λ mapper page. ¬ Mem page mapper)
map_to-Grants = record {
  succeeds = λ page frame mapper a free room. (page ∷ mapper, a, refl, refl, omega arith);
  stays = λ page other frame mapper mapper' a a' apart h free.
      subst (λ m. ¬ Mem other m) (map_to-mapper frame h)
        (λ member. Or.elim ⊥_prop (eq-or-mem_of_mem-cons member) (λ same. apart (sym same)) free);
}

pub pages-Distinct : Distinct (heap_pages numbers)
unfolding heap_pages
pages-Distinct = (((λ (same : ◌≡◌ {A = ℕ} 18325193792 18325194041). omega arith), tt), (tt, tt))

pub pages-free : All (λ page. ¬ Mem page []) (heap_pages numbers)
unfolding heap_pages
pages-free = (not-mem-nil, (not-mem-nil, tt))

pub room : 0 + length (heap_pages numbers) * 1 ≤ length (usable_frames numbers two_frames)
unfolding heap_pages usable_frames frame_addresses region_addresses step_by
room = omega arith
