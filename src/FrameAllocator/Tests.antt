-- ===== src/FrameAllocator/Tests.antt =====
-- Runs of the frame allocator of src/memory.rs and of `init_heap` of src/allocators/mod.rs.
use leaf_os.Common.{
  ok, ◌↔◌, ℕ, ◌+◌, ◌/◌, ◌%◌, ◌≤◌, ◌≡◌, refl, none, some, List, [], ◌∷◌, All, subst, arith,
}
use leaf_os.FrameAllocator.{
  BootInfoFrameAllocator, init_heap, step_by, region_addresses, frame_addresses, usable_frames,
  allocate_frame, heap_pages,
}
use leaf_os.FrameAllocator.Frames.{after, allocate_frame-apart}
use leaf_os.FrameAllocator.Usable.{IsUsable, allocate_frame-IsUsable}
use leaf_os.FrameAllocator.Heap.{Maps}
use leaf_os.FrameAllocator.Enough.{init_heap-returns}
use leaf_os.FrameAllocator.Sample.{
  map_to-mapper, map_to-Grants, pages-Distinct, pages-free, room, numbers, two_frames, no_frames,
  map_to, usable, reserved,
}
use mathlib.Core.List.{Mem, mem-cons}
use mathlib.Core.Logic.Or

addresses : frame_addresses two_frames.memory_map ≡ 4096 ∷ 8192 ∷ []
unfolding frame_addresses region_addresses step_by
addresses = refl

first : (allocate_frame numbers (after numbers 0 two_frames)).0 ≡ some 1
unfolding after allocate_frame usable_frames frame_addresses region_addresses step_by
first = refl

second : (allocate_frame numbers (after numbers 1 two_frames)).0 ≡ some 2
unfolding after allocate_frame usable_frames frame_addresses region_addresses step_by
second = refl

no_more : (allocate_frame numbers (after numbers 2 two_frames)).0 ≡ none
unfolding after allocate_frame usable_frames frame_addresses region_addresses step_by
no_more = refl

none_at_all : (allocate_frame numbers no_frames).0 ≡ none
unfolding allocate_frame usable_frames frame_addresses
none_at_all = refl

allocate_frame-apart_example :
    (x : ℕ) × (y : ℕ) × (1 ≡ x / 4096)
    × (2 ≡ y / 4096)
    × (x % 4096 ≡ 0)
    × (y % 4096 ≡ 0)
    × (x + 4096 ≤ y)
allocate_frame-apart_example =
    allocate_frame-apart numbers two_frames 0 1 1 2
      (omega arith, omega arith, refl, refl, (omega arith, omega arith, refl, refl, tt))
      (omega arith) first second

map_to-Maps : Maps numbers map_to (λ mapper page. Mem page mapper)
map_to-Maps = record {
  maps = λ page frame mapper mapper' a a' h.
      subst (λ m. Mem page m) (map_to-mapper frame h) (mem-cons.1 (Or.inl refl));
  keeps = λ page other frame mapper mapper' a a' h old.
      subst (λ m. Mem other m) (map_to-mapper frame h) (mem-cons.1 (Or.inr old));
}

init_heap-returns_example :
    (m : List ℕ) × (a' : BootInfoFrameAllocator) × (init_heap numbers map_to [] two_frames
      ≡ ok (m, a', 0x444444440000, 1024000))
    × All (λ page. Mem page m) (heap_pages numbers)
    × ((other : ℕ) → Mem other [] → Mem other m)
init_heap-returns_example =
    init_heap-returns numbers map_to 0 (λ mapper page. ¬ Mem page mapper) map_to-Grants
      (λ mapper page. Mem page mapper) map_to-Maps [] two_frames pages-Distinct pages-free room

allocate_frame-IsUsable_example :
    ((n : ℕ) × ((allocate_frame numbers (after numbers n two_frames)).0 ≡ some 2))
    ↔ ((addr : ℕ) × IsUsable (usable ∷ reserved ∷ []) addr × (◌≡◌ {A = ℕ} 2 (addr / 4096)))
allocate_frame-IsUsable_example = allocate_frame-IsUsable numbers (usable ∷ reserved ∷ []) 2
