-- ===== src/Allocator/Tests.antt =====
-- Runs of the block allocator of src/allocators/fixed_size_block.rs.
use leaf_os.Common.{ℕ, ◌+◌, ◌<◌, ◌^◌, ◌≡◌, ◌↔◌, refl, none, some, [], ◌∷◌, max, arith}
use leaf_os.Allocator.{
  Fallback, Layout, list_index, position, FixedSizeBlockAllocator, allocator_new, init, update_link,
  fallback_alloc, alloc, dealloc,
}
use leaf_os.Allocator.Regions.{Region, Apart, Placed}
use leaf_os.Allocator.Sample.{rising, rising-Serves, no_links}
use leaf_os.Allocator.Histories.{Reach, Reach-Apart, Reach-dealloc}
use mathlib.Core.List.Perm
use mathlib.Core.List.{Mem, Pairwise}
use leaf_os.Allocator.Sizes.{list_index-smallest}
use leaf_os.Allocator.Blocks.{FreeList, OthersKept, alloc-dealloc}

-- A fallback that hands out rising addresses up to an end.
abbrev bump : Fallback
bump = record {
  Heap = ℕ × ℕ;
  empty = (0, 0);
  init = λ start size heap. (start, start + size);
  allocate_first_fit = λ layout heap. some (heap.0, (heap.0 + layout.size, heap.1));
  deallocate = λ ptr layout heap. heap;
}

-- Its class of 32 bytes has one free block, at 96.
abbrev allocator : FixedSizeBlockAllocator bump
allocator = record {
  list_heads = none ∷ none ∷ some 96 ∷ none ∷ none ∷ none ∷ none ∷ none ∷ none ∷ none ∷ [];
  links = no_links;
  fallback_allocator = (4096, 8192);
}

abbrev small : Layout
small = record { size = 20; align = 8 }

abbrev aligned : Layout
aligned = record { size = 3; align = 2 ^ 5 }

small-class : list_index small ≡ some 2
unfolding list_index position
small-class = refl

aligned-class : list_index aligned ≡ some 2
unfolding list_index position
aligned-class = refl

list_index-smallest_example : (list_index small ≡ none) ↔ (4096 < max 20 8)
list_index-smallest_example = (list_index-smallest small).1

alloc-dealloc_example :
    (a₁ : FixedSizeBlockAllocator bump) × (a₂ : FixedSizeBlockAllocator bump) × (dealloc bump
        allocator 160 small
      ≡ some a₁)
    × (alloc bump a₁ aligned ≡ (160, a₂))
    × FreeList bump a₂ 2 (96 ∷ [])
    × OthersKept bump allocator a₂ 2 160
    × (a₂.fallback_allocator ≡ (4096, 8192))
alloc-dealloc_example =
    alloc-dealloc bump allocator small aligned 2 160 (96 ∷ []) small-class aligned-class
      (omega arith) (refl, refl) (omega arith, tt)

abbrev big : Layout
big = record { size = 5000; align = 2 ^ 3 }

big-class : list_index big ≡ none
unfolding list_index position
big-class = refl

-- The states of a run: a small block, a large one beside it, and a node's place overwritten.
abbrev after_init : FixedSizeBlockAllocator rising
after_init = init rising (allocator_new rising no_links) 64 65536

abbrev after_small : FixedSizeBlockAllocator rising
after_small = record after_init { fallback_allocator = (2112, 65600) }

abbrev after_big : FixedSizeBlockAllocator rising
after_big = record after_small { fallback_allocator = (21904, 65600) }

alloc-small : alloc rising after_init small ≡ (2080, after_small)
unfolding alloc fallback_alloc list_index position allocator_new init
alloc-small = refl

alloc-big : alloc rising after_small big ≡ (16904, after_big)
unfolding alloc fallback_alloc list_index position allocator_new init
alloc-big = refl

history :
    Reach rising no_links 64 65536
      (record after_big { links = update_link after_big.links 2088 (some 7) })
      ((16904, big) ∷ (2080, small) ∷ [])
history =
    Reach.written small 2080 2088 (some 7)
      (Reach.allocated big 3 16904
        (Reach.allocated small 3 2080 Reach.begun refl alloc-small (omega arith)) refl alloc-big
        (omega arith))
      (Perm.swap (2080, small) (16904, big) []) (omega arith) (omega arith)

Reach-Apart_example :
    Pairwise Apart ((16904, big) ∷ (2080, small) ∷ [])
    × ((r : Region) → Mem r ((16904, big) ∷ (2080, small) ∷ []) → Placed 64 65536 r)
Reach-Apart_example = Reach-Apart rising rising-Serves history

Reach-dealloc_example :
    (a' : FixedSizeBlockAllocator rising) × (dealloc rising
        (record after_big { links = update_link after_big.links 2088 (some 7) })
        2080
        small
      ≡ some a')
    × Reach rising no_links 64 65536 a' ((16904, big) ∷ [])
Reach-dealloc_example =
    Reach-dealloc rising rising-Serves small 2080 history (Perm.swap (2080, small) (16904, big) [])
