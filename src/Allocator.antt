-- ===== src/Allocator.antt =====
-- The block allocator of src/allocators/fixed_size_block.rs. Free blocks of one size form a list
-- through their own memory; `links` is the `ListNode` that stands at an address. The crate
-- `linked_list_allocator`, the fallback, is a parameter.
pub mod Sizes
pub mod Regions
pub mod Layouts
pub mod Owned
pub mod Histories
pub mod Sample
pub mod Blocks
mod Tests
use leaf_os.Common.{
  ℕ, zero, suc, max, Bool, Option, none, some, List, [], ◌∷◌, leb, ◌==◌, if◌then◌else◌, get_elem?,
  get_or, set, assert, ◌>>=◌, ◌>>◌,
}

pub record Layout : Type 0 where
  pub size : ℕ
  pub align : ℕ

-- `linked_list_allocator::Heap`: an allocation that fails is `none`.
pub record Fallback : Type 1 where
  pub Heap : Type 0
  pub empty : Heap
  pub init : ℕ → ℕ → Heap → Heap
  pub allocate_first_fit : Layout → Heap → Option (ℕ × Heap)
  pub deallocate : ℕ → Layout → Heap → Heap

abbrev pub block_sizes : List ℕ
block_sizes = 8 ∷ 16 ∷ 32 ∷ 64 ∷ 128 ∷ 256 ∷ 512 ∷ 1024 ∷ 2048 ∷ 4096 ∷ []

-- The size and the alignment of a `ListNode`.
abbrev pub node_size : ℕ
node_size = 8

abbrev pub list_head : List (Option ℕ) → ℕ → Option ℕ
list_head heads i = get_or heads i none

-- `iter().position(|&s| s >= required)`.
pub position : List ℕ → ℕ → Option ℕ
position [] required = none
position (s ∷ rest) required =
    if leb required s then some 0 else (do i ← position rest required; some (suc i))

pub list_index : Layout → Option ℕ
list_index layout = position block_sizes (max layout.size layout.align)

-- Writes the node at an address.
abbrev pub update_link : (ℕ → Option ℕ) → ℕ → Option ℕ → ℕ → Option ℕ
update_link links ptr next p = if p == ptr then next else links p

module _ (f : Fallback) where
  open f use {Heap, empty, allocate_first_fit, deallocate}

  pub record FixedSizeBlockAllocator : Type 0 where
    pub list_heads : List (Option ℕ)
    pub links : ℕ → Option ℕ
    pub fallback_allocator : Heap

  pub allocator_new : (ℕ → Option ℕ) → FixedSizeBlockAllocator
  allocator_new links = record {
    list_heads = none ∷ none ∷ none ∷ none ∷ none ∷ none ∷ none ∷ none ∷ none ∷ none ∷ [];
    links = links;
    fallback_allocator = empty;
  }

  pub init : FixedSizeBlockAllocator → ℕ → ℕ → FixedSizeBlockAllocator
  init a heap_start heap_size = record a {
    fallback_allocator = f.init heap_start heap_size a.fallback_allocator;
  }

  -- A null pointer if the fallback has no room.
  pub fallback_alloc : FixedSizeBlockAllocator → Layout → ℕ × FixedSizeBlockAllocator
  fallback_alloc a layout = elim (allocate_first_fit layout a.fallback_allocator) [
    | none ↦ (0, a)
    | some (ptr, heap) ↦ (ptr, record a { fallback_allocator = heap })
  ]

  pub alloc : FixedSizeBlockAllocator → Layout → ℕ × FixedSizeBlockAllocator
  alloc a layout = elim (list_index layout) [
    | none ↦ fallback_alloc a layout
    | some index ↦ elim (list_head a.list_heads index) [
      | some node ↦ (
        node,
        record a {
          list_heads = set a.list_heads index (a.links node);
          links = update_link a.links node none;
        },
      )
      | none ↦
          let block_size = get_or block_sizes index 0 in
          fallback_alloc a (record { size = block_size; align = block_size })
    ]
  ]

  -- `none` is a failed assertion, or the null pointer given back to the fallback.
  pub dealloc : FixedSizeBlockAllocator → ℕ → Layout → Option FixedSizeBlockAllocator
  dealloc a ptr layout = elim (list_index layout) [
    | some index ↦ (do
      assert (leb node_size (get_or block_sizes index 0))
      assert (leb node_size (get_or block_sizes index 0))
      some (record a {
        list_heads = set a.list_heads index (some ptr);
        links = update_link a.links ptr (list_head a.list_heads index);
      }))
    | none ↦
        if ptr == 0
        then none
        else some (record a { fallback_allocator = deallocate ptr layout a.fallback_allocator })
  ]
