-- ===== src/Allocator/Blocks.antt =====
-- The free lists of src/allocators/fixed_size_block.rs: what `alloc` and `dealloc` do to them.
use leaf_os.Common.{
  length-set, ne→==, ℕ, zero, suc, ◌<◌, ◌≡◌, ◌≢◌, refl, ap, ◌∙◌, Option, none, some, List, [], ◌∷◌,
  get_or, set, length, All, arith,
}
use leaf_os.Allocator.Sizes.{node-fits, list_index-smallest}
use leaf_os.Common.{ne→==}
use leaf_os.Allocator.{
  Fallback, Layout, block_sizes, list_head, list_index, FixedSizeBlockAllocator, fallback_alloc,
  update_link, alloc, dealloc,
}

-- The blocks `blocks` form the list that begins at `head`.
abbrev pub Chain : (ℕ → Option ℕ) → Option ℕ → List ℕ → Type 0
Chain links head [] = head ≡ none
Chain links head (p ∷ blocks) = (head ≡ some p) × Chain links (links p) blocks

-- A list is not changed by a write to the node of a block that is not in it.
pub Chain-update :
    (links : ℕ → Option ℕ) (ptr : ℕ) (next head : Option ℕ) (blocks : List ℕ)
    → All (λ p. p ≢ ptr) blocks
    → Chain links head blocks
    → Chain (update_link links ptr next) head blocks
Chain-update links ptr next head [] out c = c
Chain-update links ptr next head (p ∷ blocks) out c =
    (c.0, rw (ne→== p ptr out.0) (Chain-update links ptr next (links p) blocks out.1 c.1))

get_or-set_self :
    (xs : List (Option ℕ)) (i : ℕ) (v : Option ℕ) → i < length xs → get_or (set xs i v) i none ≡ v
get_or-set_self [] i v h = elim h [ ]
get_or-set_self (x ∷ xs) zero v h = refl
get_or-set_self (x ∷ xs) (suc i) v h = get_or-set_self xs i v (omega arith)

get_or-set_ne :
    (xs : List (Option ℕ)) (i j : ℕ) (v : Option ℕ)
    → i ≢ j
    → get_or (set xs i v) j none ≡ get_or xs j none
get_or-set_ne [] i j v h = refl
get_or-set_ne (x ∷ xs) zero zero v h = absurd (h refl)
get_or-set_ne (x ∷ xs) zero (suc j) v h = refl
get_or-set_ne (x ∷ xs) (suc i) zero v h = refl
get_or-set_ne (x ∷ xs) (suc i) (suc j) v h = get_or-set_ne xs i j v (λ e. h (ap suc e))

-- The free blocks of a size class.
abbrev pub FreeList : (f : Fallback) → FixedSizeBlockAllocator f → ℕ → List ℕ → Type 0
FreeList f a i blocks = Chain a.links (list_head a.list_heads i) blocks

-- The other classes keep the blocks that they have, unless `ptr` is among them.
abbrev pub OthersKept :
    (f : Fallback) → FixedSizeBlockAllocator f → FixedSizeBlockAllocator f → ℕ → ℕ → Type 0
OthersKept f a a' index ptr =
    (j : ℕ) (blocks : List ℕ)
    → index ≢ j
    → All (λ p. p ≢ ptr) blocks
    → FreeList f a j blocks
    → FreeList f a' j blocks

module _ (f : Fallback) (a : FixedSizeBlockAllocator f) (layout : Layout) (index : ℕ)
    (chosen : list_index layout ≡ some index) (room : index < length a.list_heads) where
  Chain-set :
      (links : ℕ → Option ℕ) (head : Option ℕ) (blocks : List ℕ)
      → Chain links head blocks
      → Chain links (list_head (set a.list_heads index head) index) blocks
  Chain-set links head blocks c = rw (get_or-set_self a.list_heads index head room) c

  others :
      (head next : Option ℕ) (ptr : ℕ)
      → OthersKept f a
          (record a {
            list_heads = set a.list_heads index head;
            links = update_link a.links ptr next;
          })
          index
          ptr
  others head next ptr j blocks ne out c =
      rw (get_or-set_ne a.list_heads index j head ne)
        (Chain-update a.links ptr next (list_head a.list_heads j) blocks out c)

  -- With a free block of the chosen class at hand, and in its list only once, `alloc` takes the
  -- first one off its list. It leaves the other blocks of that class and the fallback as they
  -- were, and every other class that does not hold the block.
  pub alloc-first :
      (ptr : ℕ) (blocks : List ℕ)
      → FreeList f a index (ptr ∷ blocks)
      → All (λ p. p ≢ ptr) blocks
      → (a' : FixedSizeBlockAllocator f) × (alloc f a layout ≡ (ptr, a'))
        × FreeList f a' index blocks
        × OthersKept f a a' index ptr
        × (a'.fallback_allocator ≡ a.fallback_allocator)
        × (length a'.list_heads ≡ length a.list_heads)
  unfolding alloc
  alloc-first ptr blocks free out = (
    record a {
      list_heads = set a.list_heads index (a.links ptr);
      links = update_link a.links ptr none;
    },
    rw (chosen, alloc) (rw (free.0, alloc)),
    Chain-set (update_link a.links ptr none) (a.links ptr) blocks
        (Chain-update a.links ptr none (a.links ptr) blocks out free.1),
    others (a.links ptr) none ptr,
    refl,
    length-set a.list_heads index (a.links ptr),
  )

  -- `dealloc` of a block that is not in its class's free list passes its assertions and puts the
  -- block in front of that list. It leaves the blocks that were free and the fallback as they
  -- were, and every other class that does not hold the block.
  pub dealloc-first :
      (ptr : ℕ) (blocks : List ℕ)
      → FreeList f a index blocks
      → All (λ p. p ≢ ptr) blocks
      → (a' : FixedSizeBlockAllocator f) × (dealloc f a ptr layout ≡ some a')
        × FreeList f a' index (ptr ∷ blocks)
        × OthersKept f a a' index ptr
        × (a'.fallback_allocator ≡ a.fallback_allocator)
        × (length a'.list_heads ≡ length a.list_heads)
  unfolding dealloc
  dealloc-first ptr blocks free out =
      let head = list_head a.list_heads index in
      let links = update_link a.links ptr head in
      let own : links ptr ≡ head = ground arith in
      (
        record a { list_heads = set a.list_heads index (some ptr); links = links },
        rw (chosen, dealloc) (rw (node-fits index ((list_index-smallest layout).0 index chosen).0)),
        (
          get_or-set_self a.list_heads index (some ptr) room,
          rw own (Chain-update a.links ptr head head blocks out free),
        ),
        others (some ptr) head ptr,
        refl,
        length-set a.list_heads index (some ptr),
      )

  -- With no free block of the chosen class, `alloc` asks the fallback for a block of the class's
  -- size, aligned to that size, and returns the null pointer if it has none.
  pub alloc-fallback :
      FreeList f a index []
      → alloc f a layout
        ≡ fallback_alloc f a
            (record { size = get_or block_sizes index 0; align = get_or block_sizes index 0 })
  unfolding alloc
  alloc-fallback free = rw (chosen, alloc) (rw (free, alloc))

-- A block given back is the next one handed out: `dealloc` of a block that is not in its class's
-- free list, and then `alloc` of a layout of the same class, return the block. That class and the
-- fallback are as before, and so is every other class that does not hold the block.
pub alloc-dealloc :
    (f : Fallback) (a : FixedSizeBlockAllocator f) (given wanted : Layout) (index ptr : ℕ)
    (blocks : List ℕ)
    → list_index given ≡ some index
    → list_index wanted ≡ some index
    → index < length a.list_heads
    → FreeList f a index blocks
    → All (λ p. p ≢ ptr) blocks
    → (a₁ : FixedSizeBlockAllocator f) × (a₂ : FixedSizeBlockAllocator f) × (dealloc f a ptr given
        ≡ some a₁)
      × (alloc f a₁ wanted ≡ (ptr, a₂))
      × FreeList f a₂ index blocks
      × OthersKept f a a₂ index ptr
      × (a₂.fallback_allocator ≡ a.fallback_allocator)
alloc-dealloc f a given wanted index ptr blocks chosen chosen' room free out =
    let (a₁, given_back, free₁, others₁, same₁, heads) =
      dealloc-first f a given index chosen room ptr blocks free out in
    let (a₂, handed_out, free₂, others₂, same₂, _) =
      alloc-first f a₁ wanted index chosen' (omega arith) ptr blocks free₁ out in
    (
      a₁,
      a₂,
      given_back,
      handed_out,
      free₂,
      λ j other ne avoids c. others₂ j other ne avoids (others₁ j other ne avoids c),
      same₂ ∙ same₁,
    )
