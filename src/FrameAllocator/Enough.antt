-- ===== src/FrameAllocator/Enough.antt =====
-- `init_heap` of src/allocators/mod.rs returns where the memory map has enough frames.
use leaf_os.Common.{
  Result, ok, ℕ, zero, suc, ◌+◌, ◌*◌, ◌<◌, ◌≤◌, ◌≡◌, ◌≢◌, refl, ap, some, List, [], ◌∷◌, All,
  length, map, get_elem?, arith,
}
use leaf_os.FrameAllocator.{
  BootInfoFrameAllocator, frame_addresses, Paging, MapTo, usable_frames, allocate_frame, map_pages,
  heap_pages, init_heap,
}
use leaf_os.FrameAllocator.Heap.{Maps, init_heap-IsMapped}

abbrev pub Distinct : {A : Type 0} → List A → Type 0
Distinct [] = Unit
Distinct (x ∷ xs) = All (λ y. x ≢ y) xs × Distinct xs

-- `map_to` maps a page that is not mapped yet, and takes at most `tables` frames for page tables.
pub record Grants (p : Paging) (map_to : MapTo p) (tables : ℕ) (IsFree : p.Mapper → p.Page → Type 0)
    : Type 0 where
  pub succeeds :
      (page : p.Page) (frame : p.Frame) (mapper : p.Mapper) (a : BootInfoFrameAllocator)
      → IsFree mapper page
      → a.next + tables ≤ length (usable_frames p a)
      → (m : p.Mapper) × (a' : BootInfoFrameAllocator) × (map_to page frame mapper a ≡ ok (m, a'))
        × (a'.memory_map ≡ a.memory_map)
        × (a'.next ≤ a.next + tables)
  pub stays :
      (page other : p.Page) (frame : p.Frame) (mapper mapper' : p.Mapper)
      (a a' : BootInfoFrameAllocator)
      → page ≢ other
      → map_to page frame mapper a ≡ ok (mapper', a')
      → IsFree mapper other
      → IsFree mapper' other

get_elem?-some :
    {A : Type 0} → (xs : List A) (i : ℕ) → i < length xs → (x : A) × (get_elem? xs i ≡ some x)
get_elem?-some [] i h = elim h [ ]
get_elem?-some (x ∷ xs) zero h = (x, refl)
get_elem?-some (x ∷ xs) (suc i) h = get_elem?-some xs i (omega arith)

module _ (p : Paging) (map_to : MapTo p) (tables : ℕ) (IsFree : p.Mapper → p.Page → Type 0)
    (law : Grants p map_to tables IsFree) where
  usable_frames-length :
      (a a' : BootInfoFrameAllocator)
      → a'.memory_map ≡ a.memory_map
      → length (usable_frames p a') ≡ length (usable_frames p a)
  unfolding usable_frames
  usable_frames-length a a' same =
      ap (λ regions. length (map p.frame_containing (frame_addresses regions))) same

  still_free :
      (page : p.Page) (frame : p.Frame) (mapper mapper' : p.Mapper) (a a' : BootInfoFrameAllocator)
      (pages : List p.Page)
      → map_to page frame mapper a ≡ ok (mapper', a')
      → All (λ q. page ≢ q) pages
      → All (IsFree mapper) pages
      → All (IsFree mapper') pages
  still_free page frame mapper mapper' a a' [] mapped apart free = tt
  still_free page frame mapper mapper' a a' (q ∷ pages) mapped apart free = (
    law.stays page q frame mapper mapper' a a' apart.0 mapped free.0,
    still_free page frame mapper mapper' a a' pages mapped apart.1 free.1,
  )

  map_pages-step :
      (page : p.Page) (pages : List p.Page) (mapper : p.Mapper) (a : BootInfoFrameAllocator)
      (f : p.Frame) (m : p.Mapper) (a₂ : BootInfoFrameAllocator)
      (r : Result p.MapError (p.Mapper × BootInfoFrameAllocator))
      → get_elem? (usable_frames p a) a.next ≡ some f
      → map_to page f mapper (record a { next = a.next + 1 }) ≡ ok (m, a₂)
      → map_pages p map_to pages m a₂ ≡ r
      → map_pages p map_to (page ∷ pages) mapper a ≡ r
  unfolding map_pages allocate_frame
  map_pages-step page pages mapper a f m a₂ r taken mapped rest = rw (map_pages, taken, mapped) rest

  map_pages-returns :
      (pages : List p.Page) (mapper : p.Mapper) (a : BootInfoFrameAllocator)
      → Distinct pages
      → All (IsFree mapper) pages
      → a.next + length pages * (tables + 1) ≤ length (usable_frames p a)
      → (m : p.Mapper) × (a' : BootInfoFrameAllocator) × (map_pages p map_to pages mapper a
          ≡ ok (m, a'))
  unfolding map_pages allocate_frame
  map_pages-returns [] mapper a apart free room = (mapper, a, refl)
  map_pages-returns (page ∷ pages) mapper a apart free room =
      let count : suc (length pages) * (tables + 1) ≡ length pages * (tables + 1) + (tables + 1) =
        omega arith in
      let (f, taken) = get_elem?-some (usable_frames p a) a.next (omega arith) in
      let a₁ = record a { next = a.next + 1 } in
      let same₁ = usable_frames-length a a₁ refl in
      let (m, a₂, mapped, kept, few) = law.succeeds page f mapper a₁ free.0 (omega arith) in
      let same₂ = usable_frames-length a₁ a₂ kept in
      let (m', a', rest) =
        map_pages-returns pages m a₂ apart.1
          (still_free page f mapper m a₁ a₂ pages mapped apart.0 free.1) (omega arith) in
      (m', a', map_pages-step page pages mapper a f m a₂ _ taken mapped rest)

  pub init_heap_ok :
      (mapper : p.Mapper) (a : BootInfoFrameAllocator)
      → Distinct (heap_pages p)
      → All (IsFree mapper) (heap_pages p)
      → a.next + length (heap_pages p) * (tables + 1) ≤ length (usable_frames p a)
      → (m : p.Mapper) × (a' : BootInfoFrameAllocator) × (init_heap p map_to mapper a
          ≡ ok (m, a', 0x444444440000, 1024000))
  unfolding init_heap
  init_heap_ok mapper a apart free room =
      let (m, a', loop) = map_pages-returns (heap_pages p) mapper a apart free room in
      (m, a', rw (init_heap, loop) refl)

  -- `init_heap` succeeds: if the pages of the heap are distinct and not mapped, `map_to` maps such a
  -- page, leaves the others alone and takes at most `tables` frames for its page tables, and the
  -- memory map has a frame for each page and for each of these tables, then `init_heap` returns no
  -- error, every page of the heap is mapped, and the global allocator is given the heap's bounds.
  pub init_heap-returns :
      (IsMapped : p.Mapper → p.Page → Type 0)
      → Maps p map_to IsMapped
      → (mapper : p.Mapper) (a : BootInfoFrameAllocator) → Distinct (heap_pages p)
      → All (IsFree mapper) (heap_pages p)
      → a.next + length (heap_pages p) * (tables + 1) ≤ length (usable_frames p a)
      → (m : p.Mapper) × (a' : BootInfoFrameAllocator) × (init_heap p map_to mapper a
          ≡ ok (m, a', 0x444444440000, 1024000))
        × All (IsMapped m) (heap_pages p)
        × ((other : p.Page) → IsMapped mapper other → IsMapped m other)
  init_heap-returns IsMapped maps mapper a apart free room =
      let (m, a', done) = init_heap_ok mapper a apart free room in
      let all = init_heap-IsMapped p map_to IsMapped maps mapper m a a' _ _ done in
      (m, a', done, all.0, all.1)
