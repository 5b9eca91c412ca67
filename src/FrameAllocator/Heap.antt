-- ===== src/FrameAllocator/Heap.antt =====
-- `init_heap` of src/allocators/mod.rs maps the heap, or says why not.
use leaf_os.Common.{
  Result, ok, err, subst, ◌⊎◌, ◌≢◌, ℕ, ◌≡◌, refl, none, List, [], ◌∷◌, All, arith, inl, inr,
  Option-cases,
}
use leaf_os.FrameAllocator.{
  BootInfoFrameAllocator, Paging, MapTo, allocate_frame, map_pages, heap_pages, init_heap,
}

-- What `map_to` does where it succeeds: its page is mapped, and no page is lost.
pub record Maps (p : Paging) (map_to : MapTo p) (IsMapped : p.Mapper → p.Page → Type 0)
    : Type 0 where
  pub maps :
      (page : p.Page) (frame : p.Frame) (mapper mapper' : p.Mapper) (a a' : BootInfoFrameAllocator)
      → map_to page frame mapper a ≡ ok (mapper', a')
      → IsMapped mapper' page
  pub keeps :
      (page other : p.Page) (frame : p.Frame) (mapper mapper' : p.Mapper)
      (a a' : BootInfoFrameAllocator)
      → map_to page frame mapper a ≡ ok (mapper', a')
      → IsMapped mapper other
      → IsMapped mapper' other

Result-cases : {E A : Type 0} (r : Result E A) → ((e : E) × (r ≡ err e)) ⊎ ((a : A) × (r ≡ ok a))
Result-cases (err e) = inl (e, refl)
Result-cases (ok a) = inr (a, refl)

module _ (p : Paging) (map_to : MapTo p) where
  -- The steps of a loop that returns.
  map_pages-cons :
      (page : p.Page) (pages : List p.Page) (mapper mapper' : p.Mapper)
      (a a' : BootInfoFrameAllocator)
      → map_pages p map_to (page ∷ pages) mapper a ≡ ok (mapper', a')
      → (f : p.Frame) × (m : p.Mapper) × (b : BootInfoFrameAllocator) × (map_to page f mapper
            (allocate_frame p a).1
          ≡ ok (m, b))
        × (map_pages p map_to pages m b ≡ ok (mapper', a'))
  unfolding map_pages
  map_pages-cons page pages mapper mapper' a a' h = elim (Option-cases (allocate_frame p a).0) [
    | inl e ↦ ground arith
    | inr (f, e) ↦ elim (Result-cases (map_to page f mapper (allocate_frame p a).1)) [
      | inl (error, failed) ↦ ground arith
      | inr ((m, b), mapped) ↦ (f, m, b, mapped, ground arith)
    ]
  ]

  module _ (IsMapped : p.Mapper → p.Page → Type 0) (law : Maps p map_to IsMapped) where
    map_pages-IsMapped :
        (pages : List p.Page) (mapper mapper' : p.Mapper) (a a' : BootInfoFrameAllocator)
        → map_pages p map_to pages mapper a ≡ ok (mapper', a')
        → All (IsMapped mapper') pages
          × ((other : p.Page) → IsMapped mapper other → IsMapped mapper' other)
    unfolding map_pages
    map_pages-IsMapped [] mapper mapper' a a' h =
        let same : mapper ≡ mapper' = ground arith in
        (tt, λ other m. subst (λ q. IsMapped q other) same m)
    map_pages-IsMapped (page ∷ pages) mapper mapper' a a' h =
        let (f, m, b, mapped, rest) = map_pages-cons page pages mapper mapper' a a' h in
        let ih = map_pages-IsMapped pages m mapper' b a' rest in
        (
          (ih.1 page (law.maps page f mapper m (allocate_frame p a).1 b mapped), ih.0),
          λ other old.
              ih.1 other (law.keeps page other f mapper m (allocate_frame p a).1 b mapped old),
        )

    -- If `map_to` maps its page and loses none where it succeeds, then where `init_heap` succeeds,
    -- every page from the heap's first to its last is mapped, no page that was mapped is lost, and
    -- the global allocator is given the heap's bounds.
    pub init_heap-IsMapped :
        (mapper mapper' : p.Mapper) (a a' : BootInfoFrameAllocator) (start size : ℕ)
        → init_heap p map_to mapper a ≡ ok (mapper', a', start, size)
        → All (IsMapped mapper') (heap_pages p)
          × ((other : p.Page) → IsMapped mapper other → IsMapped mapper' other)
          × (start ≡ 0x444444440000)
          × (size ≡ 1024000)
    unfolding init_heap
    init_heap-IsMapped mapper mapper' a a' start size h =
        elim (Result-cases (map_pages p map_to (heap_pages p) mapper a)) [
          | inl (e, failed) ↦ ground arith
          | inr ((m, b), done) ↦
              let loop : map_pages p map_to (heap_pages p) mapper a ≡ ok (mapper', a') =
                ground arith in
              let both = map_pages-IsMapped (heap_pages p) mapper mapper' a a' loop in
              (both.0, both.1, ground arith, ground arith)
        ]

  map_pages-exhausted :
      (pages : List p.Page) (mapper : p.Mapper) (a : BootInfoFrameAllocator)
      → pages ≢ []
      → (allocate_frame p a).0 ≡ none
      → map_pages p map_to pages mapper a ≡ err p.frame_allocation_failed
  unfolding map_pages
  map_pages-exhausted [] mapper a some_pages none_left = absurd (some_pages refl)
  map_pages-exhausted (page ∷ pages) mapper a some_pages none_left = rw (none_left, map_pages)

  -- With no frame left for a heap of at least one page, `init_heap` maps nothing and says that a
  -- frame could not be allocated.
  pub init_heap-exhausted :
      (mapper : p.Mapper) (a : BootInfoFrameAllocator)
      → heap_pages p ≢ []
      → (allocate_frame p a).0 ≡ none
      → init_heap p map_to mapper a ≡ err p.frame_allocation_failed
  unfolding init_heap
  init_heap-exhausted mapper a some_pages none_left =
      rw (map_pages-exhausted (heap_pages p) mapper a some_pages none_left, init_heap)
