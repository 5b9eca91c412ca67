-- ===== src/Allocator/Owned.antt =====
-- `alloc` and `dealloc` of src/allocators/fixed_size_block.rs keep what is lent out apart from what
-- is free, if the fallback does so with the regions that it hands out.
use mathlib.Core.List.Perm
use mathlib.Core.List.{
  Mem, Pairwise-cons, perm_middle, mem-append_right, mem-cons_self, mem-cons_of_mem,
}
use leaf_os.Common.{
  ==_refl, ℕ, ◌+◌, ◌^◌, ◌≤◌, ◌<◌, ◌≡◌, ◌≢◌, ◌⊎◌, inl, inr, refl, sym, ap, subst, ◌∙◌, some, List,
  [], ◌∷◌, ◌++◌, map, All, length, arith, Option-cases, ne→==,
}
use leaf_os.Allocator.{
  Fallback, Layout, list_index, FixedSizeBlockAllocator, fallback_alloc, alloc, dealloc,
}
use leaf_os.Allocator.Sizes.{list_index-smallest}
use leaf_os.Allocator.Regions.{
  Placed, Region, Apart, class_layout, served_as, lent, free, of_class, Serves, take_first,
  All-of_class,
}
use leaf_os.Allocator.Layouts.{class-positive, class-Placed, at_every}
use leaf_os.Allocator.Blocks.{FreeList, alloc-first, dealloc-first, alloc-fallback}

-- Blocks in order of what the fallback sees of them.
abbrev pub regions : List Region → List (ℕ × ℕ) → List Region
regions live frees = map lent live ++ map free frees

-- A region that is apart from free blocks covers the start of none of them.
pub avoids :
    (r : Region) (p : ℕ) (frees : List (ℕ × ℕ))
    → r.0 ≤ p
    → p < r.0 + r.1.size
    → All (λ b. b.0 < 10) frees
    → ((s : Region) → Mem s (map free frees) → Apart r s)
    → All (λ b. b.1 ≢ p) frees
avoids r p [] lo hi classes apart = tt
avoids r p ((i, q) ∷ frees) lo hi classes apart = (
  λ same.
      let at_start = apart (free (i, q)) mem-cons_self in
      at_start q (omega arith) (omega arith) (omega arith)
        (omega (arith, class-positive i classes.0)),
  avoids r p frees lo hi classes.1 (λ s m. apart s (mem-cons_of_mem (free (i, q)) m)),
)

List-cases :
    {A : Type 0} → (xs : List A) → (xs ≡ []) ⊎ ((x : A) × (rest : List A) × (xs ≡ x ∷ rest))
List-cases [] = inl refl
List-cases (x ∷ rest) = inr (x, rest, refl)

module _ (f : Fallback) (law : Serves f) (start size : ℕ) where
  -- The blocks in `live` are lent out, and the class lists hold blocks that are not: together they
  -- are what the fallback has handed out.
  pub record Holding (a : FixedSizeBlockAllocator f) (live : List Region) : Type 0 where
    pub frees : List (ℕ × ℕ)
    pub heads : length a.list_heads ≡ 10
    pub classes : All (λ b. b.0 < 10) frees
    pub chains : (i : ℕ) → FreeList f a i (of_class i frees)
    pub held : law.Holds start size a.fallback_allocator (regions live frees)

  -- What an allocation may answer: the null pointer, with nothing changed, or a block that fits.
  abbrev pub Answer :
      FixedSizeBlockAllocator f → List Region → Layout → ℕ × FixedSizeBlockAllocator f → Type 0
  Answer a live layout (ptr, a') =
      ((ptr ≡ 0) × (a' ≡ a)) ⊎ (Placed start size (ptr, layout) × Holding a' ((ptr, layout) ∷ live))

  fallback_alloc-Answer :
      (a : FixedSizeBlockAllocator f) (live : List Region) (layout wanted : Layout)
      → Holding a live
      → served_as (list_index wanted) wanted ≡ layout
      → ((ptr : ℕ) → Placed start size (ptr, layout) → Placed start size (ptr, wanted))
      → Answer a live wanted (fallback_alloc f a layout)
  unfolding fallback_alloc
  fallback_alloc-Answer a live layout wanted h serves placed =
      elim (Option-cases (f.allocate_first_fit layout a.fallback_allocator)) [
        | inl e ↦ rw (e, fallback_alloc) (inl (refl, refl))
        | inr ((ptr, heap), e) ↦
            let held =
              law.allocates start size layout a.fallback_allocator heap (regions live h.frees) ptr
                h.held e in
            let fits = law.fits start size heap (regions live h.frees) (ptr, layout) held in
            rw (e, fallback_alloc)
              (inr (
                placed ptr fits,
                record {
                  frees = h.frees;
                  heads = h.heads;
                  classes = h.classes;
                  chains = h.chains;
                  held =
                      subst (λ l. law.Holds start size heap ((ptr, l) ∷ regions live h.frees))
                        (sym serves) held;
                },
              ))
      ]

  -- `alloc` with a free block of the class at hand.
  alloc_listed-Answer :
      (a : FixedSizeBlockAllocator f) (live : List Region) (layout : Layout) (i k ptr : ℕ)
      (rest : List ℕ) (h : Holding a live)
      → list_index layout ≡ some i
      → layout.align ≡ 2 ^ k
      → of_class i h.frees ≡ ptr ∷ rest
      → Answer a live layout (alloc f a layout)
  alloc_listed-Answer a live layout i k ptr rest h chosen power e =
      let t = take_first i ptr rest h.frees e in
      let left = t.left in
      let whole =
        Perm.trans (Perm.append_left (map lent live) (Perm.map free t.same))
          (perm_middle (map lent live) (map free left)) in
      let held = law.shuffles start size a.fallback_allocator _ _ whole h.held in
      let small = ((list_index-smallest layout).0 i chosen).0 in
      let apart =
        ((Pairwise-cons {R = Apart}).0 (law.apart start size a.fallback_allocator _ held)).0 in
      let out =
        avoids (free (i, ptr)) ptr left (omega arith) (omega (arith, class-positive i small))
          (t.classes h.classes) (λ s m. apart s (mem-append_right (map lent live) m)) in
      let out_of = λ (j : ℕ). All-of_class (λ p. p ≢ ptr) j left out in
      let (a', answer, own, others, same, heads) =
        alloc-first f a layout i chosen (omega (arith, h.heads)) ptr rest
          (subst (FreeList f a i) e (h.chains i)) (subst (All (λ p. p ≢ ptr)) t.own (out_of i)) in
      let fits = law.fits start size a.fallback_allocator _ (ptr, (class_layout i)) held in
      rw answer (
        inr (
          class-Placed start size layout i k ptr chosen power fits,
          record {
            frees = left;
            heads = heads ∙ h.heads;
            classes = t.classes h.classes;
            chains =
                at_every (λ j. FreeList f a' j (of_class j left)) i
                  (subst (FreeList f a' i) (sym t.own) own)
                  (λ j differ.
                    others j (of_class j left) differ (out_of j)
                      (subst (FreeList f a j) (sym (t.others j differ)) (h.chains j)));
            held = rw (chosen, same) held;
          },
        ))

  -- `alloc` where blocks are lent out, of a layout that is aligned to a power of two: it answers
  -- with the null pointer and changes nothing, or with an aligned block that is lent out besides.
  pub alloc-Answer :
      (a : FixedSizeBlockAllocator f) (live : List Region) (layout : Layout) (k : ℕ)
      → Holding a live
      → layout.align ≡ 2 ^ k
      → Answer a live layout (alloc f a layout)
  unfolding alloc
  alloc-Answer a live layout k h power = elim (Option-cases (list_index layout)) [
    | inl e ↦
        rw (e, alloc)
          (fallback_alloc-Answer a live layout layout h (ap (λ o. served_as o layout) e)
            (λ ptr placed. placed))
    | inr (i, chosen) ↦ elim (List-cases (of_class i h.frees)) [
      | inl nothing ↦
          let small = ((list_index-smallest layout).0 i chosen).0 in
          rw
            (alloc-fallback f a layout i chosen (omega (arith, h.heads))
              (subst (FreeList f a i) nothing (h.chains i)))
            (fallback_alloc-Answer a live (class_layout i) layout h
              (ap (λ o. served_as o layout) chosen)
              (λ ptr placed. class-Placed start size layout i k ptr chosen power placed))
      | inr (ptr, rest, e) ↦ alloc_listed-Answer a live layout i k ptr rest h chosen power e
    ]
  ]

  -- `dealloc` of a block that is lent out, with the layout that it was lent out for.
  pub dealloc-Holding :
      (a : FixedSizeBlockAllocator f) (live : List Region) (layout : Layout) (ptr : ℕ)
      → Holding a ((ptr, layout) ∷ live)
      → (a' : FixedSizeBlockAllocator f) × (dealloc f a ptr layout ≡ some a') × Holding a' live
  unfolding dealloc
  dealloc-Holding a live layout ptr h = elim (Option-cases (list_index layout)) [
    | inl e ↦
        let held =
          subst (λ l. law.Holds start size a.fallback_allocator ((ptr, l) ∷ regions live h.frees))
            (ap (λ o. served_as o layout) e) h.held in
        let fits = law.fits start size a.fallback_allocator _ (ptr, layout) held in
        (
          record a { fallback_allocator = f.deallocate ptr layout a.fallback_allocator },
          rw (e, dealloc) (rw (ne→== ptr 0 fits.0, dealloc) refl),
          record {
            frees = h.frees;
            heads = h.heads;
            classes = h.classes;
            chains = h.chains;
            held =
                law.deallocates start size layout a.fallback_allocator (regions live h.frees) ptr
                  held;
          },
        )
    | inr (i, chosen) ↦
        let small = ((list_index-smallest layout).0 i chosen).0 in
        let held =
          subst (λ l. law.Holds start size a.fallback_allocator ((ptr, l) ∷ regions live h.frees))
            (ap (λ o. served_as o layout) chosen) h.held in
        let apart =
          ((Pairwise-cons {R = Apart}).0 (law.apart start size a.fallback_allocator _ held)).0 in
        let out =
          avoids (free (i, ptr)) ptr h.frees (omega arith) (omega (arith, class-positive i small))
            h.classes (λ s m. apart s (mem-append_right (map lent live) m)) in
        let out_of = λ (j : ℕ). All-of_class (λ p. p ≢ ptr) j h.frees out in
        let (a', given_back, own, others, same, heads) =
          dealloc-first f a layout i chosen (omega (arith, h.heads)) ptr (of_class i h.frees)
            (h.chains i) (out_of i) in
        (
          a',
          given_back,
          record {
            frees = (i, ptr) ∷ h.frees;
            heads = heads ∙ h.heads;
            classes = (small, h.classes);
            chains =
                at_every (λ j. FreeList f a' j (of_class j ((i, ptr) ∷ h.frees))) i
                  (rw (==_refl i) own)
                  (λ j differ.
                    rw (ne→== i j differ)
                      (others j (of_class j h.frees) differ (out_of j) (h.chains j)));
            held = rw same (
                law.shuffles start size a.fallback_allocator _ _
                  (Perm.symm (perm_middle (map lent live) (map free h.frees))) held);
          },
        )
  ]
