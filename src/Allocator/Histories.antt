-- ===== src/Allocator/Histories.antt =====
-- Every history of calls of src/allocators/fixed_size_block.rs in which the clients give back what
-- they were given, and write only where they may.
use mathlib.Core.List.Perm
use mathlib.Core.List.{
  Mem, Pairwise, Pairwise-cons, Perm, mem-append_right, mem-cons_of_mem, eq-or-mem_of_mem-cons,
  not-mem-nil,
}
use mathlib.Core.Logic.Or
use native.Mathlib.Bridge.{le_prop}
use leaf_os.Common.{
  ℕ, zero, suc, ◌+◌, ◌^◌, ◌≤◌, ◌<◌, ◌≡◌, ◌≢◌, ◌⊎◌, inl, inr, refl, sym, ap, subst, ◌∙◌, Option,
  none, some, List, [], ◌∷◌, map, All, arith,
}
use leaf_os.Allocator.{
  Fallback, Layout, list_head, FixedSizeBlockAllocator, allocator_new, init, update_link, alloc,
  dealloc,
}
use leaf_os.Allocator.Regions.{Placed, Region, Apart, lent, free, of_class, Serves, All-of_class}
use leaf_os.Allocator.Blocks.{Chain-update}
use leaf_os.Allocator.Layouts.{served-size, lent-AllApart}
use leaf_os.Allocator.Owned.{avoids, Holding, alloc-Answer, dealloc-Holding}

module _ (f : Fallback) where
  -- What may have happened since `init`, and the blocks that are lent out then: a call of `alloc`
  -- for a layout aligned to a power of two, which may fail, a block given back by `dealloc` with
  -- the layout that it was lent out for, or a node's place overwritten in a block that is lent out.
  pub data Reach (links : ℕ → Option ℕ) (start size : ℕ)
      : FixedSizeBlockAllocator f → List Region → Type 0 where
    begun : Reach links start size (init f (allocator_new f links) start size) []
    allocated :
        {a a' : FixedSizeBlockAllocator f} {live : List Region} (layout : Layout) (k ptr : ℕ)
        → Reach links start size a live
        → layout.align ≡ 2 ^ k
        → alloc f a layout ≡ (ptr, a')
        → ptr ≢ 0
        → Reach links start size a' ((ptr, layout) ∷ live)
    refused :
        {a a' : FixedSizeBlockAllocator f} {live : List Region} (layout : Layout) (k : ℕ)
        → Reach links start size a live
        → layout.align ≡ 2 ^ k
        → alloc f a layout ≡ (0, a')
        → Reach links start size a' live
    given_back :
        {a a' : FixedSizeBlockAllocator f} {live rest : List Region} (layout : Layout) (ptr : ℕ)
        → Reach links start size a live
        → Perm live ((ptr, layout) ∷ rest)
        → dealloc f a ptr layout ≡ some a'
        → Reach links start size a' rest
    written :
        {a : FixedSizeBlockAllocator f} {live rest : List Region} (layout : Layout) (ptr p : ℕ)
        (value : Option ℕ)
        → Reach links start size a live
        → Perm live ((ptr, layout) ∷ rest)
        → ptr ≤ p
        → p < ptr + layout.size
        → Reach links start size (record a { links = update_link a.links p value }) live

heads-none :
    (heads : List (Option ℕ)) (i : ℕ) → All (λ h. h ≡ none) heads → list_head heads i ≡ none
heads-none [] i all = refl
heads-none (h ∷ heads) zero all = all.0
heads-none (h ∷ heads) (suc i) all = heads-none heads i all.1

Placed-prop : (start size : ℕ) (r : Region) → IsProp (Placed start size r)
Placed-prop start size r = hlevel le_prop

abbrev AllPlaced : ℕ → ℕ → List Region → Type 0
AllPlaced start size live = (r : Region) → Mem r live → Placed start size r

AllPlaced-cons :
    (start size : ℕ) (r : Region) (live : List Region)
    → Placed start size r
    → AllPlaced start size live
    → AllPlaced start size (r ∷ live)
AllPlaced-cons start size r live placed all s m =
    Or.elim (Placed-prop start size s) (eq-or-mem_of_mem-cons m)
      (λ same. subst (Placed start size) (sym same) placed) (all s)

module _ (f : Fallback) (law : Serves f) where
  Holding-init :
      (links : ℕ → Option ℕ) (start size : ℕ)
      → Holding f law start size (init f (allocator_new f links) start size) []
  unfolding allocator_new init
  Holding-init links start size = record {
    frees = [];
    heads = refl;
    classes = tt;
    chains =
        λ i. heads-none (init f (allocator_new f links) start size).list_heads i (ground arith);
    held = law.begins start size;
  }

  Holding-perm :
      (start size : ℕ) (a : FixedSizeBlockAllocator f) (live live' : List Region)
      → Perm live live'
      → Holding f law start size a live
      → Holding f law start size a live'
  Holding-perm start size a live live' p h = record {
    frees = h.frees;
    heads = h.heads;
    classes = h.classes;
    chains = h.chains;
    held =
        law.shuffles start size a.fallback_allocator _ _
          (Perm.append_right (map free h.frees) (Perm.map lent p)) h.held;
  }

  -- A client that writes into its own block leaves the lists of free blocks alone.
  Holding-written :
      (start size : ℕ) (a : FixedSizeBlockAllocator f) (live : List Region) (layout : Layout)
      (ptr p : ℕ) (value : Option ℕ)
      → ptr ≤ p
      → p < ptr + layout.size
      → Holding f law start size a ((ptr, layout) ∷ live)
      → Holding f law start size
          (record a { links = update_link a.links p value })
          ((ptr, layout) ∷ live)
  Holding-written start size a live layout ptr p value lo hi h =
      let apart =
        ((Pairwise-cons {R = Apart}).0 (law.apart start size a.fallback_allocator _ h.held)).0 in
      let out =
        avoids (lent (ptr, layout)) p h.frees lo (omega (arith, served-size layout)) h.classes
          (λ s m. apart s (mem-append_right (map lent live) m)) in
      record {
        frees = h.frees;
        heads = h.heads;
        classes = h.classes;
        chains = λ i.
            Chain-update a.links p value (list_head a.list_heads i) (of_class i h.frees)
              (All-of_class (λ q. q ≢ p) i h.frees out) (h.chains i);
        held = h.held;
      }

  answered :
      (start size : ℕ) (a a' : FixedSizeBlockAllocator f) (live : List Region) (layout : Layout)
      (k ptr : ℕ)
      → Holding f law start size a live
      → layout.align ≡ 2 ^ k
      → alloc f a layout ≡ (ptr, a')
      → ((ptr ≡ 0) × (a' ≡ a))
        ⊎ (Placed start size (ptr, layout) × Holding f law start size a' ((ptr, layout) ∷ live))
  answered start size a a' live layout k ptr h power e =
      elim (alloc-Answer f law start size a live layout k h power) [
        | inl (null, same) ↦ inl (sym (ap (λ r. r.0) e) ∙ null, sym (ap (λ r. r.1) e) ∙ same)
        | inr (placed, holding) ↦
            subst
              (λ r.
                ((r.0 ≡ 0) × (r.1 ≡ a))
                ⊎ (Placed start size (r.0, layout)
                    × Holding f law start size r.1 ((r.0, layout) ∷ live)))
              e (inr (placed, holding))
      ]

  Reach-Holding :
      {links : ℕ → Option ℕ} {start size : ℕ} {a : FixedSizeBlockAllocator f} {live : List Region}
      → Reach f links start size a live
      → Holding f law start size a live × AllPlaced start size live
  Reach-Holding {links} {start} {size} begun =
      (Holding-init links start size, λ r m. absurd (not-mem-nil m))
  Reach-Holding {links} {start} {size}
        (allocated {a} {a'} {live} layout k ptr before power e not_null) =
      let (h, all) = Reach-Holding before in
      elim (answered start size a a' live layout k ptr h power e) [
        | inl (null, same) ↦ absurd (not_null null)
        | inr (placed, holding) ↦ (holding, AllPlaced-cons start size (ptr, layout) live placed all)
      ]
  Reach-Holding {links} {start} {size} (refused {a} {a'} {live} layout k before power e) =
      let (h, all) = Reach-Holding before in
      elim (answered start size a a' live layout k 0 h power e) [
        | inl (null, same) ↦ (subst (λ b. Holding f law start size b live) (sym same) h, all)
        | inr (placed, holding) ↦ absurd (placed.0 refl)
      ]
  Reach-Holding {links} {start} {size}
        (given_back {a} {a'} {live} {rest} layout ptr before shuffled e) =
      let (h, all) = Reach-Holding before in
      let (a'', returned, holding) =
        dealloc-Holding f law start size a rest layout ptr
          (Holding-perm start size a live _ shuffled h) in
      let same : a'' ≡ a' = cc in
      (
        subst (λ b. Holding f law start size b rest) same holding,
        λ r m. all r (Perm.subset (Perm.symm shuffled) r (mem-cons_of_mem (ptr, layout) m)),
      )
  Reach-Holding {links} {start} {size}
        (written {a} {live} {rest} layout ptr p value before shuffled lo hi) =
      let (h, all) = Reach-Holding before in
      (
        Holding-perm start size _ _ live (Perm.symm shuffled) (
            Holding-written start size a rest layout ptr p value lo hi
              (Holding-perm start size a live _ shuffled h)),
        all,
      )

  -- No two clients share a byte. Take a fallback that keeps its documented contract, and any history
  -- since `init` in which `alloc` is asked for alignments that are powers of two, clients give back
  -- what they got with the layout that they got it for, and write only into their own blocks: the
  -- blocks that are lent out are apart from one another, and each lies between the heap's bounds,
  -- not at the null pointer, and is aligned as its layout asks.
  pub Reach-Apart :
      {links : ℕ → Option ℕ} {start size : ℕ} {a : FixedSizeBlockAllocator f} {live : List Region}
      → Reach f links start size a live
      → Pairwise Apart live × ((r : Region) → Mem r live → Placed start size r)
  Reach-Apart {start = start} {size = size} {a = a} {live = live} history =
      let (h, all) = Reach-Holding history in
      (
        lent-AllApart live (map free h.frees) (law.apart start size a.fallback_allocator _ h.held),
        all,
      )

  -- With such a fallback and after such a history, a block that is lent out can be given back with
  -- the layout that it was lent out for: `dealloc` does not panic, and the history goes on with the
  -- other blocks lent out.
  pub Reach-dealloc :
      {links : ℕ → Option ℕ} {start size : ℕ} {a : FixedSizeBlockAllocator f}
      {live rest : List Region} (layout : Layout) (ptr : ℕ)
      → Reach f links start size a live
      → Perm live ((ptr, layout) ∷ rest)
      → (a' : FixedSizeBlockAllocator f) × (dealloc f a ptr layout ≡ some a')
        × Reach f links start size a' rest
  Reach-dealloc {start = start} {size = size} {a = a} {live = live} {rest = rest} layout ptr history
        shuffled =
      let (h, all) = Reach-Holding history in
      let (a', returned, holding) =
        dealloc-Holding f law start size a rest layout ptr
          (Holding-perm start size a live _ shuffled h) in
      (a', returned, given_back layout ptr history shuffled returned)
