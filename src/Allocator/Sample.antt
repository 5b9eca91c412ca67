-- ===== src/Allocator/Sample.antt =====
-- A fallback that meets the contract of the crate `linked_list_allocator`, and a history of calls
-- of src/allocators/fixed_size_block.rs.
use mathlib.Core.List.Perm
use mathlib.Core.List.{
  Mem, Pairwise, Pairwise-cons, mem-cons_self, mem-cons_of_mem, eq-or-mem_of_mem-cons, not-mem-nil,
}
use mathlib.Core.Logic.Or
use native.Mathlib.Nat.{mul-mod_left}
use native.Mathlib.Bridge.{le_prop}
use leaf_os.Common.{
  ℕ, ◌^◌, suc, ◌+◌, ◌*◌, ◌≤◌, ◌≡◌, ◌≢◌, refl, sym, subst, Option, none, some, List, ◌∷◌, ◌∙◌, ltb,
  ◌==◌, if◌then◌else◌, arith,
}
use leaf_os.Allocator.{
  Fallback, Layout, FixedSizeBlockAllocator, allocator_new, init, list_index, position, alloc,
  fallback_alloc,
}
use leaf_os.Allocator.Regions.{Placed, Region, Apart, AllApart-perm, Serves}

-- Addresses rise up to an end, each the next multiple but one of what its alignment wants.
abbrev pub rising : Fallback
rising = record {
  Heap = ℕ × ℕ;
  empty = (0, 0);
  init = λ start size heap. (start, start + size);
  allocate_first_fit = λ layout heap.
      let ptr = suc heap.0 * layout.align in
      if layout.align == 0
      then none
      else if ltb heap.1 (ptr + layout.size)
      then none
      else some (ptr, (ptr + layout.size, heap.1));
  deallocate = λ ptr layout heap. heap;
}

Placed-prop : (start size : ℕ) (r : Region) → IsProp (Placed start size r)
Placed-prop start size r = hlevel le_prop

-- What is handed out lies below the next address, and that within the bounds.
record Held (start size : ℕ) (heap : ℕ × ℕ) (rs : List Region) : Type 0 where
  apart : Pairwise Apart rs
  below : (r : Region) → Mem r rs → r.0 + r.1.size ≤ heap.0
  placed : (r : Region) → Mem r rs → Placed start size r
  low : start ≤ heap.0
  high : heap.1 ≡ start + size

Held-allocate :
    (start size : ℕ) (layout : Layout) (heap heap' : ℕ × ℕ) (rs : List Region) (ptr : ℕ)
    → Held start size heap rs
    → rising.allocate_first_fit layout heap ≡ some (ptr, heap')
    → Held start size heap' ((ptr, layout) ∷ rs)
Held-allocate start size layout heap heap' rs ptr h e =
    let at : ptr ≡ suc heap.0 * layout.align = ground arith in
    let next : heap'.0 ≡ ptr + layout.size = ground arith in
    let end : heap'.1 ≡ heap.1 = ground arith in
    let some_align : layout.align ≢ 0 = ground arith in
    let room : ptr + layout.size ≤ heap.1 = ground arith in
    let past : heap.0 + 1 ≤ ptr = grind arith in
    let here : Placed start size (ptr, layout) = (
      omega arith,
      rw at (mul-mod_left (suc heap.0) layout.align),
      omega (arith, h.low),
      omega (arith, h.high),
    ) in
    record {
      apart = Pairwise.cons (λ s m x a b c d. omega (arith, h.below s m)) h.apart;
      below = λ r m.
          Or.elim le_prop (eq-or-mem_of_mem-cons m)
            (λ same. subst (λ (s : Region). s.0 + s.1.size ≤ heap'.0) (sym same) (omega arith))
            (λ old. omega (arith, h.below r old));
      placed = λ r m.
          Or.elim (Placed-prop start size r) (eq-or-mem_of_mem-cons m)
            (λ same. subst (Placed start size) (sym same) here) (h.placed r);
      low = omega (arith, h.low);
      high = end ∙ h.high;
    }

pub rising-Serves : Serves rising
rising-Serves = record {
  Holds = Held;
  shuffles = λ start size heap rs rs' p h. record {
    apart = AllApart-perm p h.apart;
    below = λ r m. h.below r (Perm.subset (Perm.symm p) r m);
    placed = λ r m. h.placed r (Perm.subset (Perm.symm p) r m);
    low = h.low;
    high = h.high;
  };
  begins = λ start size. record {
    apart = Pairwise.nil;
    below = λ r m. absurd (not-mem-nil m);
    placed = λ r m. absurd (not-mem-nil m);
    low = omega arith;
    high = refl;
  };
  allocates = Held-allocate;
  deallocates = λ start size layout heap rs ptr h. record {
    apart = ((Pairwise-cons {R = Apart}).0 h.apart).1;
    below = λ r m. h.below r (mem-cons_of_mem (ptr, layout) m);
    placed = λ r m. h.placed r (mem-cons_of_mem (ptr, layout) m);
    low = h.low;
    high = h.high;
  };
  apart = λ start size heap rs h. h.apart;
  fits = λ start size heap rs r h. h.placed r mem-cons_self;
}

abbrev pub no_links : ℕ → Option ℕ
no_links p = none

abbrev pub large : Layout
large = record { size = 5000; align = 2 ^ 0 }

abbrev pub heap_new : FixedSizeBlockAllocator rising
heap_new = init rising (allocator_new rising no_links) 0x444444440000 1024000

abbrev pub heap_used : FixedSizeBlockAllocator rising
heap_used = record heap_new {
  fallback_allocator = (0x444444440000 + 5001, 0x444444440000 + 1024000);
}

pub alloc-large : alloc rising heap_new large ≡ (0x444444440001, heap_used)
unfolding alloc fallback_alloc list_index position allocator_new init
alloc-large = refl
