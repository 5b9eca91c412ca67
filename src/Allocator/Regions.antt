-- ===== src/Allocator/Regions.antt =====
-- The memory that src/allocators/fixed_size_block.rs takes from its fallback and hands out: which
-- regions a block and a layout stand for, and when regions share no byte.
use mathlib.Core.List.Perm
use mathlib.Core.List.{Pairwise, Perm}
use leaf_os.Common.{
  Bool-cases, inl, inr, ℕ, ◌+◌, ◌%◌, ◌≤◌, ◌<◌, ◌≡◌, ◌≢◌, ap, subst, Option, none, some, List, [],
  ◌∷◌, get_or, All, arith, ◌==◌, if◌then◌else◌,
}
use leaf_os.Allocator.{Fallback, Layout, block_sizes, list_index}

-- A region begins at its address and is as large and as aligned as its layout says.
abbrev pub Region : Type 0
Region = ℕ × Layout

-- No byte lies in both.
abbrev pub Apart : Region → Region → Type 0
Apart (p, l) (q, m) = (x : ℕ) → p ≤ x → x < p + l.size → q ≤ x → ¬ (x < q + m.size)

pub Apart-prop : (r s : Region) → IsProp (Apart r s)
Apart-prop r s = hlevel

pub Apart-sym : (r s : Region) → Apart r s → Apart s r
Apart-sym r s h x a b c d = h x c d a b

pub AllApart-perm : {rs rs' : List Region} → Perm rs rs' → Pairwise Apart rs → Pairwise Apart rs'
AllApart-perm p = Perm.pairwise {R = Apart} Apart-prop Apart-sym p

-- Every block of a class is as large as the class says, and aligned to that size.
abbrev pub class_layout : ℕ → Layout
class_layout i = record { size = get_or block_sizes i 0; align = get_or block_sizes i 0 }

-- The layout that `alloc` serves a layout with.
abbrev pub served_as : Option ℕ → Layout → Layout
served_as none layout = layout
served_as (some i) layout = class_layout i

-- A block that was handed out for a layout, and a free block of a class.
abbrev pub lent : Region → Region
lent (ptr, layout) = (ptr, served_as (list_index layout) layout)

abbrev pub free : ℕ × ℕ → Region
free (i, ptr) = (ptr, class_layout i)

-- The free blocks of a class.
abbrev pub of_class : ℕ → List (ℕ × ℕ) → List ℕ
of_class i [] = []
of_class i ((j, ptr) ∷ frees) = if j == i then ptr ∷ of_class i frees else of_class i frees

-- A region lies between the bounds, not at the null pointer, and is aligned as its layout says.
abbrev pub Placed : ℕ → ℕ → Region → Type 0
Placed start size (ptr, layout) =
    (ptr ≢ 0) × (ptr % layout.align ≡ 0) × (start ≤ ptr) × (ptr + layout.size ≤ start + size)

-- What the crate `linked_list_allocator` documents of its heap: where a heap with the bounds that
-- `init` got holds regions that were handed out and not given back, they are apart and placed.
pub record Serves (f : Fallback) : Type 1 where
  pub Holds : ℕ → ℕ → f.Heap → List Region → Type 0
  pub shuffles :
      (start size : ℕ) (heap : f.Heap) (rs rs' : List Region)
      → Perm rs rs'
      → Holds start size heap rs
      → Holds start size heap rs'
  pub begins : (start size : ℕ) → Holds start size (f.init start size f.empty) []
  pub allocates :
      (start size : ℕ) (layout : Layout) (heap heap' : f.Heap) (rs : List Region) (ptr : ℕ)
      → Holds start size heap rs
      → f.allocate_first_fit layout heap ≡ some (ptr, heap')
      → Holds start size heap' ((ptr, layout) ∷ rs)
  pub deallocates :
      (start size : ℕ) (layout : Layout) (heap : f.Heap) (rs : List Region) (ptr : ℕ)
      → Holds start size heap ((ptr, layout) ∷ rs)
      → Holds start size (f.deallocate ptr layout heap) rs
  pub apart :
      (start size : ℕ) (heap : f.Heap) (rs : List Region)
      → Holds start size heap rs
      → Pairwise Apart rs
  pub fits :
      (start size : ℕ) (heap : f.Heap) (rs : List Region) (r : Region)
      → Holds start size heap (r ∷ rs)
      → Placed start size r

-- The free block at the head of a class's list, and those that are left without it.
pub record Taken (i ptr : ℕ) (rest : List ℕ) (frees : List (ℕ × ℕ)) : Type 0 where
  pub left : List (ℕ × ℕ)
  pub same : Perm frees ((i, ptr) ∷ left)
  pub own : of_class i left ≡ rest
  pub others : (j : ℕ) → i ≢ j → of_class j left ≡ of_class j frees
  pub classes : All (λ b. b.0 < 10) frees → All (λ b. b.0 < 10) left

pub take_first :
    (i ptr : ℕ) (rest : List ℕ) (frees : List (ℕ × ℕ))
    → of_class i frees ≡ ptr ∷ rest
    → Taken i ptr rest frees
take_first i ptr rest [] e = cc
take_first i ptr rest ((j, p) ∷ frees) e = elim (Bool-cases (j == i)) [
  | inl here ↦
      let same_class : j ≡ i = ground arith in
      let same_block : p ≡ ptr = ground arith in
      record {
        left = frees;
        same =
            subst (λ (b : ℕ × ℕ). Perm ((j, p) ∷ frees) (b ∷ frees))
              (λ k. (same_class k, same_block k)) Perm.rfl;
        own = ground arith;
        others = λ k ne. ground arith;
        classes = λ all. all.1;
      }
  | inr there ↦
      let t = take_first i ptr rest frees (ground arith) in
      record {
        left = (j, p) ∷ t.left;
        same = Perm.trans (Perm.cons (j, p) t.same) (Perm.swap (i, ptr) (j, p) t.left);
        own = rw there t.own;
        others = λ k ne. ap (λ bs. if j == k then p ∷ bs else bs) (t.others k ne);
        classes = λ all. (all.0, t.classes all.1);
      }
]

-- Where no block lies at `ptr`, none of a class does.
pub All-of_class :
    (P : ℕ → Type 0) (i : ℕ) (frees : List (ℕ × ℕ))
    → All (λ b. P b.1) frees
    → All P (of_class i frees)
All-of_class P i [] all = tt
All-of_class P i ((j, p) ∷ frees) all = elim (Bool-cases (j == i)) [
  | inl here ↦ rw here (all.0, All-of_class P i frees all.1)
  | inr there ↦ rw there (All-of_class P i frees all.1)
]
