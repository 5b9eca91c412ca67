-- ===== src/Allocator/Layouts.antt =====
-- How the classes of src/allocators/fixed_size_block.rs serve layouts: sizes, alignments, and
-- regions that share no byte.
use mathlib.Core.List.{Pairwise, Pairwise-cons, mem-append_left, mem-map_of_mem}
use native.Mathlib.Nat.{mod-mod_of_dvd, dvd_of_mod-eq-zero, pow-le-pow_right, zero-mod}
use native.Mathlib.Decide.{dec_lt, ℕ_discrete}
use leaf_os.Common.{
  ℕ, ◌%◌, ◌^◌, ◌≤◌, ◌<◌, ◌≡◌, ◌≢◌, inl, inr, sym, ap, subst, ◌∙◌, some, List, [], ◌∷◌, ◌++◌, map,
  get_or, arith, Option-cases, leb→le,
}
use leaf_os.Allocator.{Layout, block_sizes, list_index}
use leaf_os.Allocator.Sizes.{node-fits, list_index-smallest, list_index-aligned, size-le}
use leaf_os.Allocator.Regions.{Region, Placed, class_layout, Apart, served_as, lent}

pub class-positive : (i : ℕ) → i < 10 → 8 ≤ get_or block_sizes i 0
class-positive i h = leb→le 8 (get_or block_sizes i 0) (node-fits i h)

-- A block of a class is aligned as every layout of that class wants it.
class-aligned :
    (layout : Layout) (i k ptr : ℕ)
    → list_index layout ≡ some i
    → layout.align ≡ 2 ^ k
    → ptr % get_or block_sizes i 0 ≡ 0
    → ptr % layout.align ≡ 0
class-aligned layout i k ptr chosen power aligned =
    let p = (list_index-smallest layout).0 i chosen in
    let small : k < 13 = elim (dec_lt k 13) [
      | yes lt ↦ lt
      | no ge ↦
          let large : 13 ≤ k = omega arith in
          let much : 2 ^ 13 ≤ 2 ^ k = pow-le-pow_right {n = 2} (omega arith) large in
          absurd (omega (arith, p.2, size-le i p.0))
    ] in
    let whole = (list_index-aligned layout i k chosen power small).1 in
    sym (
      mod-mod_of_dvd layout.align ptr
        (dvd_of_mod-eq-zero layout.align {n = get_or block_sizes i 0} whole))
    ∙ ap (λ (n : ℕ). n % layout.align) aligned
    ∙ zero-mod layout.align

-- A block of a class serves a layout of that class where it stands.
pub class-Placed :
    (start size : ℕ) (layout : Layout) (i k ptr : ℕ)
    → list_index layout ≡ some i
    → layout.align ≡ 2 ^ k
    → Placed start size (ptr, class_layout i)
    → Placed start size (ptr, layout)
class-Placed start size layout i k ptr chosen power p = (
  p.0,
  class-aligned layout i k ptr chosen power p.1,
  p.2,
  omega (arith, p.3, ((list_index-smallest layout).0 i chosen).1),
)

-- What holds at one number and at all the others holds at every one.
pub at_every : (P : ℕ → Type 0) (i : ℕ) → P i → ((j : ℕ) → i ≢ j → P j) → (j : ℕ) → P j
at_every P i own others j = elim (ℕ_discrete i j) [
  | yes same ↦ subst P same own
  | no differ ↦ others j differ
]

-- A block is at least as large as the layout that it serves.
pub served-size : (layout : Layout) → layout.size ≤ (served_as (list_index layout) layout).size
served-size layout = elim (Option-cases (list_index layout)) [
  | inl e ↦ rw e (omega arith)
  | inr (i, e) ↦ rw e (((list_index-smallest layout).0 i e).1)
]

lent-Apart : (r s : Region) → Apart (lent r) (lent s) → Apart r s
lent-Apart (p, l) (q, m) apart x a b c d =
    apart x a (omega (arith, served-size l)) c (omega (arith, served-size m))

pub lent-AllApart :
    (live rest : List Region) → Pairwise Apart (map lent live ++ rest) → Pairwise Apart live
lent-AllApart [] rest p = Pairwise.nil
lent-AllApart (r ∷ live) rest p =
    let (first, others) = (Pairwise-cons {R = Apart}).0 p in
    Pairwise.cons
      (λ s m. lent-Apart r s (first (lent s) (mem-append_left rest (mem-map_of_mem lent m))))
      (lent-AllApart live rest others)
