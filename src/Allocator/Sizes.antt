-- ===== src/Allocator/Sizes.antt =====
-- The size class that src/allocators/fixed_size_block.rs chooses for a layout.
use leaf_os.Common.{
  leb→le, ℕ, zero, suc, max, ◌%◌, ◌^◌, ◌≤◌, ◌<◌, ◌≡◌, refl, inl, inr, Bool, true, not, ◌||◌, none,
  some, List, [], ◌∷◌, leb, ◌==◌, Bool-cases, Option-cases, get_or, length, ◌↔◌, arith,
}
use leaf_os.Common.Tables.{pass_below, pass_below-entry}
use leaf_os.Allocator.{Layout, block_sizes, position, list_index}

position-some :
    (sizes : List ℕ) (required i : ℕ)
    → position sizes required ≡ some i
    → (i < length sizes)
      × (required ≤ get_or sizes i 0)
      × ((j : ℕ) → j < i → get_or sizes j 0 < required)
unfolding position
position-some [] required i h = cc
position-some (s ∷ rest) required i h = elim (Bool-cases (leb required s)) [
  | inl fits ↦
      let first : i ≡ 0 = ground arith in
      (omega arith, rw first (ground arith), λ j lt. absurd (omega arith))
  | inr small ↦ elim (Option-cases (position rest required)) [
    | inl missing ↦ ground arith
    | inr (k, found) ↦
        let later : i ≡ suc k = ground arith in
        let ih = position-some rest required k found in
        rw later (
          omega (arith, ih.0),
          ih.1,
          elim [ zero ↦ λ lt. ground arith | suc j ↦ λ lt. ih.2 j (omega arith) ],
        )
  ]
]

position-none :
    (sizes : List ℕ) (required : ℕ)
    → position sizes required ≡ none
    → (j : ℕ) → j < length sizes
    → get_or sizes j 0 < required
unfolding position
position-none [] required h j lt = absurd (omega arith)
position-none (s ∷ rest) required h zero lt = ground arith
position-none (s ∷ rest) required h (suc j) lt = elim (Option-cases (position rest required)) [
  | inl missing ↦ position-none rest required missing j (omega arith)
  | inr found ↦ ground arith
]

pub size-le : (i : ℕ) → i < 10 → get_or block_sizes i 0 ≤ 4096
unfolding pass_below
size-le i h =
    leb→le _ _ (pass_below-entry 10 (λ j. leb (get_or block_sizes j 0) 4096) i refl_table h)
  where
    refl_table : pass_below 10 (λ j. leb (get_or block_sizes j 0) 4096) ≡ true
    refl_table = refl

-- Every power of two up to 4096 divides every block size that is not below it.
abbrev divides : ℕ → ℕ → Bool
divides k i = not (leb (2 ^ k) (get_or block_sizes i 0)) || get_or block_sizes i 0 % 2 ^ k == 0

divides_table : pass_below 13 (λ k. pass_below 10 (λ i. divides k i)) ≡ true
unfolding pass_below
divides_table = refl

divides_at : (k i : ℕ) → k < 13 → i < 10 → divides k i ≡ true
divides_at k i hk hi =
    pass_below-entry 10 (λ j. divides k j) i
      (pass_below-entry 13 (λ n. pass_below 10 (λ j. divides n j)) k divides_table hk) hi

-- Every block holds a node.
pub node-fits : (i : ℕ) → i < 10 → leb 8 (get_or block_sizes i 0) ≡ true
unfolding pass_below
node-fits i h = pass_below-entry 10 (λ j. leb 8 (get_or block_sizes j 0)) i refl h

-- `list_index` chooses the smallest block size that is at least the layout's size and alignment,
-- and none exactly if the size or the alignment is above 4096.
pub list_index-smallest :
    (layout : Layout)
    → ((i : ℕ)
        → list_index layout ≡ some i
        → (i < 10)
          × (layout.size ≤ get_or block_sizes i 0)
          × (layout.align ≤ get_or block_sizes i 0)
          × ((j : ℕ) → j < i → get_or block_sizes j 0 < max layout.size layout.align))
      × ((list_index layout ≡ none) ↔ (4096 < max layout.size layout.align))
unfolding list_index
list_index-smallest layout =
    let required = max layout.size layout.align in
    (
      λ i h.
          let p = position-some block_sizes required i h in
          (p.0, omega (arith, p.1), omega (arith, p.1), p.2),
      (
        λ h. position-none block_sizes required h 9 (omega arith),
        λ large. elim (Option-cases (position block_sizes required)) [
          | inl e ↦ e
          | inr (i, h) ↦
              let p = position-some block_sizes required i h in
              absurd (omega (arith, p.1, size-le i p.0))
        ],
      ),
    )

-- A block of the chosen size, aligned to its own size, serves a layout whose alignment is a power
-- of two up to 4096: the block is large enough, and its alignment is a multiple of the layout's.
pub list_index-aligned :
    (layout : Layout) (i k : ℕ)
    → list_index layout ≡ some i
    → layout.align ≡ 2 ^ k
    → k < 13
    → (layout.size ≤ get_or block_sizes i 0) × (get_or block_sizes i 0 % layout.align ≡ 0)
list_index-aligned layout i k h power small =
    let p = (list_index-smallest layout).0 i h in
    let le : 2 ^ k ≤ get_or block_sizes i 0 = rw (← power) p.2 in
    (p.1, rw power (ground (arith, divides_at k i small p.0)))
