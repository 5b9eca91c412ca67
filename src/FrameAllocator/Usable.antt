-- ===== src/FrameAllocator/Usable.antt =====
-- Which frames `allocate_frame` of src/memory.rs hands out: those of the usable regions, and all of
-- them.
use leaf_os.Common.{
  ℕ, zero, suc, ◌+◌, ◌*◌, ◌≤◌, ◌<◌, ◌≡◌, ◌⊎◌, ◌↔◌, refl, sym, ap, ◌∙◌, inl, inr, true, some, List,
  [], ◌∷◌, ◌++◌, map, ltb, Bool-cases, get_elem?, arith,
}
use leaf_os.FrameAllocator.{
  Region, frame_size, step_by, region_addresses, frame_addresses, Paging, allocator_init,
  usable_frames, allocate_frame,
}
use leaf_os.FrameAllocator.Frames.{after, allocate_frame-after, get_elem?-map}

-- The address of a frame that begins in a usable region of the memory map.
abbrev pub IsUsable : List Region → ℕ → Type 0
IsUsable regions addr =
    (i : ℕ) × (r : Region) × (k : ℕ) × (get_elem? regions i ≡ some r)
    × (r.usable ≡ true)
    × (addr ≡ r.start_addr + frame_size * k)
    × (addr < r.end_addr)

abbrev At : {A : Type 0} → List A → A → Type 0
At xs x = (n : ℕ) × (get_elem? xs n ≡ some x)

At-cons : {A : Type 0} (y : A) (xs : List A) (x : A) → At xs x → At (y ∷ xs) x
At-cons y xs x (n, e) = (suc n, e)

At-append_left :
    {A : Type 0} (xs ys : List A) (n : ℕ) (x : A) → get_elem? xs n ≡ some x → At (xs ++ ys) x
At-append_left [] ys n x h = cc
At-append_left (y ∷ xs) ys zero x h = (0, h)
At-append_left (y ∷ xs) ys (suc n) x h = At-cons y (xs ++ ys) x (At-append_left xs ys n x h)

At-append_right : {A : Type 0} (xs ys : List A) (x : A) → At ys x → At (xs ++ ys) x
At-append_right [] ys x h = h
At-append_right (y ∷ xs) ys x h = At-cons y (xs ++ ys) x (At-append_right xs ys x h)

At-append_cases :
    {A : Type 0} (xs ys : List A) (n : ℕ) (x : A)
    → get_elem? (xs ++ ys) n ≡ some x
    → (get_elem? xs n ≡ some x) ⊎ At ys x
At-append_cases [] ys n x h = inr (n, h)
At-append_cases (y ∷ xs) ys zero x h = inl h
At-append_cases (y ∷ xs) ys (suc n) x h = At-append_cases xs ys n x h

get_elem?-map-some :
    {A : Type 0} {B : Type 0} (f : A → B) (xs : List A) (i : ℕ) (x : A)
    → get_elem? xs i ≡ some x
    → get_elem? (map f xs) i ≡ some (f x)
get_elem?-map-some f [] i x h = cc
get_elem?-map-some f (y ∷ xs) zero x h = ground arith
get_elem?-map-some f (y ∷ xs) (suc i) x h = get_elem?-map-some f xs i x h

-- The steps of a range, from both sides.
step_by-has :
    (fuel addr end_addr k : ℕ)
    → end_addr ≤ addr + fuel
    → addr + frame_size * k < end_addr
    → get_elem? (step_by fuel addr end_addr) k ≡ some (addr + frame_size * k)
unfolding step_by
step_by-has zero addr end_addr k enough lt = absurd (omega arith)
step_by-has (suc fuel) addr end_addr zero enough lt =
    let more : ltb addr end_addr ≡ true = ground arith in rw more (ap some (omega arith))
step_by-has (suc fuel) addr end_addr (suc k) enough lt =
    let more : ltb addr end_addr ≡ true = ground arith in
    rw more (
      step_by-has fuel (addr + frame_size) end_addr k (omega arith) (omega arith)
      ∙ ap some (omega arith))

step_by-only :
    (fuel addr end_addr k x : ℕ)
    → get_elem? (step_by fuel addr end_addr) k ≡ some x
    → (x ≡ addr + frame_size * k) × (x < end_addr)
unfolding step_by
step_by-only zero addr end_addr k x h = cc
step_by-only (suc fuel) addr end_addr zero x h = ground arith
step_by-only (suc fuel) addr end_addr (suc k) x h = elim (Bool-cases (ltb addr end_addr)) [
  | inl more ↦
      let ih = step_by-only fuel (addr + frame_size) end_addr k x (rw more at h) in
      omega (arith, ih)
  | inr done ↦ cc (done, h)
]

frame_addresses-has :
    (regions : List Region) (i : ℕ) (r : Region) (k : ℕ)
    → get_elem? regions i ≡ some r
    → r.usable ≡ true
    → r.start_addr + frame_size * k < r.end_addr
    → At (frame_addresses regions) (r.start_addr + frame_size * k)
unfolding frame_addresses region_addresses
frame_addresses-has [] i r k h u lt = cc
frame_addresses-has (s ∷ rest) zero r k h u lt =
    let same : s ≡ r = cc h in
    let first : get_elem? (region_addresses s) k ≡ some (r.start_addr + frame_size * k) =
      rw same (step_by-has r.end_addr r.start_addr r.end_addr k (omega arith) lt) in
    let usable : s.usable ≡ true = ap (λ (x : Region). x.usable) same ∙ u in
    rw usable (At-append_left (region_addresses s) (frame_addresses rest) k _ first)
frame_addresses-has (s ∷ rest) (suc i) r k h u lt =
    let ih = frame_addresses-has rest i r k h u lt in
    elim (Bool-cases s.usable) [
      | inl e ↦ rw e (At-append_right (region_addresses s) (frame_addresses rest) _ ih)
      | inr e ↦ rw e ih
    ]

IsUsable-cons : (s : Region) (rest : List Region) (x : ℕ) → IsUsable rest x → IsUsable (s ∷ rest) x
IsUsable-cons s rest x (i, r, k, at, usable, start, inside) =
    (suc i, r, k, at, usable, start, inside)

frame_addresses-only :
    (regions : List Region) (n x : ℕ)
    → get_elem? (frame_addresses regions) n ≡ some x
    → IsUsable regions x
unfolding frame_addresses region_addresses
frame_addresses-only [] n x h = cc
frame_addresses-only (s ∷ rest) n x h = elim (Bool-cases s.usable) [
  | inl e ↦ elim (At-append_cases (region_addresses s) (frame_addresses rest) n x (rw e at h)) [
    | inl (own) ↦
        let (at_step, inside) = step_by-only s.end_addr s.start_addr s.end_addr n x own in
        (0, s, n, refl, e, at_step, inside)
    | inr (m, later) ↦ IsUsable-cons s rest x (frame_addresses-only rest m x later)
  ]
  | inr e ↦ IsUsable-cons s rest x (frame_addresses-only rest n x (rw e at h))
]

module _ (p : Paging) where
  -- The frames that an allocator which starts at the memory map hands out are those that begin in
  -- a usable region at a multiple of 4096 from its start, and no others; and each of these is
  -- handed out, after some number of allocations.
  pub allocate_frame-IsUsable :
      (regions : List Region) (f : p.Frame)
      → ((n : ℕ) × ((allocate_frame p (after p n (allocator_init regions))).0 ≡ some f))
        ↔ ((addr : ℕ) × IsUsable regions addr × (f ≡ p.frame_containing addr))
  unfolding usable_frames
  allocate_frame-IsUsable regions f = (
    λ given.
        let (addr, at_addr, is_frame) =
          get_elem?-map p.frame_containing (frame_addresses regions) (0 + given.0) f
            (sym (allocate_frame-after p given.0 (allocator_init regions)) ∙ given.1) in
        (addr, frame_addresses-only regions (0 + given.0) addr at_addr, is_frame),
    λ usable.
        let (addr, (i, r, k, at, is_usable, start, inside), is_frame) = usable in
        let (n, at_addr) =
          frame_addresses-has regions i r k at is_usable (omega (arith, start, inside)) in
        let zero_more : 0 + n ≡ n = omega arith in
        (
          n,
          allocate_frame-after p n (allocator_init regions)
              ∙ ap (λ (m : ℕ). get_elem? (usable_frames p (allocator_init regions)) m) zero_more
              ∙ get_elem?-map-some p.frame_containing (frame_addresses regions) n _ at_addr
              ∙ ap (λ (x : ℕ). some (p.frame_containing x)) (sym start)
              ∙ ap some (sym is_frame),
        ),
  )
