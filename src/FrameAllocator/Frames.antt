-- ===== src/FrameAllocator/Frames.antt =====
-- The frames that `allocate_frame` of src/memory.rs hands out.
use leaf_os.Common.{
  false, ℕ, zero, suc, ◌+◌, ◌%◌, ◌≤◌, ◌<◌, ◌≡◌, refl, sym, ap, ◌∙◌, inl, inr, none, some, List, [],
  ◌∷◌, ◌++◌, map, ltb, if◌then◌else◌, Bool-cases, get_elem?, arith,
}
use leaf_os.FrameAllocator.{
  Region, BootInfoFrameAllocator, frame_size, step_by, region_addresses, frame_addresses, Paging,
  usable_frames, allocate_frame,
}

-- The regions of a memory map are in order, do not overlap, and begin and end at frame bounds.
abbrev pub IsSorted : ℕ → List Region → Type 0
IsSorted lo [] = Unit
IsSorted lo (r ∷ rest) =
    (lo ≤ r.start_addr)
    × (r.start_addr ≤ r.end_addr)
    × (r.start_addr % frame_size ≡ 0)
    × (r.end_addr % frame_size ≡ 0)
    × IsSorted r.end_addr rest

-- Addresses of whole frames, from `lo` on and in order, one frame apart at least.
abbrev pub Ascending : ℕ → List ℕ → Type 0
Ascending lo [] = Unit
Ascending lo (a ∷ rest) = (lo ≤ a) × (a % frame_size ≡ 0) × Ascending (a + frame_size) rest

Ascending-weaken :
    (lo lo' : ℕ) (addrs : List ℕ) → lo' ≤ lo → Ascending lo addrs → Ascending lo' addrs
Ascending-weaken lo lo' [] h s = tt
Ascending-weaken lo lo' (a ∷ rest) h s = (omega arith, s.1, s.2)

step_by-past : (fuel addr end_addr : ℕ) → end_addr ≤ addr → step_by fuel addr end_addr ≡ []
unfolding step_by
step_by-past zero addr end_addr h = refl
step_by-past (suc fuel) addr end_addr h =
    let done : ltb addr end_addr ≡ false = ground arith in rw done refl

-- Fuel that reaches the end address is enough: any two such amounts give the same addresses.
step_by-enough :
    (fuel fuel' addr end_addr : ℕ)
    → end_addr ≤ addr + fuel
    → end_addr ≤ addr + fuel'
    → step_by fuel addr end_addr ≡ step_by fuel' addr end_addr
unfolding step_by
step_by-enough zero fuel' addr end_addr h h' = sym (step_by-past fuel' addr end_addr (omega arith))
step_by-enough (suc fuel) zero addr end_addr h h' =
    step_by-past (suc fuel) addr end_addr (omega arith)
step_by-enough (suc fuel) (suc fuel') addr end_addr h h' =
    ap (λ rest. if ltb addr end_addr then addr ∷ rest else [])
      (step_by-enough fuel fuel' (addr + frame_size) end_addr (omega arith) (omega arith))

step_by-append :
    (fuel addr end_addr : ℕ) (rest : List ℕ)
    → addr % frame_size ≡ 0
    → end_addr % frame_size ≡ 0
    → addr ≤ end_addr
    → Ascending end_addr rest
    → Ascending addr (step_by fuel addr end_addr ++ rest)
unfolding step_by
step_by-append zero addr end_addr rest ha he h s = Ascending-weaken end_addr addr rest h s
step_by-append (suc fuel) addr end_addr rest ha he h s = elim (Bool-cases (ltb addr end_addr)) [
  | inl more ↦ rw more (
    omega arith,
    ha,
    step_by-append fuel (addr + frame_size) end_addr rest (omega arith) he (ground arith) s,
  )
  | inr done ↦ rw done (Ascending-weaken end_addr addr rest h s)
]

frame_addresses-Ascending :
    (lo : ℕ) (regions : List Region) → IsSorted lo regions → Ascending lo (frame_addresses regions)
unfolding frame_addresses region_addresses
frame_addresses-Ascending lo [] s = tt
frame_addresses-Ascending lo (r ∷ rest) s =
    let ih = frame_addresses-Ascending r.end_addr rest s.4 in
    elim (Bool-cases r.usable) [
      | inl yes_usable ↦ simp yes_usable (
          Ascending-weaken r.start_addr lo _ s.0 (
            step_by-append r.end_addr r.start_addr r.end_addr (frame_addresses rest) s.2 s.3 s.1
              ih))
      | inr not_usable ↦ simp not_usable (Ascending-weaken r.end_addr lo _ (omega arith) ih)
    ]

Ascending-later :
    (lo : ℕ) (addrs : List ℕ) (i a : ℕ)
    → Ascending lo addrs
    → get_elem? addrs i ≡ some a
    → (lo ≤ a) × (a % frame_size ≡ 0)
Ascending-later lo [] i a s h = cc
Ascending-later lo (x ∷ rest) zero a s h = ground arith
Ascending-later lo (x ∷ rest) (suc i) a s h =
    omega (arith, Ascending-later (x + frame_size) rest i a s.2 h)

-- Of two frames the later one begins behind the end of the earlier one.
Ascending-apart :
    (lo : ℕ) (addrs : List ℕ) (i j a b : ℕ)
    → Ascending lo addrs
    → i < j
    → get_elem? addrs i ≡ some a
    → get_elem? addrs j ≡ some b
    → a + frame_size ≤ b
Ascending-apart lo [] i j a b s lt ha hb = cc
Ascending-apart lo (x ∷ rest) i zero a b s lt ha hb = absurd (omega arith)
Ascending-apart lo (x ∷ rest) zero (suc j) a b s lt ha hb =
    let same : x ≡ a = ground arith in
    omega (arith, Ascending-later (x + frame_size) rest j b s.2 hb)
Ascending-apart lo (x ∷ rest) (suc i) (suc j) a b s lt ha hb =
    Ascending-apart (x + frame_size) rest i j a b s.2 (omega arith) ha hb

pub get_elem?-map :
    {A : Type 0} {B : Type 0} (f : A → B) (xs : List A) (i : ℕ) (y : B)
    → get_elem? (map f xs) i ≡ some y
    → (x : A) × (get_elem? xs i ≡ some x) × (y ≡ f x)
get_elem?-map f [] i y h = cc
get_elem?-map f (x ∷ xs) zero y h = (x, refl, ground arith)
get_elem?-map f (x ∷ xs) (suc i) y h = get_elem?-map f xs i y h

get_elem?-past :
    {A : Type 0} (xs : List A) (i j : ℕ) → i ≤ j → get_elem? xs i ≡ none → get_elem? xs j ≡ none
get_elem?-past [] i j le h = refl
get_elem?-past (x ∷ xs) zero j le h = cc
get_elem?-past (x ∷ xs) (suc i) zero le h = absurd (omega arith)
get_elem?-past (x ∷ xs) (suc i) (suc j) le h = get_elem?-past xs i j (omega arith) h

module _ (p : Paging) where
  -- The frame allocator after some allocations.
  unfoldable pub after : ℕ → BootInfoFrameAllocator → BootInfoFrameAllocator
  after zero a = a
  after (suc n) a = after n (allocate_frame p a).1

  after-fields :
      (n : ℕ) (a : BootInfoFrameAllocator)
      → ((after n a).memory_map ≡ a.memory_map) × ((after n a).next ≡ a.next + n)
  unfolding after allocate_frame
  after-fields zero a = (refl, omega arith)
  after-fields (suc n) a =
      let ih = after-fields n (record a { next = a.next + 1 }) in (ih.0, omega (arith, ih.1))

  pub allocate_frame-after :
      (n : ℕ) (a : BootInfoFrameAllocator)
      → (allocate_frame p (after n a)).0 ≡ get_elem? (usable_frames p a) (a.next + n)
  unfolding allocate_frame usable_frames
  allocate_frame-after n a =
      let fields = after-fields n a in
      ap (λ regions. get_elem? (map p.frame_containing (frame_addresses regions)) (after n a).next)
        fields.0
      ∙ ap (λ (i : ℕ). get_elem? (map p.frame_containing (frame_addresses a.memory_map)) i) fields.1

  -- No frame is handed out twice: if the memory map is sorted, without overlap, and in whole
  -- frames, of two allocations the later one gets the frame of an address that lies behind the
  -- whole frame of the earlier one, both addresses being frame bounds.
  pub allocate_frame-apart :
      (a : BootInfoFrameAllocator) (n m : ℕ) (f g : p.Frame)
      → IsSorted 0 a.memory_map
      → n < m
      → (allocate_frame p (after n a)).0 ≡ some f
      → (allocate_frame p (after m a)).0 ≡ some g
      → (x : ℕ) × (y : ℕ) × (f ≡ p.frame_containing x)
        × (g ≡ p.frame_containing y)
        × (x % frame_size ≡ 0)
        × (y % frame_size ≡ 0)
        × (x + frame_size ≤ y)
  unfolding usable_frames
  allocate_frame-apart a n m f g sorted lt hf hg =
      let addrs = frame_addresses a.memory_map in
      let up = frame_addresses-Ascending 0 a.memory_map sorted in
      let (x, at_x, is_x) =
        get_elem?-map p.frame_containing addrs (a.next + n) f
          (sym (allocate_frame-after n a) ∙ hf) in
      let (y, at_y, is_y) =
        get_elem?-map p.frame_containing addrs (a.next + m) g
          (sym (allocate_frame-after m a) ∙ hg) in
      (
        x,
        y,
        is_x,
        is_y,
        (Ascending-later 0 addrs (a.next + n) x up at_x).1,
        (Ascending-later 0 addrs (a.next + m) y up at_y).1,
        Ascending-apart 0 addrs (a.next + n) (a.next + m) x y up (omega arith) at_x at_y,
      )

  -- An allocator that has no frame left after some allocations has none after more of them either.
  pub allocate_frame-exhausted :
      (a : BootInfoFrameAllocator) (n m : ℕ)
      → n ≤ m
      → (allocate_frame p (after n a)).0 ≡ none
      → (allocate_frame p (after m a)).0 ≡ none
  allocate_frame-exhausted a n m le h =
      allocate_frame-after m a
      ∙ get_elem?-past (usable_frames p a) (a.next + n) (a.next + m) (omega arith)
          (sym (allocate_frame-after n a) ∙ h)
