-- ===== src/Containers/RingBuffer.antt =====
-- src/data_structures/ring_buffer.rs: both kinds of push, as far as they are written.
use leaf_os.Common.{
  ℕ, ◌<◌, ◌≡◌, refl, Bool, true, false, Option, List, [], ◌∷◌, ◌&&◌, leb, if◌then◌else◌, arith,
}

module _ (T : Type 0) (n : ℕ) where
  -- `buffer[i]` is `none` where it is not initialised.
  pub record RingBuffer : Type 0 where
    pub buffer : ℕ → Option T
    pub offset : ℕ

  abbrev pub capacity : RingBuffer → ℕ
  capacity r = n

  abbrev pub buffer_length : RingBuffer → ℕ
  buffer_length r = r.offset

  -- `push` of a checked buffer: whether the write was successful.
  pub push_checked : RingBuffer → T → RingBuffer × Bool
  push_checked r elem = if leb (capacity r) (buffer_length r) then (r, false) else (r, true)

  -- `push` of an unchecked buffer.
  pub push_unchecked : RingBuffer → T → RingBuffer
  push_unchecked r elem = r

  pub push_all : RingBuffer → List T → RingBuffer × Bool
  push_all r [] = (r, true)
  push_all r (elem ∷ rest) =
      let (r₁, done) = push_checked r elem in
      let (r₂, others) = push_all r₁ rest in (r₂, done && others)

  -- A buffer with room takes any number of elements, more than it has room for, and reports every
  -- write as successful; but nothing is stored, and its length stays as it was.
  pub push_all-unstored :
      (r : RingBuffer) (elems : List T) → r.offset < n → push_all r elems ≡ (r, true)
  unfolding push_all push_checked
  push_all-unstored r [] room = refl
  push_all-unstored r (elem ∷ rest) room =
      let free : leb n r.offset ≡ false = ground arith in
      let pushed : push_checked r elem ≡ (r, true) = rw free refl in
      rw (pushed, push_all-unstored r rest room) refl
