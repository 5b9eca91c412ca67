-- ===== src/Common/Tables.antt =====
-- Tables of small numbers, checked by evaluation: the size classes of
-- src/allocators/fixed_size_block.rs, the colours of src/vga_buffer.rs and the bytes of
-- src/drivers/pit.rs.
use Prim.Native.Nat.{ℕ, zero, suc, ◌<◌}
use mathlib.Core.Path.{◌≡◌}
use mathlib.Core.Bool.{Bool, true, false}
use mathlib.Core.Logic.{inl, inr}
use native.Mathlib.Omega.{arith}
use leaf_os.Common.Tests.{if◌then◌else◌, Bool-cases}

-- A test that the numbers from 0 up to the bound, itself not included, all pass.
unfoldable pub pass_below : ℕ → (ℕ → Bool) → Bool
pass_below zero test = true
pass_below (suc bound) test = if test bound then pass_below bound test else false

pub pass_below-entry :
    (bound : ℕ) (test : ℕ → Bool) (i : ℕ) → pass_below bound test ≡ true → i < bound → test i ≡ true
unfolding pass_below
pass_below-entry zero test i passed below = absurd (omega arith)
pass_below-entry (suc bound) test i passed below = elim (Bool-cases (test bound)) [
  | inl top ↦ ground (arith, pass_below-entry bound test i)
  | inr failed ↦ ground arith
]
