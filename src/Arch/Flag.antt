-- ===== src/Arch/Flag.antt =====
-- What a mask of one bit leaves of a number, for the flags of src/arch/x86/mod.rs.
use Prim.Native.Nat.{digits, min, bit_and-bitwise}
use native.Mathlib.Nat.{mul_assoc}
use leaf_os.Common.{ℕ, zero, suc, ◌+◌, ◌*◌, ◌/◌, ◌%◌, ◌≤◌, ◌≡◌, refl, ap₂, ◌∙◌, bit_and, arith}

-- The digits of a conjunction, with a count of digits to go.
abbrev masked : ℕ → ℕ → ℕ → ℕ
masked n a b = digits (λ c. zero) min n a b

min-zero : (a : ℕ) → min a 0 ≡ 0
min-zero a = omega arith

min-bit : (a : ℕ) → min (a % 2) 1 ≡ a % 2
min-bit a = omega arith

masked-none : (n a : ℕ) → masked n a 0 ≡ 0
masked-none zero a = refl
masked-none (suc n) zero = refl
masked-none (suc n) (suc a) = ap₂ (λ x y. x * 2 + y) (masked-none n (suc a / 2)) (min-zero _)

masked-low : (n a : ℕ) → a ≤ n → masked n a 1 ≡ a % 2
masked-low zero a fits = omega arith
masked-low (suc n) zero fits = refl
masked-low (suc n) (suc a) fits =
    ap₂ (λ x y. x * 2 + y) (masked-none n (suc a / 2)) (min-bit (suc a)) ∙ omega arith

masked-zero : (n b : ℕ) → masked n 0 b ≡ 0
masked-zero zero b = refl
masked-zero (suc n) b = refl

twice : (d k : ℕ) → d * k * 2 + 0 ≡ d * (k * 2)
twice d k = omega (arith, mul_assoc d k 2)

-- A mask twice as large leaves of a number twice what the mask leaves of its half.
masked-double :
    (k : ℕ)
    → ((n a : ℕ) → a ≤ n → masked n a k ≡ a / k % 2 * k)
    → ((a : ℕ) → a / 2 / k ≡ a / (k * 2))
    → 0 / (k * 2) ≡ 0
    → (n a : ℕ) → a ≤ n
    → masked n a (k * 2) ≡ a / (k * 2) % 2 * (k * 2)
masked-double k half div none n zero fits = masked-zero n (k * 2) ∙ rw none (omega arith)
masked-double k half div none zero (suc a) fits = absurd (omega arith)
masked-double k half div none (suc n) (suc a) fits =
    let even : k * 2 / 2 ≡ k = omega arith in
    let low : k * 2 % 2 ≡ 0 = omega arith in
    ap₂ (λ x y. masked n (suc a / 2) x * 2 + min (suc a % 2) y) even low
    ∙ ap₂ (λ x y. x * 2 + y) (half n (suc a / 2) (omega arith)) (min-zero (suc a % 2))
    ∙ rw (div (suc a)) (twice (suc a / (k * 2) % 2) k)

masked-flag : (n a : ℕ) → a ≤ n → masked n a 512 ≡ a / 512 % 2 * 512
masked-flag =
    let b₁ : (n a : ℕ) → a ≤ n → masked n a 1 ≡ a / 1 % 2 * 1 =
      λ n a fits. masked-low n a fits ∙ omega arith in
    let b₂ = masked-double 1 b₁ (λ a. omega arith) refl in
    let b₃ = masked-double 2 b₂ (λ a. omega arith) refl in
    let b₄ = masked-double 4 b₃ (λ a. omega arith) refl in
    let b₅ = masked-double 8 b₄ (λ a. omega arith) refl in
    let b₆ = masked-double 16 b₅ (λ a. omega arith) refl in
    let b₇ = masked-double 32 b₆ (λ a. omega arith) refl in
    let b₈ = masked-double 64 b₇ (λ a. omega arith) refl in
    let b₉ = masked-double 128 b₈ (λ a. omega arith) refl in
    masked-double 256 b₉ (λ a. omega arith) refl

-- The mask of bit 9.
pub bit_and-flag : (a : ℕ) → bit_and a 512 ≡ a / 512 % 2 * 512
bit_and-flag a = (λ i. bit_and-bitwise a 512 i) ∙ masked-flag a a (omega arith)
