-- ===== src/Prelude/Digits.antt =====
-- The operations on binary digits, a digit at a time.
use Prim.Native.Nat.{
  ℕ, zero, suc, ◌+◌, ◌*◌, ◌/◌, ◌%◌, ◌≤◌, min, max, bit_and, bit_or, digits, bitwise,
  bit_and-bitwise, bit_or-bitwise,
}
use mathlib.Core.Path.{◌≡◌, refl, sym, ◌∙◌}
use native.Mathlib.Omega.{arith}

module _ (z : ℕ → ℕ) (f : ℕ → ℕ → ℕ) where
  digits-zero : (count y : ℕ) → digits z f count 0 y ≡ z y
  digits-zero zero y = refl
  digits-zero (suc count) y = refl

  -- Any count of digits to go that is no less than the number serves.
  digits-count : (x : ℕ) (y s t : ℕ) → x ≤ s → x ≤ t → digits z f s x y ≡ digits z f t x y
  digits-count zero y s t l r = digits-zero s y ∙ sym (digits-zero t y)
  digits-count (suc x) y zero t l r = absurd (omega arith)
  digits-count (suc x) y (suc s) zero l r = absurd (omega arith)
  digits-count (suc x) y (suc s) (suc t) l r =
      let rest = digits-count (suc x / 2) (y / 2) s t (omega arith) (omega arith) in
      omega (arith, rest)

  bitwise_step :
      ((y : ℕ) → z y ≡ z (y / 2) * 2 + f 0 (y % 2))
      → (x y : ℕ) → bitwise z f x y ≡ bitwise z f (x / 2) (y / 2) * 2 + f (x % 2) (y % 2)
  bitwise_step law zero y = law y
  bitwise_step law (suc x) y =
      let shorter = digits-count (suc x / 2) (y / 2) x (suc x / 2) (omega arith) (omega arith) in
      omega (arith, shorter)

pub bit_and_step : (a b : ℕ) → bit_and a b ≡ bit_and (a / 2) (b / 2) * 2 + min (a % 2) (b % 2)
bit_and_step a b = omega (
  arith,
  bitwise_step (λ y. 0) min (λ y. omega arith) a b,
  bit_and-bitwise a b,
  bit_and-bitwise (a / 2) (b / 2),
)

pub bit_or_step : (a b : ℕ) → bit_or a b ≡ bit_or (a / 2) (b / 2) * 2 + max (a % 2) (b % 2)
bit_or_step a b = omega (
  arith,
  bitwise_step (λ y. y) max (λ y. omega arith) a b,
  bit_or-bitwise a b,
  bit_or-bitwise (a / 2) (b / 2),
)

-- The first number has run out.
pub zero-bit_and : (b : ℕ) → bit_and 0 b ≡ 0
zero-bit_and b = bit_and-bitwise 0 b

pub zero-bit_or : (b : ℕ) → bit_or 0 b ≡ b
zero-bit_or b = bit_or-bitwise 0 b
