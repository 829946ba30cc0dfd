-- ===== src/Prelude/Bits.antt =====
-- Laws of `bit_and` at variables, and the check of a byte law at every byte.
use Prim.Native.Nat.{ℕ, zero, suc, ◌/◌, ◌%◌, ◌≤◌, ◌<◌, min, bit_and}
use mathlib.Core.Path.{◌≡◌, ap₂}
use mathlib.Core.Bool.{Bool, true, ◌&&◌}
use native.Mathlib.Omega.{arith}
use obs_rtspserver.Prelude.Digits.{bit_and_step, zero-bit_and}

-- Whether a test holds of every number below a bound.
unfoldable pub all_below : ℕ → (ℕ → Bool) → Bool
all_below zero test = true
all_below (suc bound) test = test bound && all_below bound test

pub all_below_sound :
    (bound : ℕ) (test : ℕ → Bool) (i : ℕ) → all_below bound test ≡ true → i < bound → test i ≡ true
unfolding all_below
all_below_sound zero test i holds below = absurd (omega arith)
all_below_sound (suc bound) test i holds below = ground (arith, all_below_sound bound test i)

bit_and-half : (a b : ℕ) → bit_and a b / 2 ≡ bit_and (a / 2) (b / 2)
bit_and-half a b = omega (arith, bit_and_step a b)

bit_and-half_four : (a b : ℕ) → bit_and a b / 16 ≡ bit_and (a / 16) (b / 16)
bit_and-half_four a b = omega (
  arith,
  bit_and-half a b,
  bit_and-half (a / 2) (b / 2),
  bit_and-half (a / 2 / 2) (b / 2 / 2),
  bit_and-half (a / 2 / 2 / 2) (b / 2 / 2 / 2),
  ap₂ bit_and (div_four a) (div_four b),
)
  where
    div_four : (x : ℕ) → x / 2 / 2 / 2 / 2 ≡ x / 16
    div_four x = omega arith

-- A byte of the result comes from that byte of the arguments.
pub bit_and-shift_byte : (a b : ℕ) → bit_and a b / 256 ≡ bit_and (a / 256) (b / 256)
bit_and-shift_byte a b = omega (
  arith,
  bit_and-half_four a b,
  bit_and-half_four (a / 16) (b / 16),
  ap₂ bit_and (div_twice a) (div_twice b),
)
  where
    div_twice : (x : ℕ) → x / 16 / 16 ≡ x / 256
    div_twice x = omega arith

-- The top bit of the lowest byte.
pub bit_and-top : (a b : ℕ) → bit_and a b / 128 % 2 ≡ min (a / 128 % 2) (b / 128 % 2)
bit_and-top a b = omega (
  arith,
  bit_and-half_four a b,
  bit_and-half (a / 16) (b / 16),
  bit_and-half (a / 16 / 2) (b / 16 / 2),
  bit_and-half (a / 16 / 2 / 2) (b / 16 / 2 / 2),
  bit_and_step (a / 16 / 2 / 2 / 2) (b / 16 / 2 / 2 / 2),
)

bit_and-le_fuel : (count x mask : ℕ) → x ≤ count → bit_and x mask ≤ mask
bit_and-le_fuel count zero mask l = omega (arith, zero-bit_and mask)
bit_and-le_fuel zero (suc x) mask l = absurd (omega arith)
bit_and-le_fuel (suc count) (suc x) mask l =
    let rest = bit_and-le_fuel count (suc x / 2) (mask / 2) (omega arith) in
    omega (arith, bit_and_step (suc x) mask, rest)

-- A masked number is no more than the mask.
pub bit_and-le : (a b : ℕ) → bit_and a b ≤ b
bit_and-le a b = bit_and-le_fuel a a b (omega arith)
