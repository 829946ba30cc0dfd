-- ===== src/Prelude/Shifts.antt =====
-- Laws of `bit_or`: bytes that are shifted apart are added.
use Prim.Native.Nat.{ℕ, zero, suc, ◌+◌, ◌*◌, ◌/◌, ◌≤◌, ◌<◌, bit_or}
use mathlib.Core.Path.{◌≡◌, ap}
use native.Mathlib.Omega.{arith}
use obs_rtspserver.Prelude.Digits.{bit_or_step, zero-bit_or}

bit_or-zero_fuel : (count x : ℕ) → x ≤ count → bit_or x 0 ≡ x
bit_or-zero_fuel count zero l = zero-bit_or 0
bit_or-zero_fuel zero (suc x) l = absurd (omega arith)
bit_or-zero_fuel (suc count) (suc x) l =
    let rest = bit_or-zero_fuel count (suc x / 2) (omega arith) in
    omega (arith, bit_or_step (suc x) 0, rest)

-- `2^k` times a number.
abbrev pub doubled : ℕ → ℕ → ℕ
doubled zero a = a
doubled (suc k) a = doubled k a * 2

pub bit_or-doubled : (k a b : ℕ) → b < doubled k 1 → bit_or (doubled k a) b ≡ doubled k a + b
bit_or-doubled zero a b h =
    let z : b ≡ 0 = omega arith in rw z (omega (arith, bit_or-zero_fuel a a (omega arith)))
bit_or-doubled (suc k) a b h =
    let half : doubled k a * 2 / 2 ≡ doubled k a = omega arith in
    omega (
      arith,
      bit_or_step (doubled k a * 2) b,
      ap (λ x. bit_or x (b / 2)) half,
      bit_or-doubled k a (b / 2) (omega arith),
    )

-- A byte, two bytes or three below a shifted one.
pub bit_or-shift :
    (a b c d : ℕ)
    → b < 256
    → c < 256
    → d < 256
    → (bit_or (a * 256) b ≡ a * 256 + b)
      × (bit_or (bit_or (a * 65536) (b * 256)) c ≡ a * 65536 + b * 256 + c)
      × (bit_or (bit_or (bit_or (a * 16777216) (b * 65536)) (c * 256)) d
          ≡ a * 16777216 + b * 65536 + c * 256 + d)
bit_or-shift a b c d h k l = (one, two, three)
  where
    eight : (x y : ℕ) → y < 256 → bit_or (x * 256) y ≡ x * 256 + y
    eight x y p =
        omega (arith, bit_or-doubled 8 x y (omega arith), ap (λ z. bit_or z y) (at_eight x))
      where
        at_eight : (x : ℕ) → doubled 8 x ≡ x * 256
        at_eight x = omega arith

    sixteen : (x y : ℕ) → y < 65536 → bit_or (x * 65536) y ≡ x * 65536 + y
    sixteen x y p =
        omega (arith, bit_or-doubled 16 x y (omega arith), ap (λ z. bit_or z y) (at_sixteen x))
      where
        at_sixteen : (x : ℕ) → doubled 16 x ≡ x * 65536
        at_sixteen x = omega arith

    wide : (x y : ℕ) → y < 16777216 → bit_or (x * 16777216) y ≡ x * 16777216 + y
    wide x y p =
        omega (arith, bit_or-doubled 24 x y (omega arith), ap (λ z. bit_or z y) (at_wide x))
      where
        at_wide : (x : ℕ) → doubled 24 x ≡ x * 16777216
        at_wide x = omega arith

    one : bit_or (a * 256) b ≡ a * 256 + b
    one = eight a b h

    two : bit_or (bit_or (a * 65536) (b * 256)) c ≡ a * 65536 + b * 256 + c
    two =
        let inner : bit_or (a * 65536) (b * 256) ≡ (a * 256 + b) * 256 =
          omega (arith, sixteen a (b * 256) (omega arith)) in
        rw inner (omega (arith, eight (a * 256 + b) c k))

    three :
        bit_or (bit_or (bit_or (a * 16777216) (b * 65536)) (c * 256)) d
        ≡ a * 16777216 + b * 65536 + c * 256 + d
    three =
        let inner : bit_or (a * 16777216) (b * 65536) ≡ (a * 256 + b) * 65536 =
          omega (arith, wide a (b * 65536) (omega arith)) in
        let next : bit_or ((a * 256 + b) * 65536) (c * 256) ≡ (a * 65536 + b * 256 + c) * 256 =
          omega (arith, sixteen (a * 256 + b) (c * 256) (omega arith)) in
        rw (inner, next) (omega (arith, eight (a * 65536 + b * 256 + c) d l))
