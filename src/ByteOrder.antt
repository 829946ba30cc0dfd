-- ===== src/ByteOrder.antt =====
-- rtsp-server/net/BufferReader.cpp and BufferWriter.cpp: numbers as bytes in either order.
mod Tests
use obs_rtspserver.Prelude.{
  ℕ, ◌+◌, ◌*◌, ◌/◌, ◌%◌, ◌<◌, ◌^◌, ◌≡◌, ap, arith, List, [], ◌∷◌, bit_and, bit_or, get_or,
}
use obs_rtspserver.Prelude.Digits.{bit_and_step}
use obs_rtspserver.Prelude.Bits.{bit_and-le}
use obs_rtspserver.Prelude.Shifts.{bit_or-shift}

-- `p[i]` after the cast to `uint8_t *`; a byte past the end, which the code never checks for, is 0.
abbrev at : List ℕ → ℕ → ℕ
at p i = get_or p i 0

unfoldable pub read_uint32_be : List ℕ → ℕ
read_uint32_be p =
    bit_or (bit_or (bit_or (at p 0 * 16777216) (at p 1 * 65536)) (at p 2 * 256)) (at p 3) % 2 ^ 32

unfoldable pub read_uint32_le : List ℕ → ℕ
read_uint32_le p =
    bit_or (bit_or (bit_or (at p 3 * 16777216) (at p 2 * 65536)) (at p 1 * 256)) (at p 0) % 2 ^ 32

unfoldable pub read_uint24_be : List ℕ → ℕ
read_uint24_be p = bit_or (bit_or (at p 0 * 65536) (at p 1 * 256)) (at p 2)

unfoldable pub read_uint24_le : List ℕ → ℕ
read_uint24_le p = bit_or (bit_or (at p 2 * 65536) (at p 1 * 256)) (at p 0)

unfoldable pub read_uint16_be : List ℕ → ℕ
read_uint16_be p = bit_or (at p 0 * 256) (at p 1) % 2 ^ 16

unfoldable pub read_uint16_le : List ℕ → ℕ
read_uint16_le p = bit_or (at p 1 * 256) (at p 0) % 2 ^ 16

-- The bytes that a writer stores at `p`; an assignment to a `char` keeps the low eight bits.
abbrev byte : ℕ → ℕ
byte n = n % 256

unfoldable pub write_uint32_be : ℕ → List ℕ
write_uint32_be v =
    byte (v / 16777216) ∷ byte (v / 65536) ∷ byte (v / 256) ∷ byte (bit_and v 0xff) ∷ []

unfoldable pub write_uint32_le : ℕ → List ℕ
write_uint32_le v =
    byte (bit_and v 0xff) ∷ byte (v / 256) ∷ byte (v / 65536) ∷ byte (v / 16777216) ∷ []

unfoldable pub write_uint24_be : ℕ → List ℕ
write_uint24_be v = byte (v / 65536) ∷ byte (v / 256) ∷ byte (bit_and v 0xff) ∷ []

unfoldable pub write_uint24_le : ℕ → List ℕ
write_uint24_le v = byte (bit_and v 0xff) ∷ byte (v / 256) ∷ byte (v / 65536) ∷ []

unfoldable pub write_uint16_be : ℕ → List ℕ
write_uint16_be v = byte (v / 256) ∷ byte (bit_and v 0xff) ∷ []

unfoldable pub write_uint16_le : ℕ → List ℕ
write_uint16_le v = byte (bit_and v 0xff) ∷ byte (v / 256) ∷ []

low_digit : (a m : ℕ) → bit_and a (m * 2 + 1) ≡ bit_and (a / 2) m * 2 + a % 2
low_digit a m =
    let half : (m * 2 + 1) / 2 ≡ m = omega arith in
    omega (arith, bit_and_step a (m * 2 + 1), ap (bit_and (a / 2)) half)

low_nibble : (v : ℕ) → bit_and v 0x0f ≡ v % 16
low_nibble v = omega (
  arith,
  low_digit v 7,
  low_digit (v / 2) 3,
  low_digit (v / 2 / 2) 1,
  low_digit (v / 2 / 2 / 2) 0,
  bit_and-le (v / 2 / 2 / 2 / 2) 0,
)

pub low_byte : (v : ℕ) → bit_and v 0xff ≡ v % 256
low_byte v = omega (
  arith,
  low_digit v 127,
  low_digit (v / 2) 63,
  low_digit (v / 2 / 2) 31,
  low_digit (v / 2 / 2 / 2) 15,
  low_nibble (v / 2 / 2 / 2 / 2),
)

-- Every number below 2^32 that is written in either order is read back, modulo the bound of the
-- width that it is written in.
pub read-write_uint :
    (v : ℕ)
    → v < 2 ^ 32
    → (read_uint32_be (write_uint32_be v) ≡ v)
      × (read_uint32_le (write_uint32_le v) ≡ v)
      × (read_uint24_be (write_uint24_be v) ≡ v % 2 ^ 24)
      × (read_uint24_le (write_uint24_le v) ≡ v % 2 ^ 24)
      × (read_uint16_be (write_uint16_be v) ≡ v % 2 ^ 16)
      × (read_uint16_le (write_uint16_le v) ≡ v % 2 ^ 16)
unfolding read_uint32_be read_uint32_le read_uint24_be read_uint24_le read_uint16_be read_uint16_le
    write_uint32_be write_uint32_le write_uint24_be write_uint24_le write_uint16_be write_uint16_le
read-write_uint v h =
    let s =
      bit_or-shift (byte (v / 16777216)) (byte (v / 65536)) (byte (v / 256)) (byte (v % 256))
        (omega arith) (omega arith) (omega arith) in
    let t =
      bit_or-shift (byte (v / 65536)) (byte (v / 256)) (byte (v % 256)) 0 (omega arith)
        (omega arith) (omega arith) in
    let w =
      bit_or-shift (byte (v / 256)) (byte (v % 256)) 0 0 (omega arith) (omega arith)
        (omega arith) in
    rw (low_byte v, s.2, t.1, w.0)
      (omega arith, omega arith, omega arith, omega arith, omega arith, omega arith)
