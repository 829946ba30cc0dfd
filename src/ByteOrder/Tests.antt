-- ===== src/ByteOrder/Tests.antt =====
-- Runs of the byte order functions.
use obs_rtspserver.Prelude.{◌≡◌, refl, arith, ◌%◌, ◌^◌, [], ◌∷◌}
use obs_rtspserver.ByteOrder.{
  read_uint32_be, read_uint32_le, read_uint24_be, read_uint24_le, read_uint16_be, read_uint16_le,
  write_uint32_be, write_uint32_le, write_uint24_be, write_uint24_le, write_uint16_be,
  write_uint16_le, read-write_uint,
}

big_first : write_uint32_be 0x01020304 ≡ 1 ∷ 2 ∷ 3 ∷ 4 ∷ []
unfolding write_uint32_be
big_first = refl

read-write_uint_example :
    (read_uint32_be (write_uint32_be 0x81020304) ≡ 0x81020304)
    × (read_uint32_le (write_uint32_le 0x81020304) ≡ 0x81020304)
    × (read_uint24_be (write_uint24_be 0x81020304) ≡ 0x81020304 % 2 ^ 24)
    × (read_uint24_le (write_uint24_le 0x81020304) ≡ 0x81020304 % 2 ^ 24)
    × (read_uint16_be (write_uint16_be 0x81020304) ≡ 0x81020304 % 2 ^ 16)
    × (read_uint16_le (write_uint16_le 0x81020304) ≡ 0x81020304 % 2 ^ 16)
read-write_uint_example = read-write_uint 0x81020304 (omega arith)
