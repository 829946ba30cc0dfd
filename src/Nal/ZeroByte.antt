-- ===== src/Nal/ZeroByte.antt =====
-- The word test of `FFmpegFindStartcodeInternal` never misses a zero byte.
use obs_rtspserver.Prelude.{
  ℕ, ◌+◌, ◌-◌, ◌*◌, ◌/◌, ◌%◌, ◌^◌, ◌<◌, ◌≡◌, ◌≢◌, false, ap, arith, bit_and,
}
use obs_rtspserver.Prelude.Bits.{bit_and-shift_byte, bit_and-top}
use obs_rtspserver.Nal.{zero_byte_test}

abbrev mask : ℕ
mask = 0x80808080

-- The masked word is not zero if its byte at the bottom has the top bit set in both parts.
masked-ne :
    (y n m : ℕ) → y / 128 % 2 ≡ 1 → n / 128 % 2 ≡ 1 → m / 128 % 2 ≡ 1 → bit_and (bit_and y n) m ≢ 0
masked-ne y n m p q r e = omega (arith, bit_and-top (bit_and y n) m, bit_and-top y n, e)

masked-ne_shift :
    (y n m : ℕ) → bit_and (bit_and (y / 256) (n / 256)) (m / 256) ≢ 0 → bit_and (bit_and y n) m ≢ 0
masked-ne_shift y n m h e = h (
    omega (
      arith,
      bit_and-shift_byte (bit_and y n) m,
      ap (λ t. bit_and t (m / 256)) (bit_and-shift_byte y n),
      e,
    ))

abbrev word : ℕ → ℕ → ℕ → ℕ → ℕ
word a b c e = a + 256 * b + 65536 * c + 16777216 * e

abbrev diff : ℕ → ℕ
diff x = (x + 2 ^ 32 - 0x01010101) % 2 ^ 32

abbrev Hits : ℕ → Type 0
Hits x = bit_and (bit_and (diff x) (0xffffffff - x)) mask ≢ 0

module _ (a b c e : ℕ) (ha : a < 256) (hb : b < 256) (hc : c < 256) (he : e < 256) where
  Hits-byte0 : a ≡ 0 → Hits (word a b c e)
  Hits-byte0 z = masked-ne _ _ mask (omega arith) (omega arith) (omega arith)

  Hits-byte1 : a ≢ 0 → b ≡ 0 → Hits (word a b c e)
  Hits-byte1 n z =
      masked-ne_shift _ _ mask (masked-ne _ _ _ (omega arith) (omega arith) (omega arith))

  Hits-byte2 : a ≢ 0 → b ≢ 0 → c ≡ 0 → Hits (word a b c e)
  Hits-byte2 n o z =
      masked-ne_shift _ _ mask
        (masked-ne_shift _ _ _ (masked-ne _ _ _ (omega arith) (omega arith) (omega arith)))

  Hits-byte3 : a ≢ 0 → b ≢ 0 → c ≢ 0 → e ≡ 0 → Hits (word a b c e)
  Hits-byte3 n o p z = masked-ne_shift _ _ mask (
      masked-ne_shift _ _ _
        (masked-ne_shift _ _ _ (masked-ne _ _ _ (omega arith) (omega arith) (omega arith))))

  -- A word that fails the test has no zero byte.
  pub zero_byte_test-false :
      zero_byte_test (word a b c e) ≡ false → (a ≢ 0) × (b ≢ 0) × (c ≢ 0) × (e ≢ 0)
  unfolding zero_byte_test
  zero_byte_test-false h =
      let miss : bit_and (bit_and (diff x) (0xffffffff - x)) mask ≡ 0 = ground arith in
      let n : a ≢ 0 = λ z. Hits-byte0 z miss in
      let o : b ≢ 0 = λ z. Hits-byte1 n z miss in
      let p : c ≢ 0 = λ z. Hits-byte2 n o z miss in (n, o, p, λ z. Hits-byte3 n o p z miss)
    where
      x : ℕ
      x = word a b c e
