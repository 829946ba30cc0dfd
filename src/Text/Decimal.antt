-- ===== src/Text/Decimal.antt =====
-- Decimal numbers, as `printf` writes and `sscanf` reads them.
use obs_rtspserver.Prelude.{
  ℕ, zero, suc, ◌+◌, ◌-◌, ◌*◌, ◌/◌, ◌%◌, Bool, ◌&&◌, List, [], ◌∷◌, ◌++◌, ltb, leb, if◌then◌else◌,
}

abbrev pub is_digit : ℕ → Bool
is_digit c = leb 48 c && leb c 57

-- The digits of a number below `10 ^ k`.
abbrev pub print_digits : ℕ → ℕ → List ℕ
print_digits zero n = []
print_digits (suc k) n =
    let rest = print_digits k (n / 10) in
    if ltb n 10 then (48 + n) ∷ [] else rest ++ ((48 + n % 10) ∷ [])

-- `%u`, `%hu` and `%d` of a number that is not negative; it has at most 20 digits.
unfoldable pub print_number : ℕ → List ℕ
print_number n = print_digits 20 n

-- `%d` of a 32-bit word, which is read as a signed number.
unfoldable pub print_signed : ℕ → List ℕ
unfolding print_number
print_signed n = if ltb n 2147483648 then print_number n else 45 ∷ print_number (4294967296 - n)

-- The digits in front of a text, taken to a number that begins with the digits of `acc`.
abbrev pub read_digits : ℕ → List ℕ → ℕ × List ℕ
read_digits acc [] = (acc, [])
read_digits acc (c ∷ cs) =
    if is_digit c then read_digits (acc * 10 + (c - 48)) cs else (acc, c ∷ cs)
