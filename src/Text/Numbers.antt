-- ===== src/Text/Numbers.antt =====
-- A printed number is read back.
use native.Mathlib.Nat.{mod-eq_of_lt}
use obs_rtspserver.Prelude.{
  ℕ, zero, suc, ◌+◌, ◌-◌, ◌*◌, ◌/◌, ◌%◌, ◌^◌, ◌<◌, ◌≡◌, inl, inr, refl, sym, ap, ◌∙◌, Bool, true,
  false, not, List, [], ◌∷◌, ◌++◌, append_assoc, arith, ltb, leb, ltb→lt, lt→ltb, min, ◌==◌,
  Bool-cases,
}
use obs_rtspserver.Text.{is_space}
use obs_rtspserver.Text.Decimal.{is_digit, print_digits, print_number, read_digits}
use obs_rtspserver.Text.Facts.{all_bytes, all_bytes-append}
use obs_rtspserver.Text.Scan.{
  scan_step, unsigned_word, number, stored, scan_number, skip_spaces, to_unsigned,
}

digit-is_digit : (d : ℕ) → d < 10 → is_digit (48 + d) ≡ true
digit-is_digit d h = ground arith

-- The digits of a number, and what follows, are read as what follows is behind that number.
read_digits-print :
    (k n : ℕ) (rest : List ℕ)
    → n < 10 ^ k
    → read_digits 0 (print_digits k n ++ rest) ≡ read_digits n rest
read_digits-print zero n rest h = ap (λ m. read_digits m rest) (omega (arith, h))
read_digits-print (suc k) n rest h = elim (Bool-cases (ltb n 10)) [
  | inl t ↦ rw (t, digit-is_digit n (ltb→lt n 10 t)) (ap (λ m. read_digits m rest) (omega arith))
  | inr t ↦
      rw (t, append_assoc (print_digits k (n / 10)) ((48 + n % 10) ∷ []) rest)
        (read_digits-print k (n / 10) ((48 + n % 10) ∷ rest) (fewer h) ∙ step)
]
  where
    fewer : n < 10 ^ suc k → n / 10 < 10 ^ k
    fewer h = omega (arith, h)

    step : read_digits (n / 10) ((48 + n % 10) ∷ rest) ≡ read_digits n rest
    step = rw (digit-is_digit (n % 10) (omega arith)) (ap (λ m. read_digits m rest) (omega arith))

-- A printed number begins with a digit.
print_digits-front :
    (k n : ℕ)
    → n < 10 ^ suc k
    → (c : ℕ) × (cs : List ℕ) × (print_digits (suc k) n ≡ c ∷ cs) × (is_digit c ≡ true)
print_digits-front zero n h =
    (48 + n, [], rw (lt→ltb n 10 (omega (arith, h))) refl, digit-is_digit n (omega (arith, h)))
print_digits-front (suc k) n h = elim (Bool-cases (ltb n 10)) [
  | inl t ↦ (48 + n, [], rw t refl, digit-is_digit n (ltb→lt n 10 t))
  | inr t ↦
      (let (c, cs, e, d) = print_digits-front k (n / 10) (omega (arith, h)) in
        (c, cs ++ ((48 + n % 10) ∷ []), rw (t, e) refl, d))
]

-- What follows a number in a text is not a digit.
abbrev pub ends_number : List ℕ → Bool
ends_number [] = true
ends_number (c ∷ cs) = not (is_digit c)

read_digits-end : (n : ℕ) (rest : List ℕ) → ends_number rest ≡ true → read_digits n rest ≡ (n, rest)
read_digits-end n [] h = refl
read_digits-end n (c ∷ cs) h = rw (not_digit h) refl
  where
    not_digit : ends_number (c ∷ cs) ≡ true → is_digit c ≡ false
    not_digit h = ground (arith, h)

digit-facts :
    (c : ℕ) → is_digit c ≡ true → (is_space c ≡ false) × ((c == 45) ≡ false) × ((c == 43) ≡ false)
digit-facts c h = (ground (arith, h), ground (arith, h), ground (arith, h))

scan_digits-read :
    (convert : Bool → ℕ → ℕ) (c n : ℕ) (ys rest : List ℕ)
    → is_digit c ≡ true
    → read_digits 0 (c ∷ ys) ≡ (n, rest)
    → scan_number convert (skip_spaces (c ∷ ys)) ≡ stored (number (convert false n)) rest
scan_digits-read convert c n ys rest d h =
    let (sp, mi, pl) = digit-facts c d in rw (sp, mi, pl, d, behind d h) refl
  where
    behind :
        is_digit c ≡ true
        → read_digits 0 (c ∷ ys) ≡ (n, rest)
        → read_digits (0 * 10 + (c - 48)) ys ≡ (n, rest)
    behind d h = sym (rw d refl) ∙ h

to_unsigned-fits : (bits n : ℕ) → n < 2 ^ bits → n < 2 ^ 64 → to_unsigned bits false n ≡ n
to_unsigned-fits bits n small h = ap (λ m. m % 2 ^ bits) (low h) ∙ mod-eq_of_lt small
  where
    low : n < 2 ^ 64 → min n (2 ^ 64 - 1) ≡ n
    low h = omega (arith, h)

-- A printed number of at most 64 bits that fits the word is read as itself.
pub scan_step-print_number :
    (bits n : ℕ) (rest : List ℕ)
    → n < 2 ^ bits
    → n < 2 ^ 64
    → ends_number rest ≡ true
    → scan_step (unsigned_word bits) (print_number n ++ rest) ≡ stored (number n) rest
unfolding print_number
scan_step-print_number bits n rest small h e =
    let (c, cs, f, d) = print_digits-front 19 n (omega (arith, h)) in
    let digits : read_digits 0 (c ∷ (cs ++ rest)) ≡ (n, rest) =
      ap (λ z. read_digits 0 (z ++ rest)) (sym f)
      ∙ (read_digits-print 20 n rest (omega (arith, h)) ∙ read_digits-end n rest e) in
    ap (λ z. scan_number (to_unsigned bits) (skip_spaces (z ++ rest))) f
    ∙ (scan_digits-read (to_unsigned bits) c n (cs ++ rest) rest d digits
        ∙ ap (λ m. stored (number m) rest) (to_unsigned-fits bits n small h))

-- No white space is in front of a number.
pub skip_spaces-print_number :
    (n : ℕ) (rest : List ℕ)
    → n < 2 ^ 64
    → skip_spaces (print_number n ++ rest) ≡ print_number n ++ rest
unfolding print_number
skip_spaces-print_number n rest h =
    let (c, cs, f, d) = print_digits-front 19 n (omega (arith, h)) in
    ap (λ z. skip_spaces (z ++ rest)) f ∙ (front c (cs ++ rest) d ∙ ap (λ z. z ++ rest) (sym f))
  where
    front : (c : ℕ) (ys : List ℕ) → is_digit c ≡ true → skip_spaces (c ∷ ys) ≡ c ∷ ys
    front c ys d = rw (digit-facts c d).0 refl

digits-not_nul : (k n : ℕ) → all_bytes (leb 1) (print_digits k n) ≡ true
digits-not_nul zero n = refl
digits-not_nul (suc k) n = elim (Bool-cases (ltb n 10)) [
  | inl t ↦ rw (t, positive n) refl
  | inr t ↦ rw t (
      all_bytes-append (leb 1) (print_digits k (n / 10)) ((48 + n % 10) ∷ [])
        (digits-not_nul k (n / 10)) (rw (positive (n % 10)) refl))
]
  where
    positive : (d : ℕ) → leb 1 (48 + d) ≡ true
    positive d = ground arith

pub print_number-not_nul : (n : ℕ) → all_bytes (leb 1) (print_number n) ≡ true
unfolding print_number
print_number-not_nul n = digits-not_nul 20 n
