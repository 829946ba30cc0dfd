-- ===== src/Text/Bounds.antt =====
-- `sscanf` stays within its arrays when they are longer than what it reads.
use obs_rtspserver.Prelude.{
  ℕ, zero, suc, ◌+◌, ◌*◌, ◌-◌, ◌<◌, ◌≤◌, ◌≡◌, refl, inl, inr, Bool, true, false, not, ◌&&◌, some,
  List, [], ◌∷◌, arith, length, ltb, ltb→lt, lt→ltb, ◌==◌, Bool-cases,
}
use obs_rtspserver.Text.{is_space}
use obs_rtspserver.Text.Decimal.{is_digit, read_digits}
use obs_rtspserver.Text.Facts.{and-left, and-right}
use obs_rtspserver.Text.Scan.{
  Directive, literal, skip_until, space, word, until, unsigned_word, signed_word, Value, text,
  number, Step, stored, passed, failed, overrun, span, skip_spaces, store_text, skip_text,
  scan_step, scan_digits, scan_number, scan_rest, sscanf, text_at, to_unsigned, to_signed,
}

-- The array of a directive has more than `n` bytes.
abbrev pub has_room : ℕ → Directive → Bool
has_room n (literal c) = true
has_room n (skip_until c) = true
has_room n space = true
has_room n (word size) = ltb n size
has_room n (until c size) = ltb n size
has_room n (unsigned_word bits) = true
has_room n (signed_word bits) = true

abbrev pub have_room : ℕ → List Directive → Bool
have_room n [] = true
have_room n (d ∷ ds) = has_room n d && have_room n ds

abbrev pub value_length : Value → ℕ
value_length (text t) = length t
value_length (number n) = 0

-- Every text has at most `n` bytes.
abbrev pub AreShort : ℕ → List Value → Type 0
AreShort n [] = n ≡ n
AreShort n (v ∷ vs) = (value_length v ≤ n) × AreShort n vs

pub length-text_at : (n i : ℕ) (vs : List Value) → AreShort n vs → length (text_at i vs) ≤ n
length-text_at n zero [] h = omega arith
length-text_at n (suc i) [] h = omega arith
length-text_at n zero (text t ∷ vs) (h, k) = h
length-text_at n zero (number m ∷ vs) (h, k) = h
length-text_at n (suc i) (v ∷ vs) (h, k) = length-text_at n i vs k

-- A step that stays within its array, and leaves at most `n` bytes.
abbrev IsWithin : ℕ → Step → Type 0
IsWithin n (passed rest) = length rest ≤ n
IsWithin n (stored v rest) = (length rest ≤ n) × (value_length v ≤ n)
IsWithin n failed = 0 ≤ n
IsWithin n overrun = ⊥

length-span : (p : ℕ → Bool) (xs : List ℕ) → length (span p xs).0 + length (span p xs).1 ≡ length xs
length-span p [] = refl
length-span p (x ∷ xs) = elim (Bool-cases (p x)) [
  | inl t ↦ rw t (omega (arith, length-span p xs))
  | inr t ↦ rw t (omega arith)
]

length-skip_spaces : (xs : List ℕ) → length (skip_spaces xs) ≤ length xs
length-skip_spaces [] = omega arith
length-skip_spaces (x ∷ xs) = elim (Bool-cases (is_space x)) [
  | inl t ↦ rw t (omega (arith, length-skip_spaces xs))
  | inr t ↦ rw t (omega arith)
]

length-read_digits : (n : ℕ) (xs : List ℕ) → length (read_digits n xs).1 ≤ length xs
length-read_digits n [] = omega arith
length-read_digits n (x ∷ xs) = elim (Bool-cases (is_digit x)) [
  | inl t ↦ rw t (omega (arith, length-read_digits (n * 10 + (x - 48)) xs))
  | inr t ↦ rw t (omega arith)
]

store_text-IsWithin :
    (n size : ℕ) (r : List ℕ × List ℕ)
    → length r.0 + length r.1 ≤ n
    → n < size
    → IsWithin n (store_text size r)
store_text-IsWithin n size ([], rest) h k = omega arith
store_text-IsWithin n size (c ∷ cs, rest) h k =
    rw (lt→ltb (length (c ∷ cs)) size (omega (arith, h, k))) (omega (arith, h), omega (arith, h))

skip_text-IsWithin :
    (n : ℕ) (r : List ℕ × List ℕ) → length r.0 + length r.1 ≤ n → IsWithin n (skip_text r)
skip_text-IsWithin n ([], rest) h = omega arith
skip_text-IsWithin n (c ∷ cs, rest) h = omega (arith, h)

scan_digits-IsWithin :
    (n : ℕ) (f : Bool → ℕ → ℕ) (b : Bool) (xs : List ℕ)
    → length xs ≤ n
    → IsWithin n (scan_digits f b xs)
scan_digits-IsWithin n f b [] h = omega arith
scan_digits-IsWithin n f b (c ∷ cs) h = elim (Bool-cases (is_digit c)) [
  | inl t ↦ rw t (omega (arith, h, length-read_digits (0 * 10 + (c - 48)) cs), omega arith)
  | inr t ↦ rw t (omega arith)
]

scan_number-IsWithin :
    (n : ℕ) (f : Bool → ℕ → ℕ) (xs : List ℕ) → length xs ≤ n → IsWithin n (scan_number f xs)
scan_number-IsWithin n f [] h = omega arith
scan_number-IsWithin n f (c ∷ cs) h = elim (Bool-cases (c == 45)) [
  | inl t ↦ rw t (scan_digits-IsWithin n f true cs (omega (arith, h)))
  | inr t ↦ rw t (elim (Bool-cases (c == 43)) [
    | inl u ↦ rw u (scan_digits-IsWithin n f false cs (omega (arith, h)))
    | inr u ↦ rw u (scan_digits-IsWithin n f false (c ∷ cs) h)
  ])
]

scan_step-IsWithin :
    (n : ℕ) (d : Directive) (xs : List ℕ)
    → length xs ≤ n
    → has_room n d ≡ true
    → IsWithin n (scan_step d xs)
scan_step-IsWithin n (literal c) [] h r = omega arith
scan_step-IsWithin n (literal c) (x ∷ xs) h r = elim (Bool-cases (x == c)) [
  | inl t ↦ rw t (omega (arith, h))
  | inr t ↦ rw t (omega arith)
]
scan_step-IsWithin n (skip_until c) xs h r =
    skip_text-IsWithin n (span (λ x. not (x == c)) xs)
      (omega (arith, h, length-span (λ x. not (x == c)) xs))
scan_step-IsWithin n space xs h r = omega (arith, h, length-skip_spaces xs)
scan_step-IsWithin n (word size) xs h r =
    store_text-IsWithin n size (span (λ x. not (is_space x)) (skip_spaces xs))
      (omega
        (arith, h, length-skip_spaces xs, length-span (λ x. not (is_space x)) (skip_spaces xs)))
      (ltb→lt n size r)
scan_step-IsWithin n (until c size) xs h r =
    store_text-IsWithin n size (span (λ x. not (x == c)) xs)
      (omega (arith, h, length-span (λ x. not (x == c)) xs)) (ltb→lt n size r)
scan_step-IsWithin n (unsigned_word bits) xs h r =
    scan_number-IsWithin n (to_unsigned bits) (skip_spaces xs)
      (omega (arith, h, length-skip_spaces xs))
scan_step-IsWithin n (signed_word bits) xs h r =
    scan_number-IsWithin n (to_signed bits) (skip_spaces xs)
      (omega (arith, h, length-skip_spaces xs))

-- All the values are stored, and no text is longer than what was there to read.
pub sscanf-returns :
    (n : ℕ) (ds : List Directive) (xs : List ℕ)
    → length xs ≤ n
    → have_room n ds ≡ true
    → (vs : List Value) × (sscanf ds xs ≡ some vs) × AreShort n vs
sscanf-returns n [] xs h r = ([], refl, refl)
sscanf-returns n (d ∷ ds) xs h r =
    after (scan_step d xs)
      (scan_step-IsWithin n d xs h (and-left (has_room n d) (have_room n ds) r))
      (λ rest w. sscanf-returns n ds rest w (and-right (has_room n d) (have_room n ds) r))
  where
    after :
        (s : Step)
        → IsWithin n s
        → ((rest : List ℕ)
            → length rest ≤ n
            → (vs : List Value) × (sscanf ds rest ≡ some vs) × AreShort n vs)
        → (vs : List Value) × (scan_rest s (sscanf ds) ≡ some vs) × AreShort n vs
    after (passed rest) w next = next rest w
    after (stored v rest) (w, short) next =
        let (vs, e, k) = next rest w in (v ∷ vs, rw (e, scan_rest) refl, (short, k))
    after failed w next = ([], refl, refl)
    after overrun w next = absurd w
