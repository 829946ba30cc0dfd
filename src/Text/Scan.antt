-- ===== src/Text/Scan.antt =====
-- `sscanf`, with the conversions that the code uses. A text is stored in an array of a given size,
-- with a NUL behind it; the conversions that the code uses have no width, so a longer text is written
-- past the array's end.
use obs_rtspserver.Prelude.{
  ℕ, zero, suc, ◌-◌, ◌%◌, ◌^◌, Bool, true, false, not, ◌&&◌, Option, none, some, List, [], ◌∷◌, min,
  ltb, ◌==◌, if◌then◌else◌, length,
}
use obs_rtspserver.Text.{is_space}
use obs_rtspserver.Text.Decimal.{is_digit, read_digits}

-- What a conversion stores.
pub data Value : Type 0 where
  text : List ℕ → Value
  number : ℕ → Value

-- `space` is white space in the format, `word` is `%s` and `until c` is `%[^c]` into an array of that
-- many bytes, `skip_until c` is `%*[^c]`, and `unsigned_word` is `%u` or `%hu` with that many bits.
pub data Directive : Type 0 where
  literal skip_until : ℕ → Directive
  space : Directive
  word : ℕ → Directive
  until : ℕ → ℕ → Directive
  unsigned_word signed_word : ℕ → Directive

-- What one directive does: it goes on with the rest, stores a value first, fails, or writes past the
-- end of an array.
pub data Step : Type 0 where
  passed : List ℕ → Step
  stored : Value → List ℕ → Step
  failed overrun : Step

abbrev pub skip_spaces : List ℕ → List ℕ
skip_spaces [] = []
skip_spaces (c ∷ cs) = if is_space c then skip_spaces cs else c ∷ cs

-- The longest part in front of a text whose bytes all pass a test, and the rest.
abbrev pub span : (ℕ → Bool) → List ℕ → List ℕ × List ℕ
span p [] = ([], [])
span p (c ∷ cs) = let (front, rest) = span p cs in if p c then (c ∷ front, rest) else ([], c ∷ cs)

-- A text that has been read, for an array of `size` bytes.
abbrev pub store_text : ℕ → List ℕ × List ℕ → Step
store_text size ([], rest) = failed
store_text size (c ∷ cs, rest) =
    if ltb (length (c ∷ cs)) size then stored (text (c ∷ cs)) rest else overrun

abbrev pub skip_text : List ℕ × List ℕ → Step
skip_text ([], rest) = failed
skip_text (c ∷ cs, rest) = passed rest

-- The conversions of `strtoul` and `strtol` to 64 bits, and the cast to the word that is stored.
abbrev pub to_unsigned : ℕ → Bool → ℕ → ℕ
to_unsigned bits negative n =
    if negative && ltb n (2 ^ 64) then (2 ^ 64 - n) % 2 ^ bits else min n (2 ^ 64 - 1) % 2 ^ bits

abbrev pub to_signed : ℕ → Bool → ℕ → ℕ
to_signed bits negative n =
    if negative then (2 ^ 64 - min n (2 ^ 63)) % 2 ^ bits else min n (2 ^ 63 - 1) % 2 ^ bits

-- The digits of a number, whose sign has been read.
abbrev pub scan_digits : (Bool → ℕ → ℕ) → Bool → List ℕ → Step
scan_digits convert negative [] = failed
scan_digits convert negative (c ∷ cs) =
    if is_digit c
    then (let (n, rest) = read_digits 0 (c ∷ cs) in stored (number (convert negative n)) rest)
    else failed

abbrev pub scan_number : (Bool → ℕ → ℕ) → List ℕ → Step
scan_number convert [] = failed
scan_number convert (c ∷ cs) =
    if c == 45
    then scan_digits convert true cs
    else if c == 43
    then scan_digits convert false cs
    else scan_digits convert false (c ∷ cs)

abbrev pub scan_step : Directive → List ℕ → Step
scan_step (literal c) [] = failed
scan_step (literal c) (x ∷ xs) = if x == c then passed xs else failed
scan_step (skip_until c) xs = skip_text (span (λ x. not (x == c)) xs)
scan_step space xs = passed (skip_spaces xs)
scan_step (word size) xs = store_text size (span (λ x. not (is_space x)) (skip_spaces xs))
scan_step (until c size) xs = store_text size (span (λ x. not (x == c)) xs)
scan_step (unsigned_word bits) xs = scan_number (to_unsigned bits) (skip_spaces xs)
scan_step (signed_word bits) xs = scan_number (to_signed bits) (skip_spaces xs)

abbrev pub scan_rest : Step → (List ℕ → Option (List Value)) → Option (List Value)
scan_rest (passed rest) next = next rest
scan_rest (stored v rest) next = elim (next rest) [ none ↦ none | some vs ↦ some (v ∷ vs) ]
scan_rest failed next = some []
scan_rest overrun next = none

-- The values that `sscanf` stores, whose number it returns; `none` where it writes past an array.
abbrev pub sscanf : List Directive → List ℕ → Option (List Value)
sscanf [] xs = some []
sscanf (d ∷ ds) xs = scan_rest (scan_step d xs) (sscanf ds)

abbrev pub text_at : ℕ → List Value → List ℕ
text_at n [] = []
text_at zero (text t ∷ vs) = t
text_at zero (number n ∷ vs) = []
text_at (suc n) (v ∷ vs) = text_at n vs

abbrev pub number_at : ℕ → List Value → ℕ
number_at n [] = 0
number_at zero (number n ∷ vs) = n
number_at zero (text t ∷ vs) = 0
number_at (suc n) (v ∷ vs) = number_at n vs
