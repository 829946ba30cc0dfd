-- ===== src/BufferReader/Lines.antt =====
-- `ReadUntilCrlf`: the readable bytes are cut behind their last CRLF.
use obs_rtspserver.Prelude.{
  ℕ, zero, suc, ◌+◌, ◌-◌, ◌≤◌, ◌<◌, ◌≡◌, refl, ◌⊎◌, inl, inr, true, false, Option, none, some, List,
  [], ◌∷◌, ◌++◌, arith, if◌then◌else◌, length, length-take, take, drop, drop-add, take-append-drop,
  Bool-cases,
}
use obs_rtspserver.BufferReader.{
  BufferReader, readable, retrieve, starts_crlf, search, find_end, find_first_crlf, find_last_crlf,
  read_until_crlf,
}
use obs_rtspserver.BufferReader.Queue.{IsValid, readable-retrieve}

-- Nowhere in these bytes does a CRLF begin.
abbrev pub NoCrlf : List ℕ → Type 0
NoCrlf xs = (i : ℕ) → starts_crlf (drop i xs) ≡ false

-- `i` is the place of the last CRLF, or there is none.
abbrev pub IsLast : List ℕ → Option ℕ → Type 0
IsLast xs none = NoCrlf xs
IsLast xs (some i) =
    (starts_crlf (drop i xs) ≡ true) × ((j : ℕ) → i < j → starts_crlf (drop j xs) ≡ false)

pub find_end-IsLast : (xs : List ℕ) → IsLast xs (find_end xs)
unfolding find_end
find_end-IsLast [] = nowhere
  where
    nowhere : NoCrlf []
    nowhere zero = unfold starts_crlf in refl
    nowhere (suc i) = unfold starts_crlf in refl
find_end-IsLast (x ∷ xs) = later (find_end xs) (find_end-IsLast xs)
  where
    later :
        (o : Option ℕ)
        → IsLast xs o
        → IsLast (x ∷ xs) (elim o [
          | some i ↦ some (suc i)
          | none ↦ if starts_crlf (x ∷ xs) then some 0 else none
        ])
    later (some i) (a, b) = (a, shifted)
      where
        shifted : (j : ℕ) → suc i < j → starts_crlf (drop j (x ∷ xs)) ≡ false
        shifted zero h = absurd (omega arith)
        shifted (suc j) h = b j (omega arith)
    later none n = elim (Bool-cases (starts_crlf (x ∷ xs))) [
      | inl t ↦ rw t (t, behind)
      | inr t ↦ rw t (everywhere t)
    ]
      where
        behind : (j : ℕ) → 0 < j → starts_crlf (drop j (x ∷ xs)) ≡ false
        behind zero h = absurd (omega arith)
        behind (suc j) h = n j

        everywhere : starts_crlf (x ∷ xs) ≡ false → NoCrlf (x ∷ xs)
        everywhere t zero = t
        everywhere t (suc j) = n j

-- `i` is the place of the first CRLF, or there is none.
abbrev pub IsFirst : List ℕ → Option ℕ → Type 0
IsFirst xs none = NoCrlf xs
IsFirst xs (some i) =
    (starts_crlf (drop i xs) ≡ true) × ((j : ℕ) → j < i → starts_crlf (drop j xs) ≡ false)

search-IsFirst : (xs : List ℕ) → IsFirst xs (search xs)
unfolding search
search-IsFirst [] = nowhere
  where
    nowhere : NoCrlf []
    nowhere zero = unfold starts_crlf in refl
    nowhere (suc i) = unfold starts_crlf in refl
search-IsFirst (x ∷ xs) = elim (Bool-cases (starts_crlf (x ∷ xs))) [
  | inl t ↦ rw t (t, λ j h. absurd (omega (arith, h)))
  | inr t ↦ rw t (later t (search xs) (search-IsFirst xs))
]
  where
    later :
        starts_crlf (x ∷ xs) ≡ false
        → (o : Option ℕ) → IsFirst xs o
        → IsFirst (x ∷ xs) (elim o [ none ↦ none | some i ↦ some (suc i) ])
    later t none n = everywhere
      where
        everywhere : NoCrlf (x ∷ xs)
        everywhere zero = t
        everywhere (suc j) = n j
    later t (some i) (a, b) = (a, shifted)
      where
        shifted : (j : ℕ) → j < suc i → starts_crlf (drop j (x ∷ xs)) ≡ false
        shifted zero h = t
        shifted (suc j) h = b j (omega arith)

-- On every buffer: `FindFirstCrlf` finds the first place where a CRLF is readable, `FindLastCrlf`
-- the last, and each says so when there is none.
pub find_crlf-places :
    (b : BufferReader)
    → IsFirst (readable b) (find_first_crlf b) × IsLast (readable b) (find_last_crlf b)
unfolding find_first_crlf find_last_crlf
find_crlf-places b = (search-IsFirst (readable b), find_end-IsLast (readable b))

-- A CRLF lies within the bytes that end behind it.
crlf-within :
    (i : ℕ) (xs : List ℕ)
    → starts_crlf (drop i xs) ≡ true
    → (i + 2 ≤ length xs) × (starts_crlf (drop i (take (i + 2) xs)) ≡ true)
unfolding starts_crlf
crlf-within zero [] h = absurd (ground (arith, h))
crlf-within zero (x ∷ []) h = absurd (ground (arith, h))
crlf-within zero (x ∷ y ∷ xs) h = (omega arith, h)
crlf-within (suc i) [] h = absurd (ground (arith, h))
crlf-within (suc i) (x ∷ xs) h =
    let (a, b) = crlf-within i xs h in
    let e : suc i + 2 ≡ suc (i + 2) = omega arith in rw e (omega (arith, a), b)

-- On a valid buffer: `ReadUntilCrlf` gives nothing and changes nothing when no CRLF is readable.
-- Otherwise what it gives and what stays readable make up what was readable, the part that it gives
-- ends in a CRLF, and no CRLF is left.
abbrev pub IsCut : BufferReader → List ℕ → BufferReader × List ℕ × ℕ → Type 0
IsCut b old (b', given, n) =
    ((n ≡ 0) × (b' ≡ b) × (given ≡ old) × NoCrlf (readable b))
    ⊎ ((given ++ readable b' ≡ readable b)
        × (n ≡ length given)
        × (starts_crlf (drop (n - 2) given) ≡ true)
        × NoCrlf (readable b'))

pub read_until_crlf-IsCut :
    (b : BufferReader) (old : List ℕ) → IsValid b → IsCut b old (read_until_crlf b old)
unfolding read_until_crlf find_last_crlf
read_until_crlf-IsCut b old v = cases (find_end (readable b)) (find_end-IsLast (readable b))
  where
    cases :
        (o : Option ℕ)
        → IsLast (readable b) o
        → IsCut b old (elim o [
          | none ↦ (b, old, 0)
          | some i ↦ (retrieve (i + 2) b, take (i + 2) (readable b), i + 2)
        ])
    cases none n = inl (refl, refl, refl, n)
    cases (some i) (a, l) = inr (
      rw left (take-append-drop (i + 2) (readable b)),
      omega (arith, length-take {0} (i + 2) (readable b), (crlf-within i (readable b) a).0),
      rw start (crlf-within i (readable b) a).1,
      λ j. rw (left, drop-add (i + 2) j (readable b)) (l (i + 2 + j) (omega arith)),
    )
      where
        left : readable (retrieve (i + 2) b) ≡ drop (i + 2) (readable b)
        left = (readable-retrieve (i + 2) b v).1

        start : i + 2 - 2 ≡ i
        start = omega arith
