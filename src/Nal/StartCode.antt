-- ===== src/Nal/StartCode.antt =====
-- What the start code scan finds, whatever the alignment of the frame.
use obs_rtspserver.Prelude.{
  ℕ, zero, suc, ◌+◌, ◌-◌, ◌*◌, ◌%◌, ◌≤◌, ◌<◌, ◌≡◌, ◌⊎◌, inl, inr, refl, ap, true, false, ◌&&◌, List,
  [], ◌∷◌, Option, none, some, arith, ltb, ltb→lt, Bool-cases, dec_lt, Option-cases,
}
use obs_rtspserver.Nal.{
  byte_at, is_code, Scan, found, upto, load_word, zero_byte_test, head_scan, word_hit, word_scan,
  tail_scan, and_then, find_start_code_internal,
}
use obs_rtspserver.Nal.ZeroByte.{zero_byte_test-false}

-- The frame's elements are bytes.
abbrev pub AllBytes : List ℕ → Type 0
AllBytes [] = Unit {0}
AllBytes (x ∷ xs) = (x < 256) × AllBytes xs

pub byte_at-lt : (d : List ℕ) (i : ℕ) → AllBytes d → byte_at d i < 256
byte_at-lt [] i h = omega arith
byte_at-lt (x ∷ xs) zero h = h.0
byte_at-lt (x ∷ xs) (suc i) h = byte_at-lt xs i h.1

module _ (d : List ℕ) where
  -- No start code begins in `[p, q)`.
  abbrev pub NoCode : ℕ → ℕ → Type 0
  NoCode p q = (i : ℕ) → p ≤ i → i < q → is_code d i ≡ false

  pub NoCode-join : {p q r : ℕ} → NoCode p q → NoCode q r → NoCode p r
  NoCode-join {p} {q} {r} f g i h k = elim (dec_lt i q) [
    | yes l ↦ f i h l
    | no l ↦ g i (omega arith) k
  ]

  -- `r` is the first place in `[p, end - 3)` where a start code begins, or `end` if there is none.
  pub record IsFirst (p end r : ℕ) : Type 0 where
    pub from : p ≤ r
    pub none_before : (i : ℕ) → p ≤ i → i < r → i + 3 < end → is_code d i ≡ false
    pub at_code : (r ≡ end) ⊎ ((r + 3 < end) × (is_code d r ≡ true))

  -- What is known after a loop: a place found, or no code before the place where the loop stopped.
  abbrev Scanned : ℕ → ℕ → Scan → Type 0
  Scanned p end (found r) = (p ≤ r) × NoCode p r × (r + 3 < end) × (is_code d r ≡ true)
  Scanned p end (upto q) = (p ≤ q) × NoCode p q

  -- A loop that stopped without a find stopped by its test, `lim` before the end.
  abbrev Stops : ℕ → ℕ → Scan → Type 0
  Stops lim end (found r) = Unit {0}
  Stops lim end (upto q) = end ≤ q + lim

  NoCode-nil : (p : ℕ) → NoCode p p
  NoCode-nil p i h k = absurd (omega arith)

  NoCode-one : (p : ℕ) → is_code d p ≡ false → NoCode p (p + 1)
  NoCode-one p e i h k = let same : i ≡ p = omega arith in rw same e

  Scanned-later : (p q end : ℕ) (s : Scan) → p ≤ q → NoCode p q → Scanned q end s → Scanned p end s
  Scanned-later p q end (found r) l f (a, b, c, e) = (omega arith, NoCode-join f b, c, e)
  Scanned-later p q end (upto r) l f (a, b) = (omega arith, NoCode-join f b)

  NoCode-step : (p q : ℕ) → q ≡ p + 1 → is_code d p ≡ false → NoCode p q
  NoCode-step p q e c = rw e (NoCode-one p c)

  -- Nothing begins at four places in a row.
  NoCode-four :
      (p : ℕ)
      → is_code d p ≡ false
      → is_code d (p + 1) ≡ false
      → is_code d (p + 2) ≡ false
      → is_code d (p + 3) ≡ false
      → NoCode p (p + 4)
  NoCode-four p a b c e = NoCode-join (NoCode-step p (p + 1) refl a) (
      NoCode-join (NoCode-step (p + 1) (p + 2) (omega arith) b) (
        NoCode-join (NoCode-step (p + 2) (p + 3) (omega arith) c)
          (NoCode-step (p + 3) (p + 4) (omega arith) e)))

  -- The bytes at a sum of offsets.
  offsets :
      (p : ℕ)
      → (byte_at d (p + 1 + 1) ≡ byte_at d (p + 2))
        × (byte_at d (p + 1 + 2) ≡ byte_at d (p + 3))
        × (byte_at d (p + 2 + 1) ≡ byte_at d (p + 3))
        × (byte_at d (p + 2 + 2) ≡ byte_at d (p + 4))
        × (byte_at d (p + 3 + 1) ≡ byte_at d (p + 4))
        × (byte_at d (p + 3 + 2) ≡ byte_at d (p + 5))
  offsets p = (
    at (omega arith),
    at (omega arith),
    at (omega arith),
    at (omega arith),
    at (omega arith),
    at (omega arith),
  )
    where
      at : {i j : ℕ} → i ≡ j → byte_at d i ≡ byte_at d j
      at e = ap (byte_at d) e

  -- What the checks on one word tell of the four places in it.
  abbrev WordSeen : ℕ → Option ℕ → Type 0
  WordSeen p none =
      (is_code d p ≡ false)
      × (is_code d (p + 1) ≡ false)
      × (is_code d (p + 2) ≡ false)
      × (is_code d (p + 3) ≡ false)
  WordSeen p (some r) =
      ((r ≡ p) × (is_code d p ≡ true))
      ⊎ ((r ≡ p + 1) × (is_code d p ≡ false) × (is_code d (p + 1) ≡ true))
      ⊎ ((r ≡ p + 2)
          × (is_code d p ≡ false)
          × (is_code d (p + 1) ≡ false)
          × (is_code d (p + 2) ≡ true))
      ⊎ ((r ≡ p + 3)
          × (is_code d p ≡ false)
          × (is_code d (p + 1) ≡ false)
          × (is_code d (p + 2) ≡ false)
          × (is_code d (p + 3) ≡ true))

  word_hit-WordSeen : (p : ℕ) → WordSeen p (word_hit d p)
  unfolding word_hit
  word_hit-WordSeen p = ground (arith, offsets p)

  skipped-WordSeen : (p : ℕ) → AllBytes d → zero_byte_test (load_word d p) ≡ false → WordSeen p none
  skipped-WordSeen p v e = ground (
    arith,
    offsets p,
    zero_byte_test-false (byte_at d p) (byte_at d (p + 1)) (byte_at d (p + 2)) (byte_at d (p + 3))
        (byte_at-lt d p v) (byte_at-lt d (p + 1) v) (byte_at-lt d (p + 2) v)
        (byte_at-lt d (p + 3) v) e,
  )

  head_scan-Scanned : (n a end p : ℕ) → Scanned p end (head_scan n d a end p)
  unfolding head_scan
  head_scan-Scanned zero a end p = (omega arith, NoCode-nil p)
  head_scan-Scanned (suc n) a end p = elim (Bool-cases (ltb p a && ltb (p + 3) end)) [
    | inl t ↦ elim (Bool-cases (is_code d p)) [
      | inl c ↦ rw (t, c) (omega arith, NoCode-nil p, ground arith, c)
      | inr c ↦
          rw (t, c)
            (Scanned-later p (p + 1) end _ (omega arith) (NoCode-one p c)
              (head_scan-Scanned n a end (p + 1)))
    ]
    | inr t ↦ rw t (omega arith, NoCode-nil p)
  ]

  tail_scan-Scanned : (n end p : ℕ) → Scanned p end (tail_scan n d end p)
  unfolding tail_scan
  tail_scan-Scanned zero end p = (omega arith, NoCode-nil p)
  tail_scan-Scanned (suc n) end p = elim (Bool-cases (ltb (p + 3) end)) [
    | inl t ↦ elim (Bool-cases (is_code d p)) [
      | inl c ↦ rw (t, c) (omega arith, NoCode-nil p, ltb→lt _ _ t, c)
      | inr c ↦
          rw (t, c)
            (Scanned-later p (p + 1) end _ (omega arith) (NoCode-one p c)
              (tail_scan-Scanned n end (p + 1)))
    ]
    | inr t ↦ rw t (omega arith, NoCode-nil p)
  ]

  -- A word with a find, and one without.
  WordSeen-Scanned : (p end r : ℕ) → p + 6 < end → WordSeen p (some r) → Scanned p end (found r)
  WordSeen-Scanned p end r l (inl (e, c)) = rw e (omega arith, NoCode-nil p, omega arith, c)
  WordSeen-Scanned p end r l (inr (inl (e, a, c))) =
      rw e (omega arith, NoCode-one p a, omega arith, c)
  WordSeen-Scanned p end r l (inr (inr (inl (e, a, b, c)))) = rw e (
    omega arith,
    NoCode-join (NoCode-one p a) (NoCode-step (p + 1) (p + 2) (omega arith) b),
    omega arith,
    c,
  )
  WordSeen-Scanned p end r l (inr (inr (inr (e, a, b, f, c)))) = rw e (
    omega arith,
    NoCode-join (NoCode-one p a) (
        NoCode-join (NoCode-step (p + 1) (p + 2) (omega arith) b)
          (NoCode-step (p + 2) (p + 3) (omega arith) f)),
    omega arith,
    c,
  )

  WordSeen-NoCode : (p : ℕ) → WordSeen p none → NoCode p (p + 4)
  WordSeen-NoCode p (a, b, c, e) = NoCode-four p a b c e

  word_scan-Scanned : (n end p : ℕ) → AllBytes d → Scanned p end (word_scan n d end p)
  unfolding word_scan
  word_scan-Scanned zero end p v = (omega arith, NoCode-nil p)
  word_scan-Scanned (suc n) end p v = elim (Bool-cases (ltb (p + 6) end)) [
    | inl t ↦ elim (Bool-cases (zero_byte_test (load_word d p))) [
      | inl z ↦ elim (Option-cases (word_hit d p)) [
        | inl e ↦
            rw (t, z, e)
              (go (word_scan-Scanned n end (p + 4) v)
                (WordSeen-NoCode p (rw e at (word_hit-WordSeen p))))
        | inr (r, e) ↦
            rw (t, z, e) (WordSeen-Scanned p end r (ltb→lt _ _ t) (rw e at (word_hit-WordSeen p)))
      ]
      | inr z ↦
          rw (t, z)
            (go (word_scan-Scanned n end (p + 4) v) (WordSeen-NoCode p (skipped-WordSeen p v z)))
    ]
    | inr t ↦ rw t (omega arith, NoCode-nil p)
  ]
    where
      go :
          Scanned (p + 4) end (word_scan n d end (p + 4))
          → NoCode p (p + 4)
          → Scanned p end (word_scan n d end (p + 4))
      go later f = Scanned-later p (p + 4) end _ (omega arith) f later

  -- The fuel of the two long loops is enough for them to stop by their own tests.
  word_scan-Stops : (n end p : ℕ) → end ≤ p + 4 * n → Stops 6 end (word_scan n d end p)
  unfolding word_scan
  word_scan-Stops zero end p h = omega arith
  word_scan-Stops (suc n) end p h = ground (arith, word_scan-Stops n end (p + 4))

  tail_scan-Stops : (n end p : ℕ) → end ≤ p + n → Stops 3 end (tail_scan n d end p)
  unfolding tail_scan
  tail_scan-Stops zero end p h = omega arith
  tail_scan-Stops (suc n) end p h = ground (arith, tail_scan-Stops n end (p + 1))

  and_then-IsFirst :
      (p end : ℕ) (s : Scan) (k : ℕ → ℕ)
      → Scanned p end s
      → ((q : ℕ) → s ≡ upto q → p ≤ q → NoCode p q → IsFirst p end (k q))
      → IsFirst p end (and_then s k)
  and_then-IsFirst p end (found r) k (l, f, e, c) h = record {
    from = l;
    none_before = λ i a b _. f i a b;
    at_code = inr (e, c);
  }
  and_then-IsFirst p end (upto q) k (l, f) h = h q refl l f

  -- For a frame of bytes at any address, and a start within it: the search returns the first place
  -- where a start code of three bytes begins before the last three bytes, or the end if there is none.
  pub find_start_code_internal-IsFirst :
      (addr p end : ℕ)
      → AllBytes d
      → p ≤ end
      → IsFirst p end (find_start_code_internal d addr p end)
  unfolding find_start_code_internal
  find_start_code_internal-IsFirst addr p end v l =
      and_then-IsFirst p end (head_scan 4 d (p + 4 - (addr + p) % 4) end p) _
        (head_scan-Scanned 4 _ end p)
        λ q _ pq f.
          and_then-IsFirst p end (word_scan end d end q) _
            (Scanned-later p q end _ pq f (word_scan-Scanned end end q v))
            λ r _ pr g.
              and_then-IsFirst p end (tail_scan end d end r) _
                (Scanned-later p r end _ pr g (tail_scan-Scanned end end r))
                λ s stop ps h.
                  let last : end ≤ s + 3 = rw stop at (tail_scan-Stops end end r (omega arith)) in
                  record {
                    from = l;
                    none_before = λ i a _ b. h i a (omega arith);
                    at_code = inl refl;
                  }

  pub IsFirst-unique : {p end r s : ℕ} → IsFirst p end r → IsFirst p end s → r ≡ s
  IsFirst-unique {p} {end} {r} {s} f g = ground (arith, f.none_before s, g.none_before r)
