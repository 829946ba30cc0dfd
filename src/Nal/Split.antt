-- ===== src/Nal/Split.antt =====
-- A byte stream in the framing of Annex B is split into the units that it was made of.
use obs_rtspserver.Prelude.{
  ℕ, ◌+◌, ◌-◌, ◌≤◌, ◌<◌, ◌≡◌, ◌≢◌, ◌⊎◌, inl, inr, refl, sym, ap, ◌∙◌, Bool, true, false, List, [],
  ◌∷◌, ◌++◌, arith, length, length-append, get_or-append_left, get_or-append_right, dec_lt,
}
use obs_rtspserver.Nal.{byte_at, is_code, find_start_code, find_start_code_internal}
use obs_rtspserver.Nal.StartCode.{
  AllBytes, IsFirst, IsFirst-unique, find_start_code_internal-IsFirst,
}

-- A unit as an encoder makes it: no start code inside, and the last byte is not zero, so that the
-- unit is not empty either.
pub record IsUnit (u : List ℕ) : Type 0 where
  pub no_code : (i : ℕ) → i + 2 < length u → is_code u i ≡ false
  pub last_ne : byte_at u (length u - 1) ≢ 0

pub IsUnit-pos : {u : List ℕ} → IsUnit u → 0 < length u
IsUnit-pos {u = []} v = absurd (v.last_ne refl)
IsUnit-pos {u = x ∷ xs} v = omega arith

-- A start code of four bytes, or of three.
abbrev pub start_code : Bool → List ℕ
start_code true = 0 ∷ 0 ∷ 0 ∷ 1 ∷ []
start_code false = 0 ∷ 0 ∷ 1 ∷ []

-- Units, each behind its start code.
abbrev pub annexb : List (Bool × List ℕ) → List ℕ
annexb [] = []
annexb ((long, u) ∷ us) = start_code long ++ (u ++ annexb us)

abbrev pub AllUnits : List (Bool × List ℕ) → Type 0
AllUnits [] = Unit {0}
AllUnits ((long, u) ∷ us) = IsUnit u × AllUnits us

byte_at-append_right :
    (pre xs : List ℕ) (k : ℕ) → byte_at (pre ++ xs) (length pre + k) ≡ byte_at xs k
byte_at-append_right pre xs k = get_or-append_right pre xs k 0

is_code-append_right :
    (pre xs : List ℕ) (k : ℕ) → is_code (pre ++ xs) (length pre + k) ≡ is_code xs k
is_code-append_right pre xs k = ground (arith, byte_at-append_right pre xs k, shifted 1, shifted 2)
  where
    shifted : (j : ℕ) → byte_at (pre ++ xs) (length pre + k + j) ≡ byte_at xs (k + j)
    shifted j = ap (byte_at (pre ++ xs)) (omega arith) ∙ byte_at-append_right pre xs (k + j)

-- No start code begins inside a unit, whatever follows it.
unit-no_code : (u rest : List ℕ) (k : ℕ) → IsUnit u → k < length u → is_code (u ++ rest) k ≡ false
unit-no_code u rest k v h = elim (dec_lt (k + 2) (length u)) [
  | yes l ↦ ground (arith, inside k h, inside (k + 1), inside (k + 2), v.no_code k l)
  | no m ↦ elim (dec_lt (k + 1) (length u)) [
    | yes l ↦ ground (arith, inside (k + 1) l, last (k + 1))
    | no n ↦ ground (arith, inside k h, last k)
  ]
]
  where
    inside : (i : ℕ) → i < length u → byte_at (u ++ rest) i ≡ byte_at u i
    inside i l = get_or-append_left u rest i 0 l

    last : (i : ℕ) → i + 1 ≡ length u → byte_at u i ≢ 0
    last i e z = v.last_ne (ap (byte_at u) (omega arith) ∙ z)

-- What is first in a suffix of the frame is first in the frame.
IsFirst-append :
    (pre xs : List ℕ) (k : ℕ)
    → ((j : ℕ) → j < k → j + 3 < length xs → is_code xs j ≡ false)
    → (k ≡ length xs) ⊎ ((k + 3 < length xs) × (is_code xs k ≡ true))
    → IsFirst (pre ++ xs) (length pre) (length pre + length xs) (length pre + k)
IsFirst-append pre xs k none_before at = record {
  from = omega arith;
  none_before = λ i a b c.
      let e : length pre + (i - length pre) ≡ i = omega arith in
      ap (is_code (pre ++ xs)) (sym e)
      ∙ is_code-append_right pre xs (i - length pre)
      ∙ none_before (i - length pre) (omega arith) (omega arith);
  at_code = elim at [
    | inl e ↦ inl (omega arith)
    | inr (l, c) ↦ inr (omega arith, is_code-append_right pre xs k ∙ c)
  ];
}

module _ (pre u : List ℕ) (v : IsUnit u) (addr : ℕ) where
  -- The scan from a unit's start finds the place `k` behind the unit where the next code begins.
  internal-at :
      (rest : List ℕ) (k : ℕ)
      → AllBytes (pre ++ (u ++ rest))
      → ((j : ℕ) → length u ≤ j → j < k → is_code (u ++ rest) j ≡ false)
      → (k ≡ length (u ++ rest)) ⊎ ((k + 3 < length (u ++ rest)) × (is_code (u ++ rest) k ≡ true))
      → find_start_code_internal
          (pre ++ (u ++ rest))
          addr
          (length pre)
          (length pre + length (u ++ rest))
        ≡ length pre + k
  internal-at rest k b gap at =
      IsFirst-unique (pre ++ (u ++ rest))
        (find_start_code_internal-IsFirst (pre ++ (u ++ rest)) addr (length pre) _ b (omega arith))
        (IsFirst-append pre (u ++ rest) k before at)
    where
      before : (j : ℕ) → j < k → j + 3 < length (u ++ rest) → is_code (u ++ rest) j ≡ false
      before j h _ = elim (dec_lt j (length u)) [
        | yes i ↦ unit-no_code u rest j v i
        | no i ↦ gap j (omega arith) h
      ]

  code_behind :
      (rest : List ℕ) (j k : ℕ) → k ≡ length u + j → is_code (u ++ rest) k ≡ is_code rest j
  code_behind rest j k e = ap (is_code (u ++ rest)) e ∙ is_code-append_right u rest j

  -- The unit's last byte, and the byte behind the unit, in the frame.
  last_in_frame : (rest : List ℕ) → byte_at (pre ++ (u ++ rest)) (length pre + length u - 1) ≢ 0
  last_in_frame rest z = v.last_ne (
      sym (get_or-append_left u rest (length u - 1) 0 (omega (arith, IsUnit-pos v)))
      ∙ sym (byte_at-append_right pre (u ++ rest) (length u - 1))
      ∙ ap (byte_at (pre ++ (u ++ rest))) (omega (arith, IsUnit-pos v))
      ∙ z)

  next_in_frame :
      (rest : List ℕ)
      → byte_at (pre ++ (u ++ rest)) (length pre + (length u + 1) - 1) ≡ byte_at rest 0
  next_in_frame rest =
      ap (byte_at (pre ++ (u ++ rest))) (omega arith)
      ∙ byte_at-append_right pre (u ++ rest) (length u + 0)
      ∙ byte_at-append_right u rest 0

  find_start_code-last :
      AllBytes (pre ++ (u ++ []))
      → find_start_code (pre ++ (u ++ [])) addr (length pre) (length pre + length (u ++ []))
        ≡ length pre + length u
  unfolding find_start_code
  find_start_code-last b =
      rw
        (internal-at [] (length (u ++ [])) b
          (λ j h k. absurd (omega (arith, length-append {0} u []))) (inl refl))
        (ground (arith, length-append u []))

  find_start_code-short :
      (w : List ℕ)
      → 0 < length w
      → AllBytes (pre ++ (u ++ (0 ∷ 0 ∷ 1 ∷ w)))
      → find_start_code
          (pre ++ (u ++ (0 ∷ 0 ∷ 1 ∷ w)))
          addr
          (length pre)
          (length pre + length (u ++ (0 ∷ 0 ∷ 1 ∷ w)))
        ≡ length pre + length u
  unfolding find_start_code
  find_start_code-short w h b = rw at (ground (arith, last_in_frame (0 ∷ 0 ∷ 1 ∷ w)))
    where
      at :
          find_start_code_internal
            (pre ++ (u ++ (0 ∷ 0 ∷ 1 ∷ w)))
            addr
            (length pre)
            (length pre + length (u ++ (0 ∷ 0 ∷ 1 ∷ w)))
          ≡ length pre + length u
      at =
          internal-at _ (length u) b (λ j i k. absurd (omega arith))
            (inr (
              omega (arith, length-append {0} u (0 ∷ 0 ∷ 1 ∷ w)),
              code_behind (0 ∷ 0 ∷ 1 ∷ w) 0 (length u) (omega arith),
            ))

  find_start_code-long :
      (w : List ℕ)
      → 0 < length w
      → AllBytes (pre ++ (u ++ (0 ∷ 0 ∷ 0 ∷ 1 ∷ w)))
      → find_start_code
          (pre ++ (u ++ (0 ∷ 0 ∷ 0 ∷ 1 ∷ w)))
          addr
          (length pre)
          (length pre + length (u ++ (0 ∷ 0 ∷ 0 ∷ 1 ∷ w)))
        ≡ length pre + length u
  unfolding find_start_code
  find_start_code-long w h b =
      rw at (ground (arith, next_in_frame (0 ∷ 0 ∷ 0 ∷ 1 ∷ w), length-append u (0 ∷ 0 ∷ 0 ∷ 1 ∷ w)))
    where
      at :
          find_start_code_internal
            (pre ++ (u ++ (0 ∷ 0 ∷ 0 ∷ 1 ∷ w)))
            addr
            (length pre)
            (length pre + length (u ++ (0 ∷ 0 ∷ 0 ∷ 1 ∷ w)))
          ≡ length pre + (length u + 1)
      at =
          internal-at _ (length u + 1) b
            (λ j i k. code_behind (0 ∷ 0 ∷ 0 ∷ 1 ∷ w) 0 j (omega arith))
            (inr (
              omega (arith, length-append {0} u (0 ∷ 0 ∷ 0 ∷ 1 ∷ w)),
              code_behind (0 ∷ 0 ∷ 0 ∷ 1 ∷ w) 1 (length u + 1) refl,
            ))

  -- From the start of a unit the scan finds its end, whichever start code follows.
  pub find_start_code-unit :
      (us : List (Bool × List ℕ))
      → AllUnits us
      → AllBytes (pre ++ (u ++ annexb us))
      → find_start_code
          (pre ++ (u ++ annexb us))
          addr
          (length pre)
          (length (pre ++ (u ++ annexb us)))
        ≡ length pre + length u
  find_start_code-unit [] a b = rw (length-append pre (u ++ [])) (find_start_code-last b)
  find_start_code-unit ((true, x) ∷ us) a b =
      rw (length-append pre (u ++ annexb ((true, x) ∷ us))) (
        find_start_code-long (x ++ annexb us)
          (omega (arith, IsUnit-pos a.0, length-append {0} x (annexb us))) b)
  find_start_code-unit ((false, x) ∷ us) a b =
      rw (length-append pre (u ++ annexb ((false, x) ∷ us))) (
        find_start_code-short (x ++ annexb us)
          (omega (arith, IsUnit-pos a.0, length-append {0} x (annexb us))) b)
