-- ===== src/Nal/RoundTrip.antt =====
-- `NalUnitWhile` and the constructor of `Nal` on a framed stream.
use obs_rtspserver.Prelude.{
  ℕ, zero, suc, ◌+◌, ◌-◌, ◌≤◌, ◌<◌, ◌≡◌, ◌≢◌, inr, refl, sym, ◌∙◌, Bool, true, false, List, [], ◌∷◌,
  ◌++◌, append_assoc, append-nil, some, arith, ◌==◌, length, length-append, get_or-append_right,
  if◌then◌else◌,
}
use obs_rtspserver.Nal.{
  byte_at, skip_code, find_start_code, find_start_code_internal, unit_loop, nal_unit_while,
}
use obs_rtspserver.Nal.StartCode.{AllBytes, IsFirst-unique, find_start_code_internal-IsFirst}
use obs_rtspserver.Nal.Split.{
  IsUnit, IsUnit-pos, start_code, annexb, AllUnits, find_start_code-unit,
}

skip_code-start_code :
    (n end : ℕ) (pre w : List ℕ) (long : Bool)
    → 4 ≤ n
    → end ≡ length (pre ++ (start_code long ++ w))
    → skip_code n (pre ++ (start_code long ++ w)) end (length pre)
      ≡ length pre + length (start_code long)
unfolding skip_code
skip_code-start_code zero end pre w long h e = absurd (omega arith)
skip_code-start_code (suc zero) end pre w long h e = absurd (omega arith)
skip_code-start_code (suc (suc zero)) end pre w long h e = absurd (omega arith)
skip_code-start_code (suc (suc (suc zero))) end pre w long h e = absurd (omega arith)
skip_code-start_code (suc (suc (suc (suc n)))) end pre w true h e =
    ground (arith, length-append pre (start_code true ++ w), at 0, at 1, at 2, at 3)
  where
    at :
        (j : ℕ)
        → byte_at (pre ++ (start_code true ++ w)) (length pre + j)
          ≡ byte_at (start_code true ++ w) j
    at j = get_or-append_right pre (start_code true ++ w) j 0
skip_code-start_code (suc (suc (suc (suc n)))) end pre w false h e =
    ground (arith, length-append pre (start_code false ++ w), at 0, at 1, at 2)
  where
    at :
        (j : ℕ)
        → byte_at (pre ++ (start_code false ++ w)) (length pre + j)
          ≡ byte_at (start_code false ++ w) j
    at j = get_or-append_right pre (start_code false ++ w) j 0

skip_code_end : (n : ℕ) (d : List ℕ) (end : ℕ) → skip_code n d end end ≡ end
unfolding skip_code
skip_code_end zero d end = refl
skip_code_end (suc n) d end = ground arith

start_code-length : (long : Bool) → 3 ≤ length (start_code long)
start_code-length true = omega arith
start_code-length false = omega arith

length-annexb-le : (us : List (Bool × List ℕ)) → length us ≤ length (annexb us)
length-annexb-le [] = omega arith
length-annexb-le ((long, u) ∷ us) = omega (
  arith,
  length-append {0} (start_code long) (u ++ annexb us),
  length-append {0} u (annexb us),
  start_code-length long,
  length-annexb-le us,
)

-- The first scan stops at the first byte of a framed stream.
first_code-annexb :
    (long : Bool) (u : List ℕ) (us : List (Bool × List ℕ)) (addr : ℕ)
    → IsUnit u
    → AllBytes (annexb ((long, u) ∷ us))
    → find_start_code (annexb ((long, u) ∷ us)) addr 0 (length (annexb ((long, u) ∷ us))) ≡ 0
unfolding find_start_code
first_code-annexb true u us addr v b = rw at (ground arith)
  where
    w : List ℕ
    w = u ++ annexb us

    at : find_start_code_internal (0 ∷ 0 ∷ 0 ∷ 1 ∷ w) addr 0 (length (0 ∷ 0 ∷ 0 ∷ 1 ∷ w)) ≡ 1
    at =
        IsFirst-unique (0 ∷ 0 ∷ 0 ∷ 1 ∷ w)
          (find_start_code_internal-IsFirst (0 ∷ 0 ∷ 0 ∷ 1 ∷ w) addr 0 _ b (omega arith))
          (record {
            from = omega arith;
            none_before = λ i _ l _. let e : i ≡ 0 = omega arith in rw e refl;
            at_code = inr (omega (arith, IsUnit-pos v, length-append {0} u (annexb us)), refl);
          })
first_code-annexb false u us addr v b = rw at (ground arith)
  where
    w : List ℕ
    w = u ++ annexb us

    at : find_start_code_internal (0 ∷ 0 ∷ 1 ∷ w) addr 0 (length (0 ∷ 0 ∷ 1 ∷ w)) ≡ 0
    at =
        IsFirst-unique (0 ∷ 0 ∷ 1 ∷ w)
          (find_start_code_internal-IsFirst (0 ∷ 0 ∷ 1 ∷ w) addr 0 _ b (omega arith))
          (record {
            from = omega arith;
            none_before = λ i _ l _. absurd (omega arith);
            at_code = inr (omega (arith, IsUnit-pos v, length-append {0} u (annexb us)), refl);
          })

module _ {ℓ} {S : Type ℓ} (callback : S → ℕ → ℕ → S × Bool) where
  -- The calls that a walk over units laid out from `p` makes: each unit's start and size, until one
  -- answers false.
  abbrev pub fold_units : ℕ → List (Bool × List ℕ) → S → S × Bool
  fold_units p [] s = (s, true)
  fold_units p ((long, u) ∷ us) s =
      let start = p + length (start_code long) in
      let r = callback s start (length u) in
      let rest = fold_units (start + length u) us r.0 in if r.1 then rest else (r.0, false)

  unit_loop_step :
      (n : ℕ) (d : List ℕ) (addr end p start stop : ℕ) (s : S)
      → skip_code end d end p ≡ start
      → find_start_code d addr start end ≡ stop
      → start ≢ end
      → unit_loop (suc n) callback d addr end p s ≡ (
          let r = callback s start (stop - start) in
          if r.1 then unit_loop n callback d addr end stop r.0 else some (r.0, false))
  unfolding unit_loop
  unit_loop_step n d addr end p start stop s e f ne = rw (e, f) (ground arith)

  unit_loop_end :
      (n : ℕ) (d : List ℕ) (addr end : ℕ) (s : S)
      → unit_loop (suc n) callback d addr end end s ≡ some (s, true)
  unfolding unit_loop
  unit_loop_end n d addr end s = rw (skip_code_end end d end) (ground arith)

  -- Units laid out behind `pre` are visited one after the other.
  unit_loop-fold :
      (n addr : ℕ) (us : List (Bool × List ℕ)) (pre d : List ℕ) (s : S)
      → length us < n
      → d ≡ pre ++ annexb us
      → AllUnits us
      → AllBytes d
      → unit_loop n callback d addr (length d) (length pre) s ≡ some (fold_units (length pre) us s)
  unit_loop-fold zero addr us pre d s h e v b = absurd (omega arith)
  unit_loop-fold (suc n) addr [] pre d s h e v b =
      let len : length d ≡ length pre = rw (e, append-nil pre) in
      rw len (unit_loop_end n d addr (length pre) s)
  unit_loop-fold (suc n) addr ((long, u) ∷ us) pre d s h e v b =
      unit_loop_step n d addr (length d) (length pre) start (start + length u) s skip scan
        (omega (arith, len, IsUnit-pos v.0))
      ∙ rw cancel (
          ground (
            arith,
            rw stop at (
                unit_loop-fold n addr us (ahead ++ u) d r.0 (omega arith)
                  (split ∙ sym (append_assoc ahead u (annexb us))) v.1 b),
          ))
    where
      start : ℕ
      start = length pre + length (start_code long)

      r : S × Bool
      r = callback s start (length u)

      ahead : List ℕ
      ahead = pre ++ start_code long

      split : d ≡ ahead ++ (u ++ annexb us)
      split = e ∙ sym (append_assoc pre (start_code long) (u ++ annexb us))

      len : length d ≡ start + length u + length (annexb us)
      len = rw split (
          omega (
            arith,
            length-append {0} ahead (u ++ annexb us),
            length-append {0} u (annexb us),
            length-append {0} pre (start_code long),
          ))

      cancel : start + length u - start ≡ length u
      cancel = omega arith

      stop : length (ahead ++ u) ≡ start + length u
      stop = omega (arith, length-append {0} ahead u, length-append {0} pre (start_code long))

      four : 4 ≤ length d
      four = omega (arith, len, start_code-length long, IsUnit-pos v.0)

      skip : skip_code (length d) d (length d) (length pre) ≡ start
      skip = rw e (skip_code-start_code _ _ pre (u ++ annexb us) long (rw e at four) refl)

      scan : find_start_code d addr start (length d) ≡ start + length u
      scan =
          rw (split, ← length-append pre (start_code long))
            (find_start_code-unit ahead u v.0 addr us v.1 (rw split at b))

  -- On a framed stream of bytes at any address the walk calls back for exactly the framed units, in order,
  -- and stops early only where a call answers false.
  pub nal_unit_while-annexb :
      (us : List (Bool × List ℕ)) (addr : ℕ) (s : S)
      → AllUnits us
      → AllBytes (annexb us)
      → nal_unit_while callback (annexb us) addr s ≡ some (fold_units 0 us s)
  unfolding nal_unit_while
  nal_unit_while-annexb [] addr s v b = refl
  nal_unit_while-annexb ((long, u) ∷ us) addr s v b =
      rw (nonempty, first_code-annexb long u us addr v.0 b)
        (unit_loop-fold (length (annexb ((long, u) ∷ us)) + 1) addr ((long, u) ∷ us) [] _ s
          (omega (arith, length-annexb-le ((long, u) ∷ us))) refl v b)
    where
      nonempty : (length (annexb ((long, u) ∷ us)) == 0) ≡ false
      nonempty =
          ground (arith, length-append (start_code long) (u ++ annexb us), start_code-length long)
