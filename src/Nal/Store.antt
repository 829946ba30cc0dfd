-- ===== src/Nal/Store.antt =====
-- The constructor of `Nal`: two passes over the frame, the second into the slots that the first
-- one counted.
use obs_rtspserver.Prelude.{
  ℕ, ◌+◌, ◌%◌, ◌^◌, ◌<◌, ◌≡◌, refl, sym, ap, ◌∙◌, Bool, true, List, [], ◌∷◌, ◌++◌, append_assoc,
  Option, none, some, arith, length, length-append, set, replicate, take-length-append,
  drop-length-append,
}
use obs_rtspserver.Nal.{slice, Slots, store_unit, get_nal_unit_count, nal_new}
use obs_rtspserver.Nal.StartCode.{AllBytes}
use obs_rtspserver.Nal.Split.{start_code, annexb, AllUnits}
use obs_rtspserver.Nal.RoundTrip.{fold_units, nal_unit_while-annexb}

-- The slots that hold these units.
abbrev pub filled : List (Bool × List ℕ) → List (Option (List ℕ))
filled [] = []
filled ((long, u) ∷ us) = some u ∷ filled us

fold_count :
    (us : List (Bool × List ℕ)) (p n : ℕ)
    → fold_units (λ n _ _. (n + 1, true)) p us n ≡ (n + length us, true)
fold_count [] p n = ap (λ k. (k, true)) (omega arith)
fold_count ((long, u) ∷ us) p n = fold_count us _ (n + 1) ∙ ap (λ k. (k, true)) (omega arith)

set-length-append {ℓ} :
    {A : Type ℓ} (xs ys : List A) (y v : A) → set (xs ++ y ∷ ys) (length xs) v ≡ xs ++ v ∷ ys
set-length-append [] ys y v = refl
set-length-append (x ∷ xs) ys y v = ap (◌∷◌ x) (set-length-append xs ys y v)

slice-append :
    (pre u rest : List ℕ) (p : ℕ) → p ≡ length pre → slice (pre ++ (u ++ rest)) p (length u) ≡ u
slice-append pre u rest p e = rw (e, drop-length-append pre (u ++ rest), take-length-append u rest)

store_unit-free :
    (d : List ℕ) (done rest : List (Option (List ℕ))) (u : List ℕ) (start : ℕ)
    → slice d start (length u) ≡ u
    → store_unit d (done ++ none ∷ rest, length done) start (length u)
      ≡ ((done ++ some u ∷ rest, length done + 1), true)
unfolding store_unit
store_unit-free d done rest u start e =
    rw (set-length-append done rest none (some (slice d start (length u))), e)
      (ground (arith, length-append done (none ∷ rest)))

fold_store :
    (us : List (Bool × List ℕ)) (pre d : List ℕ) (done : List (Option (List ℕ)))
    → d ≡ pre ++ annexb us
    → fold_units (store_unit d) (length pre) us (done ++ replicate (length us) none, length done)
      ≡ ((done ++ filled us, length done + length us), true)
fold_store [] pre d done e = ap (λ k. ((done ++ [], k), true)) (omega arith)
fold_store ((long, u) ∷ us) pre d done e =
    let later =
      rw
        (
          next,
          count,
          append_assoc done (some u ∷ []) rest,
          append_assoc done (some u ∷ []) (filled us),
        )
        at (fold_store us ((pre ++ start_code long) ++ u) d (done ++ some u ∷ []) (regroup e)) in
    rw (store_unit-free d done rest u _ (cut e))
      (later ∙ ap (λ k. ((done ++ some u ∷ filled us, k), true)) (omega arith))
  where
    rest : List (Option (List ℕ))
    rest = replicate (length us) none

    count : length (done ++ some u ∷ []) ≡ length done + 1
    count = omega (arith, length-append {0} done (some u ∷ []))

    next : length ((pre ++ start_code long) ++ u) ≡ length pre + length (start_code long) + length u
    next = omega (
      arith,
      length-append {0} (pre ++ start_code long) u,
      length-append {0} pre (start_code long),
    )

    regroup :
        d ≡ pre ++ (start_code long ++ (u ++ annexb us))
        → d ≡ ((pre ++ start_code long) ++ u) ++ annexb us
    regroup q =
        rw
          (
            append_assoc (pre ++ start_code long) u (annexb us),
            append_assoc pre (start_code long) (u ++ annexb us),
          )
          q

    cut :
        d ≡ pre ++ (start_code long ++ (u ++ annexb us))
        → slice d (length pre + length (start_code long)) (length u) ≡ u
    cut q =
        rw (q, ← append_assoc pre (start_code long) (u ++ annexb us))
          (slice-append (pre ++ start_code long) u (annexb us) _
            (sym (length-append pre (start_code long))))

slots-count :
    (us : List (Bool × List ℕ)) (n : ℕ) → n ≡ length us → n < 2 ^ 32 → n % 2 ^ 32 ≡ length us
slots-count us n e h = omega arith

pub get_nal_unit_count-annexb :
    (us : List (Bool × List ℕ)) (addr : ℕ)
    → AllUnits us
    → AllBytes (annexb us)
    → length us < 2 ^ 32
    → get_nal_unit_count (annexb us) addr ≡ some (length us)
unfolding get_nal_unit_count
get_nal_unit_count-annexb us addr v b h =
    rw
      (
        nal_unit_while-annexb {S = ℕ} (λ n _ _. (n + 1, true)) us addr 0 v b
            ∙ ap some (fold_count us 0 0),
        get_nal_unit_count,
      )
      (ap some (slots-count us (0 + length us) (omega arith) (omega arith)))

-- For a frame of fewer than 2^32 units, framed by start codes of either length, at any address, the
-- constructor fills every slot that it has counted, with the framed units in their order.
pub nal_new-annexb :
    (us : List (Bool × List ℕ)) (addr : ℕ)
    → AllUnits us
    → AllBytes (annexb us)
    → length us < 2 ^ 32
    → nal_new (annexb us) addr ≡ some (filled us)
unfolding nal_new
nal_new-annexb us addr v b h =
    rw (get_nal_unit_count-annexb us addr v b h, nal_new)
      (rw
        (
          nal_unit_while-annexb {S = Slots} (store_unit (annexb us)) us addr
                (replicate (length us) none, 0) v b
              ∙ ap some (fold_store us [] (annexb us) [] refl),
          nal_new,
        )
        refl)
