-- ===== src/Packetizer/Window.antt =====
-- How many units an aggregation packet takes.
use obs_rtspserver.Prelude.{
  ℕ, zero, suc, ◌+◌, ◌-◌, ◌≤◌, ◌<◌, ◌≡◌, ◌⊎◌, inl, inr, refl, ap, List, [], ◌∷◌, arith, ltb, ltb→lt,
  if◌then◌else◌, length, length-append, get_or, Bool-cases,
}
use obs_rtspserver.Rtp.{max_payload}
use obs_rtspserver.Packetizer.{Codec, count_units, window}
use obs_rtspserver.Packetizer.Packets.{aggregated}

-- What the counting loop returns from `size_count` and `n`, when it has counted `m` units.
record Counted (us : List (List ℕ)) (size n : ℕ) (r : ℕ × ℕ) : Type 0 where
  m : ℕ
  total : r.0 ≡ size + length (aggregated m us)
  count : r.1 ≡ n + m
  enough : m ≤ length us
  fits : (m ≡ 0) ⊎ ((k : ℕ) × (m ≡ suc k) × (size + length (aggregated k us) < max_payload))
  some : (m ≡ 0) → (us ≡ []) ⊎ (max_payload ≤ size)

module _ {M : Type 0} (c : Codec M) where
  count_units-Counted :
      (us : List (List ℕ)) (size n : ℕ) → Counted us size n (count_units c us size n)
  unfolding count_units
  count_units-Counted [] size n = record {
    m = 0;
    total = omega arith;
    count = omega arith;
    enough = omega arith;
    fits = inl refl;
    some = λ _. inl refl;
  }
  count_units-Counted (u ∷ us) size n = elim (Bool-cases (ltb size max_payload)) [
    | inl t ↦ rw t (more (count_units-Counted us (size + (length u + 2)) (n + 1)) (ltb→lt _ _ t))
    | inr t ↦ rw t (record {
      m = 0;
      total = omega arith;
      count = omega arith;
      enough = omega arith;
      fits = inl refl;
      some = λ _. inr (ground arith);
    })
  ]
    where
      grow :
          (k : ℕ) → length (aggregated (suc k) (u ∷ us)) ≡ length u + 2 + length (aggregated k us)
      grow k = omega (arith, length-append {0} u (aggregated k us))

      before :
          (m : ℕ)
          → (m ≡ 0)
            ⊎ ((k : ℕ) × (m ≡ suc k)
                × (size + (length u + 2) + length (aggregated k us) < max_payload))
          → size < max_payload
          → size + length (aggregated m (u ∷ us)) < max_payload
      before m (inl e) l = rw e (omega arith)
      before m (inr (k, e, f)) l = rw e (omega (arith, grow k))

      more :
          {r : ℕ × ℕ}
          → Counted us (size + (length u + 2)) (n + 1) r
          → size < max_payload
          → Counted (u ∷ us) size n r
      more k l = record {
        m = suc k.m;
        total = omega (arith, k.total, grow k.m);
        count = omega (arith, k.count);
        enough = omega (arith, k.enough);
        fits = inr (k.m, refl, before k.m k.fits l);
        some = λ e. absurd (omega arith);
      }

  -- A unit's share of an aggregation packet.
  aggregated-suc :
      (k : ℕ) (us : List (List ℕ))
      → suc k ≤ length us
      → length (aggregated (suc k) us) ≡ length (aggregated k us) + (length (get_or us k []) + 2)
  aggregated-suc k [] h = absurd (omega arith)
  aggregated-suc zero (u ∷ us) h = omega (arith, length-append {0} u [])
  aggregated-suc (suc k) (u ∷ us) h = omega (
    arith,
    aggregated-suc k us (omega arith),
    length-append {0} u (aggregated k us),
    length-append {0} u (aggregated (suc k) us),
  )

  -- An aggregation packet takes units that are there, its size is counted right, and it fits.
  pub record Fits (us : List (List ℕ)) (r : ℕ × ℕ) : Type 0 where
    pub one : 1 ≤ r.1
    pub enough : r.1 ≤ length us
    pub total : 2 ≤ r.1 → r.0 ≡ c.header_size + length (aggregated r.1 us)
    pub fits : 2 ≤ r.1 → r.0 ≤ max_payload

  pub window-Fits :
      (u : List ℕ) (us : List (List ℕ))
      → c.header_size < max_payload
      → Fits (u ∷ us) (window c (u ∷ us))
  unfolding window
  window-Fits u us h = go (count_units-Counted (u ∷ us) c.header_size 0)
    where
      total : {a b j : ℕ} → a ≡ 0 + b → b ≡ suc j → a ≡ suc j
      total p q = omega arith

      go :
          {r : ℕ × ℕ}
          → Counted (u ∷ us) c.header_size 0 r
          → Fits (u ∷ us) (
              if ltb max_payload r.0
              then (if ltb 1 r.1
                  then (r.0 - (length (get_or (u ∷ us) (r.1 - 1) []) + 2), r.1 - 1)
                  else r)
              else r)
      go {r} k = elim k.fits [
        | inl z ↦ absurd (ground (arith, k.some z))
        | inr (j, e, l) ↦
            let less : r.1 - 1 ≡ j = omega (arith, k.count) in
            ground (
              arith,
              k.total,
              k.count,
              k.enough,
              less,
              aggregated-suc j (u ∷ us) (omega (arith, k.enough)),
              ap (λ i. length (get_or (u ∷ us) i [])) less,
              ap (λ i. length (aggregated i (u ∷ us))) less,
              ap (λ i. length (aggregated i (u ∷ us))) e,
              ap (λ i. length (aggregated i (u ∷ us))) (total k.count e),
            )
      ]
