-- ===== src/MemoryPool/Blocks.antt =====
-- No block of a pool is in use twice, and none is lost.
use obs_rtspserver.Prelude.{
  ℕ, zero, suc, ◌+◌, ◌-◌, ◌≤◌, ◌<◌, ◌≡◌, ◌≢◌, refl, ap, false, none, some, List, [], ◌∷◌, arith,
  ◌==◌, if◌then◌else◌, ℕ_discrete,
}
use obs_rtspserver.MemoryPool.{MemoryPool, ids, pool_init, pool_alloc, pool_free}

-- How often a number is in a list.
abbrev pub count : ℕ → List ℕ → ℕ
count b [] = 0
count b (x ∷ xs) = let rest = count b xs in if x == b then rest + 1 else rest

-- The list without one of these numbers.
abbrev pub without : ℕ → List ℕ → List ℕ
without b [] = []
without b (x ∷ xs) = let rest = without b xs in if x == b then xs else x ∷ rest

-- A client's step: it asks for a block, or gives back one that it has. A pool and the blocks that are
-- in use, before and after.
pub data Step : MemoryPool × List ℕ → MemoryPool × List ℕ → Type 0 where
  took :
      {m : MemoryPool} {used : List ℕ} {b : ℕ}
      → (pool_alloc m).1 ≡ some b
      → Step (m, used) ((pool_alloc m).0, b ∷ used)
  gave :
      {m : MemoryPool} {used : List ℕ} (b : ℕ)
      → 1 ≤ count b used
      → Step (m, used) (pool_free b m, without b used)

pub data Steps (from : MemoryPool × List ℕ) : MemoryPool × List ℕ → Type 0 where
  stay : Steps from from
  step : {mid to : MemoryPool × List ℕ} → Steps from mid → Step mid to → Steps from to

count-without :
    (b c : ℕ) (xs : List ℕ)
    → 1 ≤ count b xs
    → count c (without b xs) + count c (b ∷ []) ≡ count c xs
count-without b c [] h = absurd (omega arith)
count-without b c (x ∷ xs) h = ground (arith, count-without b c xs)

-- Every block is free or in use, once.
abbrev pub IsKept : List ℕ → MemoryPool × List ℕ → Type 0
IsKept all (m, used) = (c : ℕ) → count c m.free + count c used ≡ count c all

count-alloc :
    (size : ℕ) (xs : List ℕ) (b c : ℕ)
    → (pool_alloc (record { block_size = size; free = xs })).1 ≡ some b
    → count c (pool_alloc (record { block_size = size; free = xs })).0.free + count c (b ∷ [])
      ≡ count c xs
unfolding pool_alloc
count-alloc size [] b c h =
    absurd (omega (arith, ap {B = ℕ} (λ o. elim o [ none ↦ 0 | some y ↦ 1 ]) h))
count-alloc size (x ∷ xs) b c h =
    let same : x ≡ b = ap {B = ℕ} (λ o. elim o [ none ↦ 0 | some y ↦ y ]) h in ground (arith, same)

pool_free-count :
    (m : MemoryPool) (b c : ℕ)
    → b ≢ 0
    → count c (pool_free b m).free ≡ count c m.free + count c (b ∷ [])
unfolding pool_free
pool_free-count m b c h = let e : (b == 0) ≡ false = ground (arith, h) in rw e (ground arith)

Step-IsKept :
    (all : List ℕ) {p q : MemoryPool × List ℕ}
    → count 0 all ≡ 0
    → Step p q
    → IsKept all p
    → IsKept all q
Step-IsKept all z (took {m = m} {used = used} {b = b} e) k =
    λ c. ground (arith, k c, count-alloc m.block_size m.free b c e)
Step-IsKept all z (gave {m = m} {used = used} b h) k =
    λ c. omega (arith, k c, pool_free-count m b c (λ n. zero_unused n), count-without b c used h)
  where
    zero_unused : b ≡ 0 → ⊥
    zero_unused n = omega (arith, z, k 0, rw n at h)

count-ids_below : (c first n : ℕ) → c < first → count c (ids first n) ≡ 0
count-ids_below c first zero h = refl
count-ids_below c first (suc n) h = ground (arith, count-ids_below c (first + 1) n (omega arith))

count-ids : (c first n : ℕ) → count c (ids first n) ≤ 1
count-ids c first zero = omega arith
count-ids c first (suc n) = elim (ℕ_discrete first c) [
  | yes e ↦ ground (arith, e, count-ids_below c (first + 1) n (omega arith))
  | no e ↦ ground (arith, e, count-ids c (first + 1) n)
]

-- The blocks of a new pool, of which there is at least one.
abbrev pub all_ids : ℕ → List ℕ
all_ids n = 1 ∷ ids 2 (n - 1)

count-all_ids : (c n : ℕ) → count c (all_ids n) ≤ 1
count-all_ids c n = count-ids c 1 (suc (n - 1))

-- Whatever a client does that gives back only what it has: from a new pool on, each of the pool's
-- blocks is free or in use, and no block is both, or twice in use or on the free list.
pub Steps-IsKept :
    (size n : ℕ) {q : MemoryPool × List ℕ}
    → Steps (pool_init size n, []) q
    → IsKept (all_ids n) q × ((c : ℕ) → count c q.0.free + count c q.1 ≤ 1)
unfolding pool_init
Steps-IsKept size n {q} s = (kept s, λ c. omega (arith, kept s c, count-all_ids c n))
  where
    kept :
        {r : MemoryPool × List ℕ}
        → Steps (record { block_size = size; free = all_ids n }, []) r
        → IsKept (all_ids n) r
    kept stay = λ c. omega arith
    kept (step s t) =
        Step-IsKept (all_ids n) (count-ids_below 0 1 (suc (n - 1)) (omega arith)) t (kept s)
