-- ===== src/MemoryPool/Tests.antt =====
-- A pool of two blocks.
use obs_rtspserver.Prelude.{ℕ, ◌+◌, ◌≤◌, refl, arith, List, [], ◌∷◌}
use obs_rtspserver.MemoryPool.{MemoryPool, pool_init, pool_alloc, pool_free}
use obs_rtspserver.MemoryPool.Blocks.{
  took, gave, Steps, stay, step, IsKept, all_ids, count, without, Steps-IsKept,
}

abbrev reached : MemoryPool × List ℕ
unfolding pool_init pool_alloc pool_free
reached = (pool_free 1 (pool_alloc (pool_init 4096 2)).0, without 1 (1 ∷ []))

reached-Steps : Steps (pool_init 4096 2, []) reached
unfolding reached pool_init pool_alloc
reached-Steps = step (step stay (took refl)) (gave 1 (omega arith))

Steps-IsKept_example :
    IsKept (all_ids 2) reached × ((c : ℕ) → count c reached.0.free + count c reached.1 ≤ 1)
Steps-IsKept_example = Steps-IsKept 4096 2 reached-Steps
