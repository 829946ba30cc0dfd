-- ===== src/MemoryPool.antt =====
-- rtsp-server/net/MemoryManager.cpp: a pool of blocks of one size, on a free list.
mod Tests
pub mod Blocks
use obs_rtspserver.Prelude.{
  ℕ, zero, suc, ◌+◌, ◌-◌, Option, none, some, List, [], ◌∷◌, leb, ◌==◌, if◌then◌else◌,
}

-- `free` are the ids of the blocks from `head_` on. The ids start at 1; 0 marks a block of no pool.
pub record MemoryPool : Type 0 where
  pub block_size : ℕ
  pub free : List ℕ

abbrev pub ids : ℕ → ℕ → List ℕ
ids first zero = []
ids first (suc n) = first ∷ ids (first + 1) n

-- `Init` of a pool that has no memory yet: the first block is made whatever the number is, the others in
-- the loop.
unfoldable pub pool_init : ℕ → ℕ → MemoryPool
pool_init size n = record { block_size = size; free = 1 ∷ ids 2 (n - 1) }

-- `MemoryPool::Alloc`; `none` is a null pointer.
unfoldable pub pool_alloc : MemoryPool → MemoryPool × Option ℕ
pool_alloc m = elim m.free [ [] ↦ (m, none) | b ∷ bs ↦ (record m { free = bs }, some b) ]

-- `MemoryPool::Free`, of a block with this id.
unfoldable pub pool_free : ℕ → MemoryPool → MemoryPool
pool_free b m = if b == 0 then m else record m { free = b ∷ m.free }

-- What `MemoryManager::Alloc` returns: a block of the pool with this index, or one of `malloc`'s.
pub data Block : Type 0 where
  pooled : ℕ → ℕ → Block
  from_malloc : Block

-- `MemoryManager::Alloc`, over the pools from index `i` on: the first pool with large enough blocks
-- serves, and no other when it is empty.
unfoldable pub manager_alloc : ℕ → ℕ → List MemoryPool → List MemoryPool × Block
unfolding pool_alloc
manager_alloc size i [] = ([], from_malloc)
manager_alloc size i (m ∷ ms) =
    let (rest, block) = manager_alloc size (i + 1) ms in
    if leb size m.block_size
    then elim (pool_alloc m).1 [
      | none ↦ (m ∷ ms, from_malloc)
      | some b ↦ ((pool_alloc m).0 ∷ ms, pooled i b)
    ]
    else (m ∷ rest, block)
