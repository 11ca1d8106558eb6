-- ===== src/ChunkSelector.antt =====
-- The choice of the chunk that blocks are taken from: `RoundRobinChunkSelector` of
-- src/lib/device/round_robin_chunk_selector.cpp, as one thread sees it: the index is the thread's own.
pub mod Round
mod Tests
use home_store.Prelude.{
  ℕ, zero, suc, ◌+◌, ◌%◌, ◌^◌, leb, if◌then◌else◌, Option, none, some, List, [], ◌∷◌, ◌++◌, length,
  get_elem?,
}

pub record RoundRobinChunkSelector {ℓ} (C : Type ℓ) : Type ℓ where
  pub chunks : List C
  pub next_chunk_index : ℕ

module _ {ℓ} {C : Type ℓ} where
  unfoldable pub add_chunk : C → RoundRobinChunkSelector C → RoundRobinChunkSelector C
  add_chunk chunk s = record s { chunks = s.chunks ++ chunk ∷ [] }

  -- The chunk at an index, which is then moved past it. Without chunks the code reads outside the vector.
  abbrev pub take_at : ℕ → RoundRobinChunkSelector C → Option (C × RoundRobinChunkSelector C)
  take_at i s = elim (get_elem? s.chunks i) [
    | none ↦ none
    | some chunk ↦ some (chunk, record s { next_chunk_index = (i + 1) % 2 ^ 32 })
  ]

  unfoldable pub select_chunk : RoundRobinChunkSelector C → Option (C × RoundRobinChunkSelector C)
  select_chunk s =
      take_at (if leb (length s.chunks) s.next_chunk_index then 0 else s.next_chunk_index) s

  -- Chunks that were selected before others.
  abbrev pub joined :
      List C
      → Option (List C × RoundRobinChunkSelector C)
      → Option (List C × RoundRobinChunkSelector C)
  joined cs none = none
  joined cs (some (ds, s)) = some (cs ++ ds, s)

  -- As many selections, one after the other.
  unfoldable pub select_chunks :
      ℕ → RoundRobinChunkSelector C → Option (List C × RoundRobinChunkSelector C)
  select_chunks zero s = some ([], s)
  select_chunks (suc count) s = elim (select_chunk s) [
    | none ↦ none
    | some (chunk, s') ↦ joined (chunk ∷ []) (select_chunks count s')
  ]
