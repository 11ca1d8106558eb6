-- ===== src/ChunkSelector/Tests.antt =====
-- Runs of the selector over numbers as chunks.
use home_store.Prelude.{ℕ, ◌≤◌, ◌≡◌, refl, arith, some, [], ◌∷◌, ◌++◌, length, take, drop}
use home_store.ChunkSelector.{RoundRobinChunkSelector, add_chunk, select_chunks}
use home_store.ChunkSelector.Round.{select_chunks-round}

abbrev selector : RoundRobinChunkSelector ℕ
selector = record { chunks = 4 ∷ 5 ∷ 6 ∷ []; next_chunk_index = 2 }

with_another : (add_chunk 7 selector).chunks ≡ 4 ∷ 5 ∷ 6 ∷ 7 ∷ []
unfolding add_chunk
with_another = refl

select_chunks-round_example :
    (s' : RoundRobinChunkSelector ℕ) × (select_chunks 3 selector
      ≡ some (drop 2 selector.chunks ++ take 2 selector.chunks, s'))
    × (s'.chunks ≡ selector.chunks)
    × (s'.next_chunk_index ≤ length s'.chunks)
select_chunks-round_example = select_chunks-round selector (omega arith) (omega arith)
