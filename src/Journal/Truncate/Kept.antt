-- ===== src/Journal/Truncate/Kept.antt =====
-- What a truncation leaves.
use home_store.Prelude.{ℕ, ◌+◌, ◌-◌, ◌*◌, ◌/◌, ◌%◌, ◌^◌, ◌≤◌, ◌<◌, ◌≡◌, true, some, List, get_elem?}
use home_store.Journal.{Chunk, Descriptor}
use home_store.Journal.Offsets.{tail}

abbrev pub as_head : ℕ → Chunk → Chunk
as_head logdev c = record c { is_head = true; logdev_id = logdev }

-- The new chunks and offsets.
abbrev after_cut : ℕ → ℕ → List Chunk → ℕ → Descriptor → Descriptor
after_cut t e kept total d = record d {
  journal_chunks = kept;
  total_size = total;
  data_start_offset = t;
  end_offset = e;
  write_sz_in_total = (d.write_sz_in_total + 2 ^ 64 - (t - d.data_start_offset)) % 2 ^ 64;
  truncate_done = true;
}

-- An offset at data that is written, in the chunk of this index, with the tail before the end.
pub record PointsAt (d : Descriptor) (t k r : ℕ) (c : Chunk) : Type 0 where
  pub at : t ≡ d.data_start_offset / d.chunk_size * d.chunk_size + (k * d.chunk_size + r)
  pub inside : r < d.chunk_size
  pub chunk : get_elem? d.journal_chunks k ≡ some c
  pub has_data : r < c.end_of_chunk
  pub ends : c.end_of_chunk ≤ d.chunk_size
  pub from_start : d.data_start_offset ≤ t
  pub written : t ≤ d.data_start_offset + d.write_sz_in_total
  pub bounded : d.write_sz_in_total < 2 ^ 64
  pub before_tail : t < tail d
  pub not_full : tail d < d.end_offset
