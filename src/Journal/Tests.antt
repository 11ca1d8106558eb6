-- ===== src/Journal/Tests.antt =====
-- Runs of a journal with chunks of 100.
use home_store.Prelude.{ℕ, ◌≡◌, refl, true, false, some, [], ◌∷◌, arith}
use home_store.Journal.{Chunk, Descriptor, pooled, alloc_next_append_blk, pwrite}
use home_store.Journal.Offsets.{IsValid}
use home_store.Journal.Alloc.{IsReserved}
use home_store.Journal.Write.{IsWritten, pwrite-alloc}

abbrev first_chunk : Chunk
first_chunk = record {
  chunk_id = 7;
  logdev_id = 3;
  is_head = true;
  created_at = 10;
  end_of_chunk = 90;
  next_chunk = 8;
}

-- Two chunks: the first one has data up to 90, and the tail is at 120.
abbrev journal : Descriptor
journal = record {
  logdev_id = 3;
  chunk_size = 100;
  journal_chunks = first_chunk ∷ pooled 100 8 20 ∷ [];
  seek_cursor = 90;
  data_start_offset = 20;
  end_offset = 200;
  write_sz_in_total = 100;
  reserved_sz = 0;
  total_size = 200;
  truncate_done = false;
}

journal-IsValid : IsValid journal
journal-IsValid = record {
  size_pos = omega arith;
  at_end = refl;
  total = refl;
  tail_le = omega arith;
  tail_ge = omega arith;
}

pwrite-alloc_example :
    (at : ℕ) × (d1 d2 : Descriptor) × (c : Chunk) × (k r : ℕ) × (alloc_next_append_blk 9 30 85
        journal
      ≡ some (at, d1))
    × (pwrite 85 at d1 ≡ some ((c, k, r), d2))
    × IsReserved 85 at journal d1
    × IsWritten 85 at d1 d2 c k r
pwrite-alloc_example = pwrite-alloc 9 30 85 journal journal-IsValid (omega arith)
