-- ===== src/ReadTracker/Tests.antt =====
-- Runs of the read tracker with records of four blocks.
use home_store.Prelude.{ℕ, ◌+◌, ◌/◌, ◌<◌, ◌≡◌, none, some}
use home_store.Blk.{BlkId, make_blkid}
use home_store.ReadTracker.{BlkTrackRecord, Tracker, insert, remove}
use home_store.ReadTracker.Counts.{IsCounted, remove-insert}

abbrev no_reads : Tracker
no_reads = record { entries_per_record = 4; pending = λ c i. none }

abbrev blks : BlkId
blks = make_blkid 6 4 3

no_reads-IsCounted : IsCounted no_reads
no_reads-IsCounted c i r e = absurd cc

remove-insert_example :
    ((k : ℕ)
      → k < 4
      → (r : BlkTrackRecord) × ((insert blks no_reads).pending 3 ((6 + k) / 4) ≡ some r)
        × (0 < r.ref_cnt))
    × ((c i : ℕ) → (remove blks (insert blks no_reads)).pending c i ≡ none)
remove-insert_example = remove-insert blks no_reads no_reads-IsCounted
