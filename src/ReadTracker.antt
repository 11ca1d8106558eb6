-- ===== src/ReadTracker.antt =====
-- The tracker of reads in progress: `BlkReadTracker` of src/lib/blkdata_svc/blk_read_tracker.cpp. The
-- hash map of sisl is a function from records to what is pending on them; a record is the aligned
-- run of `entries_per_record` blocks that holds a block, and is named by its number.
pub mod Counts
mod Tests
use home_store.Prelude.{
  ℕ, zero, suc, ◌+◌, ◌-◌, ◌*◌, ◌/◌, Bool, true, false, ◌&&◌, leb, ltb, ◌==◌, if◌then◌else◌, Option,
  none, some, List, [], ◌∷◌, ◌++◌,
}
use home_store.Blk.{BlkId, blk_count}
use home_store.Blk.Multi.{MultiBlkId, iterate, num_pieces}

-- `BlkTrackRecord`: the reads, and the waiters by their number.
pub record BlkTrackRecord : Type 0 where
  pub ref_cnt : ℕ
  pub waiters : List ℕ

pub record Tracker : Type 0 where
  pub entries_per_record : ℕ
  pub pending : ℕ → ℕ → Option BlkTrackRecord

-- The sign of `new_ref_count`, or the waiter.
pub data Merge : Type 0 where
  insertion removal : Merge
  waiting : ℕ → Merge

-- What the map does with a record; `none` is no record. A removal where there is no record, which the
-- code asserts does not happen, changes nothing here.
abbrev pub merge_record : Merge → Option BlkTrackRecord → Option BlkTrackRecord
merge_record Merge.insertion none = some (record { ref_cnt = 1; waiters = [] })
merge_record Merge.insertion (some r) = some (record r { ref_cnt = r.ref_cnt + 1 })
merge_record Merge.removal none = none
merge_record Merge.removal (some r) =
    if r.ref_cnt - 1 == 0 then none else some (record r { ref_cnt = r.ref_cnt - 1 })
merge_record (Merge.waiting w) none = none
merge_record (Merge.waiting w) (some r) = some (record r { waiters = r.waiters ++ w ∷ [] })

-- One entry of the map.
unfoldable pub at_record : ℕ → ℕ → Merge → Tracker → Tracker
at_record chunk_num index m t = record t {
  pending =
      λ c i. if c == chunk_num && i == index then merge_record m (t.pending c i) else t.pending c i;
}

-- The loop over the records from one to another, on fuel.
unfoldable pub merge_from : ℕ → ℕ → ℕ → ℕ → Merge → Tracker → Tracker
merge_from zero chunk_num cur last m t = t
merge_from (suc fuel) chunk_num cur last m t =
    let rest = merge_from fuel chunk_num (cur + 1) last m (at_record chunk_num cur m t) in
    if leb cur last then rest else t

-- A block id has at least one block. One round more than it has records is enough.
unfoldable pub merge : BlkId → Merge → Tracker → Tracker
unfolding blk_count
merge b m t =
    let cur = b.blk_num / t.entries_per_record in
    let last = (b.blk_num + blk_count b - 1) / t.entries_per_record in
    merge_from (last + 1 - cur) b.chunk_num cur last m t

unfoldable pub insert : BlkId → Tracker → Tracker
unfolding merge
insert b t = merge b Merge.insertion t

unfoldable pub remove : BlkId → Tracker → Tracker
unfolding merge
remove b t = merge b Merge.removal t

unfoldable pub wait_on : MultiBlkId → ℕ → Tracker → Tracker
unfolding merge
wait_on m w t =
    if num_pieces m == 1
    then merge m.base (Merge.waiting w) t
    else iterate (λ s b. merge b (Merge.waiting w) s) m t
