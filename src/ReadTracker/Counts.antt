-- ===== src/ReadTracker/Counts.antt =====
-- Which records a merge changes, and how.
use home_store.Prelude.{
  ℕ, zero, suc, ◌+◌, ◌-◌, ◌*◌, ◌/◌, ◌≤◌, ◌<◌, ◌≡◌, refl, ap, ◌∙◌, Bool, true, false, ◌&&◌, leb,
  ◌==◌, if◌then◌else◌, Option, none, some, arith, dec_le,
}
use native.Mathlib.Nat.{le-div_iff_mul-le}
use home_store.Blk.{BlkId, blk_count}
use home_store.ReadTracker.{
  BlkTrackRecord, Tracker, Merge, merge_record, at_record, merge_from, merge, insert, remove,
}

-- The record is one of those from the first to the last.
abbrev pub among : ℕ → ℕ → ℕ → ℕ → ℕ → Bool
among chunk_num cur last c i = c == chunk_num && (leb cur i && leb i last)

step :
    (fuel chunk_num cur last : ℕ) (m : Merge) (t : Tracker)
    → cur ≤ last
    → merge_from (suc fuel) chunk_num cur last m t
      ≡ merge_from fuel chunk_num (cur + 1) last m (at_record chunk_num cur m t)
unfolding merge_from
step fuel chunk_num cur last m t h = ground arith

stop :
    (fuel chunk_num cur last : ℕ) (m : Merge) (t : Tracker)
    → last < cur
    → merge_from fuel chunk_num cur last m t ≡ t
unfolding merge_from
stop zero chunk_num cur last m t h = refl
stop (suc fuel) chunk_num cur last m t h = ground arith

merge_from-pending :
    (fuel chunk_num cur last : ℕ) (m : Merge) (t : Tracker)
    → last < cur + fuel
    → (c i : ℕ)
    → (merge_from fuel chunk_num cur last m t).pending c i
      ≡ (if among chunk_num cur last c i then merge_record m (t.pending c i) else t.pending c i)
unfolding at_record
merge_from-pending zero chunk_num cur last m t h c i =
    ap (λ x. x.pending c i) (stop 0 chunk_num cur last m t (omega arith)) ∙ ground arith
merge_from-pending (suc fuel) chunk_num cur last m t h c i = elim (dec_le cur last) [
  | yes go ↦
      ap (λ x. x.pending c i) (step fuel chunk_num cur last m t go)
      ∙ merge_from-pending fuel chunk_num (cur + 1) last m (at_record chunk_num cur m t)
          (omega arith) c i
      ∙ ground arith
  | no done ↦
      ap (λ x. x.pending c i) (stop (suc fuel) chunk_num cur last m t (omega arith)) ∙ ground arith
]

-- A merge changes exactly the records from that of the first block to that of the last one, each once,
-- and in the way that it changes one record.
pub merge-pending :
    (b : BlkId) (m : Merge) (t : Tracker) (c i : ℕ)
    → (merge b m t).pending c i ≡ (
        if among b.chunk_num
          (b.blk_num / t.entries_per_record)
          ((b.blk_num + b.nblks - 1) / t.entries_per_record)
          c
          i
        then merge_record m (t.pending c i)
        else t.pending c i)
unfolding merge blk_count
merge-pending b m t c i =
    let cur : ℕ = b.blk_num / t.entries_per_record in
    let last : ℕ = (b.blk_num + b.nblks - 1) / t.entries_per_record in
    merge_from-pending (last + 1 - cur) b.chunk_num cur last m t (omega arith) c i

at_record-size :
    (chunk_num i : ℕ) (m : Merge) (t : Tracker)
    → (at_record chunk_num i m t).entries_per_record ≡ t.entries_per_record
unfolding at_record
at_record-size chunk_num i m t = refl

merge_from-size :
    (fuel chunk_num cur last : ℕ) (m : Merge) (t : Tracker)
    → (merge_from fuel chunk_num cur last m t).entries_per_record ≡ t.entries_per_record
unfolding merge_from
merge_from-size zero chunk_num cur last m t = refl
merge_from-size (suc fuel) chunk_num cur last m t =
    let rest = merge_from-size fuel chunk_num (cur + 1) last m (at_record chunk_num cur m t) in
    let same = at_record-size chunk_num cur m t in ground arith

-- Every record that is there has a read.
abbrev pub IsCounted : Tracker → Type 0
IsCounted t = (c i : ℕ) (r : BlkTrackRecord) → t.pending c i ≡ some r → 0 < r.ref_cnt

-- What `remove` undoes on one record.
removal-insertion :
    (o : Option BlkTrackRecord)
    → ((r : BlkTrackRecord) → o ≡ some r → 0 < r.ref_cnt)
    → merge_record Merge.removal (merge_record Merge.insertion o) ≡ o
removal-insertion none h = refl
removal-insertion (some r) h =
    let positive : 0 < r.ref_cnt = h r refl in
    let back : r.ref_cnt + 1 - 1 ≡ r.ref_cnt = omega arith in ground arith

merge-size :
    (b : BlkId) (m : Merge) (t : Tracker) → (merge b m t).entries_per_record ≡ t.entries_per_record
unfolding merge blk_count
merge-size b m t = merge_from-size _ b.chunk_num _ _ m t

merge-pending_at :
    (e : ℕ) (b : BlkId) (m : Merge) (t : Tracker) (c i : ℕ)
    → t.entries_per_record ≡ e
    → (merge b m t).pending c i ≡ (
        if among b.chunk_num (b.blk_num / e) ((b.blk_num + b.nblks - 1) / e) c i
        then merge_record m (t.pending c i)
        else t.pending c i)
merge-pending_at e b m t c i same = rw (← same) (merge-pending b m t c i)

counted :
    (o : Option BlkTrackRecord)
    → (r : BlkTrackRecord) × (merge_record Merge.insertion o ≡ some r) × (0 < r.ref_cnt)
counted none = (_, refl, omega arith)
counted (some r) = (_, refl, omega arith)

div_mono : (a b e : ℕ) → a ≤ b → a / e ≤ b / e
div_mono a b zero h = ground arith
div_mono a b (suc e) h =
    let down : a / suc e * suc e ≤ a =
      (le-div_iff_mul-le {k = suc e} {x = a / suc e} {y = a} (omega arith)).0 (omega arith) in
    (le-div_iff_mul-le {k = suc e} {x = a / suc e} {y = b} (omega arith)).1 (omega arith)

undone :
    (x : Bool) (o o' : Option BlkTrackRecord)
    → o' ≡ (if x then merge_record Merge.insertion o else o)
    → ((r : BlkTrackRecord) → o ≡ some r → 0 < r.ref_cnt)
    → (if x then merge_record Merge.removal o' else o') ≡ o
undone true o o' e h = ap (merge_record Merge.removal) e ∙ removal-insertion o h
undone false o o' e h = e

-- While a read is in progress every block of it has a record with a count, and when it ends all
-- records are as they were before.
pub remove-insert :
    (b : BlkId) (t : Tracker)
    → IsCounted t
    → ((k : ℕ)
        → k < b.nblks
        → (r : BlkTrackRecord) × ((insert b t).pending b.chunk_num
              ((b.blk_num + k) / t.entries_per_record)
            ≡ some r)
          × (0 < r.ref_cnt))
      × ((c i : ℕ) → (remove b (insert b t)).pending c i ≡ t.pending c i)
unfolding insert remove
remove-insert b t h = (pending, restored)
  where
    e : ℕ
    e = t.entries_per_record

    pending :
        (k : ℕ)
        → k < b.nblks
        → (r : BlkTrackRecord) × ((insert b t).pending b.chunk_num ((b.blk_num + k) / e) ≡ some r)
          × (0 < r.ref_cnt)
    pending k lt =
        let low : b.blk_num / e ≤ (b.blk_num + k) / e =
          div_mono b.blk_num (b.blk_num + k) e (omega arith) in
        let high : (b.blk_num + k) / e ≤ (b.blk_num + b.nblks - 1) / e =
          div_mono (b.blk_num + k) (b.blk_num + b.nblks - 1) e (omega arith) in
        let inside : among b.chunk_num (b.blk_num / e) ((b.blk_num + b.nblks - 1) / e) b.chunk_num
              ((b.blk_num + k) / e)
            ≡ true =
          ground arith in
        let (r, eq, pos) = counted (t.pending b.chunk_num ((b.blk_num + k) / e)) in
        (r, merge-pending b Merge.insertion t b.chunk_num ((b.blk_num + k) / e) ∙ rw inside eq, pos)

    restored : (c i : ℕ) → (remove b (insert b t)).pending c i ≡ t.pending c i
    restored c i =
        let once = merge-pending b Merge.insertion t c i in
        let twice =
          merge-pending_at e b Merge.removal (insert b t) c i (merge-size b Merge.insertion t) in
        twice
        ∙ undone (among b.chunk_num (b.blk_num / e) ((b.blk_num + b.nblks - 1) / e) c i)
            (t.pending c i) ((insert b t).pending c i) once (h c i)
