-- ===== src/HomeLogStore/Tests.antt =====
-- Log stores of src/lib/logstore/log_store.cpp at concrete inputs, with a tracker that is a function.
use home_store.Prelude.{
  ℕ, ◌≤◌, ◌<◌, ◌≡◌, refl, Bool, true, false, leb, ◌==◌, if◌then◌else◌, max, Option, some, none, [],
  ◌∷◌, arith,
}
use home_store.StreamTracker.{StreamTracker, IsStreamTracker}
use home_store.HomeLogStore.{
  LogdevKey, LogstoreRecord, HomeLogStore, Outcome, lowest, new_log_store, append_async,
  on_write_completion, truncate_flushed, truncate_info, rollback, read_sync, min_safe_ld_key,
}
use home_store.HomeLogStore.System.{System, append, completed, Steps, stop, more, fresh}
use home_store.HomeLogStore.Safe.{stores, min_safe_ld_key-Steps}
use home_store.HomeLogStore.Behind.{on_write_completion-behind}
use home_store.HomeLogStore.Progress.{truncate_flushed-Steps, rollback-Steps}

abbrev Slots : Type 0
Slots = ℕ → Option LogstoreRecord

abbrev empty_record : LogstoreRecord
empty_record = record { dev_key = lowest; trunc_key = lowest }

abbrev or_empty : Option LogstoreRecord → LogstoreRecord
or_empty none = empty_record
or_empty (some r) = r

abbrev is_none : Option LogstoreRecord → Bool
is_none none = true
is_none (some r) = false

abbrev slots : StreamTracker LogstoreRecord Slots
slots = record {
  new = λ n m. none;
  at = λ m r. r m;
  first = λ r. 0;
  status = λ n r. record { is_out_of_range = is_none (r n); is_hole = false; is_completed = true };
  create = λ n r m. if m == n then some empty_record else r m;
  update = λ n f r m. if m == n then some (f (or_empty (r n))) else r m;
  create_and_complete = λ n x r m. if m == n then some x else r m;
  truncate = λ n r m. if leb m n then none else r m;
  rollback = λ n r m. if leb m n then r m else none;
}

slots-IsStreamTracker : IsStreamTracker slots
slots-IsStreamTracker = record {
  new_first = λ n. omega arith;
  create_first = λ n r. refl;
  create_other = λ n m r h. ground arith;
  update_first = λ n f r. refl;
  update_other = λ n m f r h. ground arith;
  update_at = λ n f r h. (or_empty (r n), ground arith);
  complete_first = λ n x r. refl;
  complete_other = λ n m x r h. ground arith;
  complete_at = λ n x r h. ground arith;
  truncate_first = λ n r h. omega arith;
  truncate_above = λ n m r h. ground arith;
  rollback_first = λ n r. refl;
  rollback_below = λ n m r h. ground arith;
}

abbrev key : ℕ → ℕ → LogdevKey
key idx dev_offset = record { idx = idx; dev_offset = dev_offset }

-- Three lsns, of which the second is in a group with the third, that are written and flushed.
three_written :
    (s : System Slots) × Steps slots (fresh slots 0) s
    × (s.store.start_lsn ≡ 1)
    × (s.store.tail_lsn ≡ 3)
    × (s.store.next_lsn ≡ 4)
    × (s.store.stopping ≡ false)
unfolding new_log_store append_async on_write_completion
three_written = (
  _,
  more
      (more
        (more
          (more
            (more (more stop append) (
              completed (key 1 0) (key 1 0) _
                (record { above = omega arith; from_ = omega arith; is_number = omega arith })
                refl))
            append)
          append)
        (completed (key 2 512) (key 2 512) _
          (record { above = omega arith; from_ = omega arith; is_number = omega arith }) refl))
      (completed (key 3 512) (key 2 512) _
        (record { above = omega arith; from_ = omega arith; is_number = omega arith }) refl),
  refl,
  refl,
  refl,
  refl,
)

min_safe_ld_key-Steps_example :
    (r : LogstoreRecord) × (three_written.0.store.records 2 ≡ some r)
    × ((min_safe_ld_key slots
          (key 9 9)
          (stores slots slots-IsStreamTracker ((0, three_written.0) ∷ []))).idx
        ≤ r.dev_key.idx)
min_safe_ld_key-Steps_example =
    min_safe_ld_key-Steps slots slots-IsStreamTracker (key 9 9) ((0, three_written.0) ∷ []) 0
      (0, three_written.0) 2 (three_written.1, tt) refl (omega (arith, three_written.2))
      (omega (arith, three_written.3))

truncate_flushed-Steps_example :
    (t : HomeLogStore Slots) × (truncate_flushed slots 5 three_written.0.store ≡ some t)
    × (t.start_lsn ≡ 6)
    × (t.tail_lsn ≡ max three_written.0.store.tail_lsn 5)
    × (t.tail_lsn < t.next_lsn)
truncate_flushed-Steps_example =
    truncate_flushed-Steps slots slots-IsStreamTracker 0 5 three_written.0 three_written.1
      (omega (arith, three_written.2))

rollback-Steps_example :
    (from_ : LogstoreRecord) × (upto : LogstoreRecord) × (t : HomeLogStore Slots) × (rollback slots
        1 three_written.0.store
      ≡ some (Outcome.done true (some (from_.dev_key.idx, upto.dev_key.idx)) t))
    × (three_written.0.store.records 2 ≡ some from_)
    × (three_written.0.store.records three_written.0.store.tail_lsn ≡ some upto)
    × (from_.dev_key.idx ≤ upto.dev_key.idx)
    × (t.tail_lsn ≡ 1)
    × (t.next_lsn ≡ 2)
    × ((lsn : ℕ) → lsn ≤ 1 → t.records lsn ≡ three_written.0.store.records lsn)
rollback-Steps_example =
    rollback-Steps slots slots-IsStreamTracker 0 1 three_written.0 three_written.1 three_written.5
      (omega (arith, three_written.3, three_written.4)) (omega (arith, three_written.2))
      (omega (arith, three_written.3))

-- Lsns 3 and 4 are flushed, lsn 2 is not.
abbrev two_flushed : HomeLogStore Slots
two_flushed = record {
  records = λ n.
      if n == 3
      then some (record { dev_key = key 1 0; trunc_key = key 1 0 })
      else if n == 4
      then some (record { dev_key = key 2 512; trunc_key = key 2 512 })
      else none;
  start_lsn = 1;
  next_lsn = 5;
  tail_lsn = 4;
  trunc_ld_key = key 1 0;
  stopping = false;
}

on_write_completion-behind_example :
    (t u : HomeLogStore Slots) × (on_write_completion slots 2 (key 3 1024) (key 3 1024) two_flushed
      ≡ some t)
    × (truncate_flushed slots 2 t ≡ some u)
    × ((truncate_info slots u).0 < 3)
    × (u.records 3 ≡ some (record { dev_key = key 1 0; trunc_key = key 1 0 }))
    × (1 < (truncate_info slots u).1.idx)
on_write_completion-behind_example =
    on_write_completion-behind slots slots-IsStreamTracker two_flushed 2 3 (key 3 1024) (key 3 1024)
      (record { dev_key = key 1 0; trunc_key = key 1 0 })
      (record { dev_key = key 2 512; trunc_key = key 2 512 }) (omega arith) (omega arith)
      (omega arith) refl refl (omega arith)

-- A record is read by its key.
reads_third : (read_sync slots (λ s. s) (λ k. k.idx ∷ []) 3 two_flushed).0 ≡ some (1 ∷ [])
unfolding read_sync
reads_third = refl
