-- ===== src/HomeLogStore/Device.antt =====
-- A log store with its log device: what `HomeLogStore` does together with `LogDev::append_async`, `read` and
-- `flush` of src/lib/logstore/log_dev.cpp when no other store uses the device. The device has the records that were
-- appended, by their log number, and how many of them are flushed; a key leads to the data of the record with its
-- log number. The journal's offset for a group is a parameter.
pub mod Good
mod Flush
mod Operate
mod Cut
pub mod HomeOps
pub mod Serves
pub mod Window
mod Tests
use home_store.Prelude.{
  ℕ, zero, suc, ◌+◌, ◌-◌, Bool, true, false, ltb, leb, ◌||◌, if◌then◌else◌, Option, some, none,
  get_elem?, List, [], ◌∷◌, ◌++◌, length, take, drop, map,
}
use home_store.StreamTracker.{StreamTracker, Scans, SlotStatus}
use home_store.LogGroup.{max_records_in_a_batch}
use home_store.HomeLogStore.{
  LogdevKey, LogstoreRecord, HomeLogStore, Outcome, done, retry, append_async, read_sync,
  on_write_completion, truncate, rollback,
}

-- The lsn and the data of each record, and how many are flushed.
pub record LogDev : Type 0 where
  pub log_records : List (ℕ × List ℕ)
  pub flushed : ℕ

pub record State (R : Type 0) : Type 0 where
  pub store : HomeLogStore R
  pub device : LogDev

-- The data of a record, none of them where there is no such record.
abbrev pub data_of : Option (ℕ × List ℕ) → List ℕ
data_of none = []
data_of (some r) = r.1

-- Log numbers in keys are one above.
abbrev pub read : LogDev → LogdevKey → List ℕ
read d k = data_of (get_elem? d.log_records (k.idx - 1))

module _ {R : Type 0} (scans : Scans LogstoreRecord R) where
  abbrev pub get_contiguous_issued_seq_num : ℕ → State R → ℕ
  get_contiguous_issued_seq_num from_ x = scans.active_upto (from_ + 1) x.store.records

  abbrev pub get_contiguous_completed_seq_num : ℕ → State R → ℕ
  get_contiguous_completed_seq_num from_ x = scans.completed_upto (from_ + 1) x.store.records

  -- What `foreach` visits if its callback never stops it.
  abbrev pub foreach : ℕ → State R → List (ℕ × List ℕ)
  foreach start_idx x =
      map (λ p. (p.0, read x.device p.1.dev_key))
        (scans.foreach_all_completed start_idx x.store.records)

module _ {R : Type 0} (ops : StreamTracker LogstoreRecord R) (offset : ℕ → ℕ) where
  unfoldable pub append : List ℕ → State R → ℕ × State R
  append b x =
      let (lsn, reqs, s) = append_async ops x.store in
      (
        lsn,
        record x {
          store = s;
          device = record x.device { log_records = x.device.log_records ++ map (λ l. (l, b)) reqs };
        },
      )

  -- The completions of a group, of which `from_` is the first log number, from one of them on.
  unfoldable pub complete_each :
      ℕ → ℕ → List (ℕ × List ℕ) → HomeLogStore R → Option (HomeLogStore R)
  complete_each from_ idx [] s = some s
  complete_each from_ idx (r ∷ rs) s =
      elim (on_write_completion ops r.0 (record { idx = idx; dev_offset = offset from_ })
        (record { idx = from_; dev_offset = offset from_ }) s) [
          | none ↦ none
          | some t ↦ complete_each from_ (suc idx) rs t
        ]

  -- The loop of `flush`: one group after the other, until all records are flushed.
  unfoldable pub flush_groups : ℕ → State R → Option (State R)
  unfolding complete_each
  flush_groups zero x = some x
  flush_groups (suc fuel) x =
      let batch = take max_records_in_a_batch (drop x.device.flushed x.device.log_records) in
      let first = suc x.device.flushed in
      if leb (length x.device.log_records) x.device.flushed
      then some x
      else (elim (complete_each first first batch x.store) [
        | none ↦ none
        | some t ↦ flush_groups fuel (record {
          store = t;
          device = record x.device { flushed = x.device.flushed + length batch };
        })
      ])

  -- A group has at least one record.
  unfoldable pub flush : State R → Option (State R)
  unfolding flush_groups
  flush x = flush_groups (length x.device.log_records - x.device.flushed) x

  -- `read_sync`, whose flush comes before its lookup.
  unfoldable pub read_record_of : ℕ → State R → Option (Option (List ℕ) × State R)
  read_record_of lsn x =
      let st = ops.status lsn x.store.records in
      elim (if st.is_out_of_range || st.is_hole || st.is_completed then some x else flush x) [
        | none ↦ none
        | some y ↦ some ((read_sync ops (λ s. s) (read y.device) lsn y.store).0, y)
      ]

  unfoldable pub truncate_store : ℕ → State R → Option (Bool × State R)
  truncate_store lsn x = elim (if ltb lsn x.store.start_lsn then some x else flush x) [
    | none ↦ none
    | some y ↦ (elim (truncate ops (λ s. s) lsn y.store) [
      | none ↦ none
      | some (b, s) ↦ some (b, record y { store = s })
    ])
  ]

  -- A flush makes a second round possible.
  unfoldable pub rollback_store : ℕ → State R → Option (Bool × State R)
  rollback_store lsn x = elim (rollback ops lsn x.store) [
    | none ↦ none
    | some (done b ids s) ↦ some (b, record x { store = s })
    | some retry ↦ (elim (flush x) [
      | none ↦ none
      | some y ↦ (elim (rollback ops lsn y.store) [
        | none ↦ none
        | some (done b ids s) ↦ some (b, record y { store = s })
        | some retry ↦ none
      ])
    ])
  ]
