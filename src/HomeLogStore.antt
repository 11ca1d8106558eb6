-- ===== src/HomeLogStore.antt =====
-- One log store of a log device: `HomeLogStore` of src/lib/logstore/log_store.cpp over a stream tracker,
-- and the choice of the key up to which the device is truncated (src/lib/logstore/log_dev.cpp). Lsns
-- and log numbers are kept as the number one above them, so that -1 is 0. A use of a record that the
-- tracker does not have and an exception are none; a release build goes on after HS_LOG_ASSERT. `flush`
-- is what a flush of the device, which calls on_write_completion, makes of the store.
mod System
mod Kept
mod Next
mod Runs
mod Safe
mod Progress
mod Behind
pub mod Device
mod Tests
use home_store.Prelude.{
  ℕ, zero, suc, ◌+◌, ◌-◌, ◌^◌, max, Bool, true, false, not, ◌&&◌, ◌||◌, ltb, leb, ◌==◌,
  if◌then◌else◌, Option, some, none, List, [], ◌∷◌,
}
use home_store.StreamTracker.{StreamTracker, SlotStatus}

pub record LogdevKey : Type 0 where
  pub idx : ℕ
  pub dev_offset : ℕ

-- The default, which is not valid.
abbrev pub lowest : LogdevKey
lowest = record { idx = 0; dev_offset = 0 }

abbrev pub out_of_bound_ld_key : LogdevKey
out_of_bound_ld_key = record { idx = 2 ^ 63; dev_offset = 2 ^ 63 - 1 }

abbrev pub is_valid : LogdevKey → Bool
is_valid k = not (k.idx == 0) && not (k.idx == 2 ^ 63)

pub record LogstoreRecord : Type 0 where
  pub dev_key : LogdevKey
  pub trunc_key : LogdevKey

pub record HomeLogStore (R : Type 0) : Type 0 where
  pub records : R
  pub start_lsn : ℕ
  pub next_lsn : ℕ
  pub tail_lsn : ℕ
  pub trunc_ld_key : LogdevKey
  pub stopping : Bool

-- What came of a call to `rollback`: its result, with the log numbers that are rolled back, or that
-- the device has to be flushed first.
pub data Outcome (R : Type 0) : Type 0 where
  done : Bool → Option (ℕ × ℕ) → HomeLogStore R → Outcome R
  retry : Outcome R

module _ {R : Type 0} (ops : StreamTracker LogstoreRecord R) where
  -- The lsn `start_lsn - 1` exists: it is at least -1.
  unfoldable pub new_log_store : ℕ → HomeLogStore R
  new_log_store before = record {
    records = ops.new before;
    start_lsn = suc before;
    next_lsn = suc before;
    tail_lsn = before;
    trunc_ld_key = record { idx = 1; dev_offset = 0 };
    stopping = false;
  }

  -- With the lsns that are handed to the log device.
  unfoldable pub write_async : ℕ → HomeLogStore R → List ℕ × HomeLogStore R
  write_async seq_num s =
      if s.stopping
      then ([], s)
      else (seq_num ∷ [], record s { records = ops.create seq_num s.records })

  -- The result is the lsn, and -- while stopping -- lsn 0.
  unfoldable pub append_async : HomeLogStore R → ℕ × List ℕ × HomeLogStore R
  unfolding write_async
  append_async s =
      if s.stopping
      then (1, [], s)
      else let written = write_async s.next_lsn (record s { next_lsn = suc s.next_lsn }) in
        (s.next_lsn, written.0, written.1)

  -- On a thread that may block.
  unfoldable pub write_and_flush :
      (HomeLogStore R → HomeLogStore R) → ℕ → HomeLogStore R → HomeLogStore R
  unfolding write_async
  write_and_flush flush seq_num s =
      if s.stopping
      then s
      else flush
          (write_async seq_num
            (if ltb s.next_lsn seq_num then record s { next_lsn = suc seq_num } else s)).1

  unfoldable pub read_sync :
      (HomeLogStore R → HomeLogStore R)
      → (LogdevKey → List ℕ)
      → ℕ
      → HomeLogStore R
      → Option (List ℕ) × HomeLogStore R
  read_sync flush read seq_num s =
      if s.stopping then (some [], s) else lookup (ops.status seq_num s.records)
    where
      key_of : HomeLogStore R → Option (List ℕ)
      key_of s' = (elim (ops.at seq_num s'.records) [
        | none ↦ none
        | some r ↦ if is_valid r.dev_key then some (read r.dev_key) else none
      ])

      lookup : SlotStatus → Option (List ℕ) × HomeLogStore R
      lookup st =
          if st.is_out_of_range || st.is_hole
          then (none, s)
          else let s' = if st.is_completed then s else flush s in (key_of s', s')

  -- The key that truncation up to this lsn will use, and the new tail: its own flush, or, behind the
  -- tail, what the tail has.
  unfoldable pub truncation_key : ℕ → LogdevKey → HomeLogStore R → Option LogdevKey
  truncation_key seq_num flush_ld_key s =
      if ltb s.tail_lsn seq_num
      then some flush_ld_key
      else (elim (ops.at s.tail_lsn s.records) [ none ↦ none | some r ↦ some r.trunc_key ])

  unfoldable pub on_write_completion :
      ℕ → LogdevKey → LogdevKey → HomeLogStore R → Option (HomeLogStore R)
  unfolding truncation_key
  on_write_completion seq_num ld_key flush_ld_key s =
      (elim (truncation_key seq_num flush_ld_key s) [
        | none ↦ none
        | some trunc_key ↦ some (record s {
          tail_lsn = max s.tail_lsn seq_num;
          next_lsn = max s.next_lsn (suc seq_num);
          records =
              ops.update seq_num (λ r. record r { dev_key = ld_key; trunc_key = trunc_key })
                s.records;
        })
      ])

  unfoldable pub on_log_found : ℕ → LogdevKey → LogdevKey → HomeLogStore R → Option (HomeLogStore R)
  unfolding truncation_key
  on_log_found seq_num ld_key flush_ld_key s =
      if ltb seq_num s.start_lsn then some s else (elim (truncation_key seq_num flush_ld_key s) [
        | none ↦ none
        | some trunc_key ↦ some (record s {
          tail_lsn = max s.tail_lsn seq_num;
          next_lsn = max s.next_lsn (suc seq_num);
          records =
              ops.create_and_complete seq_num (record { dev_key = ld_key; trunc_key = trunc_key })
                s.records;
        })
      ])

  abbrev pub cut : ℕ → HomeLogStore R → HomeLogStore R
  cut upto_lsn s = record s { records = ops.truncate upto_lsn s.records; start_lsn = suc upto_lsn }

  -- `truncate` from the end of its flush on. The truncation of the device, which follows it if asked
  -- for, does not change the store.
  unfoldable pub truncate_flushed : ℕ → HomeLogStore R → Option (HomeLogStore R)
  truncate_flushed upto_lsn s =
      if ltb s.tail_lsn upto_lsn
      then some (
          cut upto_lsn (record s {
            tail_lsn = upto_lsn;
            next_lsn = max s.next_lsn (suc upto_lsn);
            records =
                ops.create_and_complete upto_lsn (record { dev_key = lowest; trunc_key = lowest })
                  s.records;
          }))
      else (elim (ops.at upto_lsn s.records) [
        | none ↦ none
        | some r ↦ some (cut upto_lsn (record s { trunc_ld_key = r.trunc_key }))
      ])

  unfoldable pub truncate :
      (HomeLogStore R → HomeLogStore R) → ℕ → HomeLogStore R → Option (Bool × HomeLogStore R)
  unfolding truncate_flushed
  truncate flush upto_lsn s =
      if s.stopping || ltb upto_lsn s.start_lsn
      then some (false, s)
      else (elim (truncate_flushed upto_lsn (flush s)) [ none ↦ none | some s' ↦ some (true, s') ])

  abbrev pub truncate_info : HomeLogStore R → ℕ × LogdevKey × ℕ
  truncate_info s =
      if s.start_lsn - 1 == s.tail_lsn
      then (s.start_lsn - 1, out_of_bound_ld_key, s.tail_lsn)
      else (s.start_lsn - 1, s.trunc_ld_key, s.tail_lsn)

  unfoldable pub fill_gap : ℕ → HomeLogStore R → Bool × HomeLogStore R
  fill_gap seq_num s = if s.stopping then (false, s) else (
    true,
    record s {
      records =
          ops.create_and_complete seq_num (record { dev_key = lowest; trunc_key = lowest })
            s.records;
    },
  )

  -- One round of the loop under the flush guard.
  unfoldable pub roll_back : ℕ → HomeLogStore R → Option (Outcome R)
  roll_back to_lsn s =
      if ltb (suc s.tail_lsn) s.next_lsn
      then some retry
      else (elim (ops.at (suc to_lsn) s.records) [
        | none ↦ none
        | some from_ ↦ (elim (ops.at s.tail_lsn s.records) [
          | none ↦ none
          | some upto ↦ some (
              done true (some (from_.dev_key.idx, upto.dev_key.idx)) (record s {
                next_lsn = suc to_lsn;
                tail_lsn = to_lsn;
                records = ops.rollback to_lsn s.records;
              }))
        ])
      ])

  unfoldable pub rollback : ℕ → HomeLogStore R → Option (Outcome R)
  unfolding roll_back
  rollback to_lsn s =
      if s.stopping
      then some (done false none s)
      else if to_lsn == s.tail_lsn
      then some (done true none s)
      else if ltb s.tail_lsn to_lsn || ltb to_lsn (s.start_lsn - 1)
      then some (done false none s)
      else roll_back to_lsn s

  abbrev pub smaller : LogdevKey → LogdevKey → LogdevKey
  smaller k min_safe = if ltb k.idx min_safe.idx then k else min_safe

  -- The least of the keys of the stores, in the order of the loop.
  unfoldable pub least_key : LogdevKey → List (HomeLogStore R) → LogdevKey
  least_key min_safe [] = min_safe
  least_key min_safe (s ∷ ss) = least_key (smaller (truncate_info s).1 min_safe) ss

  -- The key up to which `LogDev::truncate` truncates, the last flush if all stores are empty.
  unfoldable pub min_safe_ld_key : LogdevKey → List (HomeLogStore R) → LogdevKey
  unfolding least_key
  min_safe_ld_key last_flush_ld_key ss =
      let k = least_key out_of_bound_ld_key ss in
      if k.idx == out_of_bound_ld_key.idx && k.dev_offset == out_of_bound_ld_key.dev_offset
      then last_flush_ld_key
      else k
