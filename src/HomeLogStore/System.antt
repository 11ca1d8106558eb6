-- ===== src/HomeLogStore/System.antt =====
-- Runs of a log store whose writes complete in the order of their lsns, as a store in append mode has them
-- (src/lib/logstore/log_store.cpp, LogDev::on_flush_completion of src/lib/logstore/log_dev.cpp).
use home_store.Prelude.{ℕ, suc, ◌^◌, ◌≤◌, ◌<◌, ◌≡◌, Bool, Option, some}
use home_store.StreamTracker.{StreamTracker}
use home_store.HomeLogStore.{
  LogdevKey, LogstoreRecord, HomeLogStore, Outcome, new_log_store, append_async,
  on_write_completion, on_log_found, truncate_flushed, rollback,
}

-- `last` is the last log number of the device that the store has seen.
pub record System (R : Type 0) : Type 0 where
  pub store : HomeLogStore R
  pub last : ℕ

-- A record has a number above all that came before, and the key of its flush has the first number of
-- its group.
pub record Follows (last : ℕ) (ld_key flush_ld_key : LogdevKey) : Type 0 where
  pub above : last < ld_key.idx
  pub from_ : flush_ld_key.idx ≤ ld_key.idx
  pub is_number : ld_key.idx < 2 ^ 63

module _ {R : Type 0} (ops : StreamTracker LogstoreRecord R) where
  pub data Step : System R → System R → Type 0 where
    append : {s : System R} → Step s (record s { store = (append_async ops s.store).2 })
    -- The next lsn was flushed.
    completed :
        {s : System R} (ld_key flush_ld_key : LogdevKey) (t : HomeLogStore R)
        → Follows s.last ld_key flush_ld_key
        → on_write_completion ops (suc s.store.tail_lsn) ld_key flush_ld_key s.store ≡ some t
        → Step s (record { store = t; last = ld_key.idx })
    -- A record is found at start, one of the lsns before the start, or the next one.
    found_old :
        {s : System R} (lsn : ℕ) (ld_key flush_ld_key : LogdevKey) (t : HomeLogStore R)
        → lsn < s.store.start_lsn
        → on_log_found ops lsn ld_key flush_ld_key s.store ≡ some t
        → Step s (record s { store = t })
    found_next :
        {s : System R} (ld_key flush_ld_key : LogdevKey) (t : HomeLogStore R)
        → Follows s.last ld_key flush_ld_key
        → on_log_found ops (suc s.store.tail_lsn) ld_key flush_ld_key s.store ≡ some t
        → Step s (record { store = t; last = ld_key.idx })
    truncated :
        {s : System R} (upto_lsn : ℕ) (t : HomeLogStore R)
        → s.store.start_lsn ≤ upto_lsn
        → truncate_flushed ops upto_lsn s.store ≡ some t
        → Step s (record s { store = t })
    rolled_back :
        {s : System R} (to_lsn : ℕ) (b : Bool) (ids : Option (ℕ × ℕ)) (t : HomeLogStore R)
        → rollback ops to_lsn s.store ≡ some (Outcome.done b ids t)
        → Step s (record s { store = t })

  pub data Steps : System R → System R → Type 0 where
    stop : {s : System R} → Steps s s
    more : {s t u : System R} → Steps s t → Step t u → Steps s u

  -- A store that is created, and what it may become.
  abbrev pub fresh : ℕ → System R
  fresh before = record { store = new_log_store ops before; last = 0 }
