-- ===== src/LogStore.antt =====
-- What the raft log store asks of a `HomeLogStore` (src/include/homestore/logstore/log_store.hpp): its
-- operations, and the log that they act on. A store lsn is an int64 that starts at -1, for an empty
-- log; it is kept as the number one above it. An exception of `read_sync` is `none`.
use home_store.Prelude.{
  ℕ, suc, ◌+◌, ◌-◌, ◌≤◌, ◌<◌, ◌≡◌, ◌⊎◌, Bool, true, Option, List, [], ◌∷◌, ◌++◌, length, take, drop,
  get_elem?,
}

-- The entries above the lsn up to which the log is truncated.
pub record Log : Type 0 where
  pub truncated : ℕ
  pub records : List (List ℕ)

abbrev pub tail : Log → ℕ
tail l = l.truncated + length l.records

abbrev pub numbered : ℕ → List (List ℕ) → List (ℕ × List ℕ)
numbered lsn [] = []
numbered lsn (b ∷ bs) = (lsn, b) ∷ numbered (suc lsn) bs

pub record Operations (S : Type 0) : Type 0 where
  pub get_contiguous_issued_seq_num : ℕ → S → ℕ
  pub get_contiguous_completed_seq_num : ℕ → S → ℕ
  pub truncated_upto : S → ℕ
  pub append_async : List ℕ → S → ℕ × S
  pub read_sync : ℕ → S → Option (List ℕ) × S
  pub rollback : ℕ → S → Bool × S
  pub flush : ℕ → S → S
  pub flush_all : S → S
  -- What `foreach` would visit from an lsn on if the callback never stopped it.
  pub foreach : ℕ → S → List (ℕ × List ℕ)
  pub truncate : ℕ → Bool → S → Bool × S

-- That the operations act on the log in this way. Lsns that are looked up from stand in the log.
pub record Acts {S : Type 0} (ops : Operations S) (log : S → Log) : Type 0 where
  pub issued :
      (from : ℕ) (s : S)
      → from ≤ tail (log s)
      → ops.get_contiguous_issued_seq_num from s ≡ tail (log s)
  -- How many of the records are flushed.
  pub flushed : S → ℕ
  pub completed :
      (from : ℕ) (s : S)
      → from ≤ (log s).truncated + flushed s
      → ops.get_contiguous_completed_seq_num from s ≡ (log s).truncated + flushed s
  pub truncated : (s : S) → ops.truncated_upto s ≡ (log s).truncated
  pub append_lsn : (b : List ℕ) (s : S) → (ops.append_async b s).0 ≡ tail (log s) + 1
  pub append_log :
      (b : List ℕ) (s : S)
      → log (ops.append_async b s).1 ≡ record (log s) { records = (log s).records ++ b ∷ [] }
  -- A record is read back while the log numbers are in their range.
  pub in_range : S → Bool
  pub read :
      (lsn : ℕ) (s : S)
      → in_range s ≡ true
      → (log s).truncated ≤ lsn
      → (ops.read_sync (suc lsn) s).0 ≡ get_elem? (log s).records (lsn - (log s).truncated)
  pub read_log : (lsn : ℕ) (s : S) → log (ops.read_sync lsn s).1 ≡ log s
  -- To below the last record that is flushed, or to the end.
  pub rollback_log :
      (lsn : ℕ) (s : S)
      → (log s).truncated ≤ lsn
      → lsn ≤ tail (log s)
      → (lsn < (log s).truncated + flushed s) ⊎ (lsn ≡ tail (log s))
      → log (ops.rollback lsn s).1
        ≡ record (log s) { records = take (lsn - (log s).truncated) (log s).records }
  pub flush_log : (lsn : ℕ) (s : S) → log (ops.flush lsn s) ≡ log s
  pub flush_flushed : (lsn : ℕ) (s : S) → flushed (ops.flush lsn s) ≡ length (log s).records
  pub flush_all_log : (s : S) → log (ops.flush_all s) ≡ log s
  pub flush_all_flushed : (s : S) → flushed (ops.flush_all s) ≡ length (log s).records
  -- Those that are flushed.
  pub visits :
      (lsn : ℕ) (s : S)
      → (log s).truncated ≤ lsn
      → ops.foreach (suc lsn) s
        ≡ numbered (suc lsn) (drop (lsn - (log s).truncated) (take (flushed s) (log s).records))
  pub truncate_log :
      (lsn : ℕ) (b : Bool) (s : S)
      → (log s).truncated ≤ lsn
      → log (ops.truncate lsn b s).1
        ≡ record { truncated = lsn; records = drop (lsn - (log s).truncated) (log s).records }
