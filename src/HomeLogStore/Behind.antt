-- ===== src/HomeLogStore/Behind.antt =====
-- Writes that complete out of the order of their lsns (src/lib/logstore/log_store.cpp): the key that
-- HomeLogStore::on_write_completion gives to a record behind the tail.
use home_store.Prelude.{ℕ, suc, ◌≤◌, ◌<◌, ◌≡◌, ap, ◌∙◌, max, some, none, arith}
use home_store.StreamTracker.{StreamTracker, IsStreamTracker}
use home_store.HomeLogStore.{
  LogdevKey, LogstoreRecord, HomeLogStore, truncation_key, on_write_completion, truncate_flushed,
  cut, truncate_info,
}

module _ {R : Type 0} (ops : StreamTracker LogstoreRecord R) (laws : IsStreamTracker ops) where
  behind_key :
      (s : HomeLogStore R) (seq_num : ℕ) (flush_ld_key : LogdevKey) (last : LogstoreRecord)
      → seq_num ≤ s.tail_lsn
      → ops.at s.tail_lsn s.records ≡ some last
      → truncation_key ops seq_num flush_ld_key s ≡ some last.trunc_key
  unfolding truncation_key
  behind_key s seq_num flush_ld_key last h e = ground arith

  abbrev filled : ℕ → LogdevKey → LogdevKey → HomeLogStore R → HomeLogStore R
  filled seq_num ld_key trunc_key s = record s {
    tail_lsn = max s.tail_lsn seq_num;
    next_lsn = max s.next_lsn (suc seq_num);
    records =
        ops.update seq_num (λ r. record r { dev_key = ld_key; trunc_key = trunc_key }) s.records;
  }

  completed_behind :
      (s : HomeLogStore R) (seq_num : ℕ) (ld_key flush_ld_key : LogdevKey) (last : LogstoreRecord)
      → seq_num ≤ s.tail_lsn
      → ops.at s.tail_lsn s.records ≡ some last
      → on_write_completion ops seq_num ld_key flush_ld_key s
        ≡ some (filled seq_num ld_key last.trunc_key s)
  unfolding on_write_completion
  completed_behind s seq_num ld_key flush_ld_key last h e =
      ap (λ k. elim k [ none ↦ none | some trunc_key ↦ some (filled seq_num ld_key trunc_key s) ])
        (behind_key s seq_num flush_ld_key last h e)

  truncated_at :
      (s : HomeLogStore R) (lsn : ℕ) (r : LogstoreRecord)
      → lsn ≤ s.tail_lsn
      → ops.at lsn s.records ≡ some r
      → truncate_flushed ops lsn s ≡ some (cut ops lsn (record s { trunc_ld_key = r.trunc_key }))
  unfolding truncate_flushed
  truncated_at s lsn r h e = ground arith

  -- When the write of an lsn behind the tail completes and the store is then truncated up to it, the
  -- store gives the device the key that the tail has for truncation. A record between the two, which
  -- was flushed before that key, stays in the store, and its data lie below the key.
  pub on_write_completion-behind :
      (s : HomeLogStore R) (seq_num kept_lsn : ℕ) (ld_key flush_ld_key : LogdevKey)
      (kept last : LogstoreRecord)
      → ops.first s.records ≤ seq_num
      → seq_num < kept_lsn
      → kept_lsn < s.tail_lsn
      → ops.at kept_lsn s.records ≡ some kept
      → ops.at s.tail_lsn s.records ≡ some last
      → kept.dev_key.idx < last.trunc_key.idx
      → (t u : HomeLogStore R) × (on_write_completion ops seq_num ld_key flush_ld_key s ≡ some t)
        × (truncate_flushed ops seq_num t ≡ some u)
        × ((truncate_info ops u).0 < kept_lsn)
        × (ops.at kept_lsn u.records ≡ some kept)
        × (kept.dev_key.idx < (truncate_info ops u).1.idx)
  on_write_completion-behind s seq_num kept_lsn ld_key flush_ld_key kept last first lt lt' e e'
        below =
      let put = λ (r : LogstoreRecord). record r { dev_key = ld_key; trunc_key = last.trunc_key } in
      let t = filled seq_num ld_key last.trunc_key s in
      let (x, at_is) = laws.update_at seq_num put s.records first in
      let u = cut ops seq_num (record t { trunc_ld_key = last.trunc_key }) in
      let info : (truncate_info ops u).1 ≡ last.trunc_key = ground arith in
      (
        t,
        u,
        completed_behind s seq_num ld_key flush_ld_key last (omega arith) e',
        truncated_at t seq_num (put x) (omega arith) at_is,
        ground arith,
        laws.truncate_above seq_num kept_lsn t.records lt
            ∙ laws.update_other seq_num kept_lsn put s.records (omega arith)
            ∙ e,
        omega (arith, ap (λ k. k.idx) info),
      )
