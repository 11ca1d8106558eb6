-- ===== src/HomeLogStore/Progress.antt =====
-- Truncations and rollbacks of a log store succeed (src/lib/logstore/log_store.cpp).
use home_store.Prelude.{
  ℕ, suc, ◌≤◌, ◌<◌, ◌≡◌, refl, max, true, false, ltb, Bool-cases, ◌⊎◌, inl, inr, some, arith,
}
use home_store.StreamTracker.{StreamTracker, IsStreamTracker}
use home_store.HomeLogStore.{
  LogstoreRecord, HomeLogStore, Outcome, truncate_flushed, rollback, roll_back, cut, lowest,
}
use home_store.HomeLogStore.System.{System, Steps, fresh}
use home_store.HomeLogStore.Runs.{fresh-Steps-IsKept}

module _ {R : Type 0} (ops : StreamTracker LogstoreRecord R) (laws : IsStreamTracker ops) where
  -- After a run in which writes complete in order, a truncation to an lsn from the start on succeeds,
  -- also above the tail; the store then starts behind that lsn, and its tail does not go back.
  pub truncate_flushed-Steps :
      (before upto_lsn : ℕ) (s : System R)
      → Steps ops (fresh ops before) s
      → s.store.start_lsn ≤ upto_lsn
      → (t : HomeLogStore R) × (truncate_flushed ops upto_lsn s.store ≡ some t)
        × (t.start_lsn ≡ suc upto_lsn)
        × (t.tail_lsn ≡ max s.store.tail_lsn upto_lsn)
        × (t.tail_lsn < t.next_lsn)
  unfolding truncate_flushed
  truncate_flushed-Steps before upto_lsn s run h = go (Bool-cases (ltb s.store.tail_lsn upto_lsn))
    where
      go :
          (ltb s.store.tail_lsn upto_lsn ≡ true) ⊎ (ltb s.store.tail_lsn upto_lsn ≡ false)
          → (t : HomeLogStore R) × (truncate_flushed ops upto_lsn s.store ≡ some t)
            × (t.start_lsn ≡ suc upto_lsn)
            × (t.tail_lsn ≡ max s.store.tail_lsn upto_lsn)
            × (t.tail_lsn < t.next_lsn)
      go (inl b) =
          let empty : LogstoreRecord = record { dev_key = lowest; trunc_key = lowest } in
          (
            cut ops upto_lsn (record s.store {
              tail_lsn = upto_lsn;
              next_lsn = max s.store.next_lsn (suc upto_lsn);
              records = ops.create_and_complete upto_lsn empty s.store.records;
            }),
            ground arith,
            refl,
            ground arith,
            omega arith,
          )
      go (inr b) =
          let v = fresh-Steps-IsKept ops laws before run in
          let (r, hr) = v.present upto_lsn h (ground arith) in
          let at_is = hr.is_at in
          (
            cut ops upto_lsn (record s.store { trunc_ld_key = r.trunc_key }),
            ground arith,
            refl,
            ground arith,
            v.below_next,
          )

  -- After such a run, when no write is outstanding and the store is not stopping, a rollback to an lsn
  -- below the tail, the one before the start at the least, succeeds: that lsn becomes the tail, the
  -- next one is the next to be written, the lsns up to it keep their records, and the log numbers that the
  -- device has to roll back run from that of the record above it to that of the old tail, in this order.
  pub rollback-Steps :
      (before to_lsn : ℕ) (s : System R)
      → Steps ops (fresh ops before) s
      → s.store.stopping ≡ false
      → s.store.next_lsn ≡ suc s.store.tail_lsn
      → s.store.start_lsn ≤ suc to_lsn
      → to_lsn < s.store.tail_lsn
      → (from_ : LogstoreRecord) × (upto : LogstoreRecord) × (t : HomeLogStore R) × (rollback ops
            to_lsn s.store
          ≡ some (Outcome.done true (some (from_.dev_key.idx, upto.dev_key.idx)) t))
        × (ops.at (suc to_lsn) s.store.records ≡ some from_)
        × (ops.at s.store.tail_lsn s.store.records ≡ some upto)
        × (from_.dev_key.idx ≤ upto.dev_key.idx)
        × (t.tail_lsn ≡ to_lsn)
        × (t.next_lsn ≡ suc to_lsn)
        × ((lsn : ℕ) → lsn ≤ to_lsn → ops.at lsn t.records ≡ ops.at lsn s.store.records)
  unfolding rollback roll_back
  rollback-Steps before to_lsn s run going flushed ge lt =
      let v = fresh-Steps-IsKept ops laws before run in
      let (q, hq) = v.present (suc to_lsn) ge (omega arith) in
      let (r, hr) = v.present s.store.tail_lsn (omega arith) (omega arith) in
      let q_is = hq.is_at in
      let r_is = hr.is_at in
      let pos = v.positive in
      (
        q,
        r,
        record s.store {
          next_lsn = suc to_lsn;
          tail_lsn = to_lsn;
          records = ops.rollback to_lsn s.store.records;
        },
        ground arith,
        q_is,
        r_is,
        v.ordered (suc to_lsn) s.store.tail_lsn q r ge (omega arith) (omega arith) q_is r_is,
        refl,
        refl,
        λ lsn h. laws.rollback_below to_lsn lsn s.store.records h,
      )
