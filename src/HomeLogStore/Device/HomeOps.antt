-- ===== src/HomeLogStore/Device/HomeOps.antt =====
-- The operations that the raft log store calls (src/include/homestore/logstore/log_store.hpp), on a log store
-- with its device that belong together.
use home_store.Prelude.{ℕ, ◌-◌, List, [], ◌∷◌, ◌++◌}
use home_store.StreamTracker.{StreamTracker, IsStreamTracker, Scans, AreScans}
use home_store.LogStore.{Log, Operations}
use home_store.HomeLogStore.{LogstoreRecord}
use home_store.HomeLogStore.Device.{
  append, get_contiguous_issued_seq_num, get_contiguous_completed_seq_num, foreach,
}
use home_store.HomeLogStore.Device.Good.{append-Good}
use home_store.HomeLogStore.Device.Operate.{Opened, flushed_one, opened_read}
use home_store.HomeLogStore.Device.Cut.{opened_truncate, opened_rollback}

module _ {R : Type 0} (ops : StreamTracker LogstoreRecord R) (laws : IsStreamTracker ops)
    (scans : Scans LogstoreRecord R) (are : AreScans ops scans) (offset : ℕ → ℕ) where
  abbrev pub Store : Type 0
  Store = Opened ops laws scans are offset

  -- The lsns from the start on, those that are not flushed included.
  abbrev pub log_of : Store → Log
  log_of o = record { truncated = o.state.store.start_lsn - 1; records = o.ready ++ o.pend }

  abbrev pub appended : List ℕ → Store → Store
  appended b o = record {
    state = (append ops offset b o.state).1;
    ready = o.ready;
    pend = o.pend ++ b ∷ [];
    good = (append-Good ops laws scans are offset b o.state o.ready o.pend o.good).2;
  }

  abbrev pub home_ops : Operations Store
  home_ops = record {
    get_contiguous_issued_seq_num = λ from_ o. get_contiguous_issued_seq_num scans from_ o.state;
    get_contiguous_completed_seq_num =
        λ from_ o. get_contiguous_completed_seq_num scans from_ o.state;
    truncated_upto = λ o. o.state.store.start_lsn - 1;
    append_async = λ b o. ((append ops offset b o.state).0, appended b o);
    read_sync = λ lsn o. (
      (opened_read ops laws scans are offset lsn o).result,
      (opened_read ops laws scans are offset lsn o).after,
    );
    rollback = λ lsn o. (
      (opened_rollback ops laws scans are offset lsn o).result,
      (opened_rollback ops laws scans are offset lsn o).after,
    );
    flush = λ lsn o. flushed_one ops laws scans are offset o;
    flush_all = λ o. flushed_one ops laws scans are offset o;
    foreach = λ lsn o. foreach scans lsn o.state;
    truncate = λ lsn in_memory o. (
      (opened_truncate ops laws scans are offset lsn o).result,
      (opened_truncate ops laws scans are offset lsn o).after,
    );
  }
