-- ===== src/HomeLogStore/Device/Tests.antt =====
-- A log store with its device over a window of slots.
use home_store.Prelude.{◌≡◌, ◌^◌, refl, some, none, [], ◌∷◌, true, length, ltb}
use home_store.LogStore.{Acts}
use home_store.HomeLogStore.{
  new_log_store, write_async, append_async, on_write_completion, truncate, read_sync,
}
use home_store.HomeLogStore.Device.{
  State, append, flush, flush_groups, complete_each, foreach, read_record_of, truncate_store,
}
use home_store.HomeLogStore.Device.Window.{
  Window, collect, window, window-IsStreamTracker, window_scans, window-AreScans,
}
use home_store.HomeLogStore.Device.HomeOps.{Store, log_of, home_ops}
use home_store.HomeLogStore.Device.Serves.{AreRuns, home_ops-Acts}

abbrev opened : State Window
opened = record {
  store = new_log_store window 0;
  device = record { log_records = []; flushed = 0 };
}

abbrev three : State Window
three =
    (append window (λ n. n) (9 ∷ [])
      (append window (λ n. n) (8 ∷ []) (append window (λ n. n) (7 ∷ []) opened).1).1).1

-- A flush, a truncation at the first lsn and a read of the last.
three_flushed :
    (x y : State Window) × (flush window (λ n. n) three ≡ some x)
    × (foreach window_scans 1 x ≡ (1, 7 ∷ []) ∷ (2, 8 ∷ []) ∷ (3, 9 ∷ []) ∷ [])
    × (truncate_store window (λ n. n) 1 x ≡ some (true, y))
    × (read_record_of window (λ n. n) 3 y ≡ some (some (9 ∷ []), y))
    × (read_record_of window (λ n. n) 1 y ≡ some (none, y))
unfolding new_log_store append_async write_async on_write_completion truncate read_sync append flush
    flush_groups complete_each read_record_of truncate_store collect
three_flushed = (_, _, refl, refl, refl, refl, refl)

home_ops-Acts_example :
    AreRuns window window-IsStreamTracker window_scans window-AreScans (λ n. n)
    × (acts : Acts
        (home_ops window window-IsStreamTracker window_scans window-AreScans (λ n. n))
        (log_of window window-IsStreamTracker window_scans window-AreScans (λ n. n)))
    × ((o : Store window window-IsStreamTracker window_scans window-AreScans (λ n. n))
        → acts.flushed o ≡ length o.ready)
    × ((o : Store window window-IsStreamTracker window_scans window-AreScans (λ n. n))
        → acts.in_range o ≡ ltb (length o.state.device.log_records) (2 ^ 63))
home_ops-Acts_example =
    home_ops-Acts window window-IsStreamTracker window_scans window-AreScans (λ n. n)
