-- ===== src/HomeLogStore/Safe.antt =====
-- The truncation of a device with several log stores (LogDev::truncate of src/lib/logstore/log_dev.cpp).
use home_store.Prelude.{
  ℕ, zero, suc, ◌^◌, ◌≤◌, ◌<◌, ◌≡◌, ap, some, List, [], ◌∷◌, arith, subst, get_elem?,
}
use home_store.StreamTracker.{StreamTracker, IsStreamTracker}
use home_store.HomeLogStore.{
  LogdevKey, LogstoreRecord, HomeLogStore, truncate_info, least_key, min_safe_ld_key, smaller,
  out_of_bound_ld_key,
}
use home_store.HomeLogStore.System.{System, Steps, fresh}
use home_store.HomeLogStore.Kept.{some_is}
use home_store.HomeLogStore.Runs.{fresh-Steps-IsKept}

module _ {R : Type 0} (ops : StreamTracker LogstoreRecord R) (laws : IsStreamTracker ops) where
  -- Systems that have come about by a run, with the lsn before the first.
  abbrev pub AllRun : List (ℕ × System R) → Type 0
  AllRun [] = Unit {0}
  AllRun (x ∷ xs) = Steps ops (fresh ops x.0) x.1 × AllRun xs

  abbrev pub stores : List (ℕ × System R) → List (HomeLogStore R)
  stores [] = []
  stores (x ∷ xs) = x.1.store ∷ stores xs

  least_key-min : (k : LogdevKey) (ss : List (HomeLogStore R)) → (least_key ops k ss).idx ≤ k.idx
  unfolding least_key
  least_key-min k [] = omega arith
  least_key-min k (s ∷ ss) =
      let rest = least_key-min (smaller ops (truncate_info ops s).1 k) ss in
      let le : (smaller ops (truncate_info ops s).1 k).idx ≤ k.idx = ground arith in
      omega (arith, rest, le)

  least_key-store :
      (k : LogdevKey) (xs : List (ℕ × System R)) (i : ℕ) {x : ℕ × System R}
      → get_elem? xs i ≡ some x
      → (least_key ops k (stores xs)).idx ≤ (truncate_info ops x.1.store).1.idx
  unfolding least_key
  least_key-store k [] i e = absurd (cc)
  least_key-store k (y ∷ xs) zero {x} e =
      let is : y ≡ x = some_is e in
      let rest = least_key-min (smaller ops (truncate_info ops y.1.store).1 k) (stores xs) in
      let le : (smaller ops (truncate_info ops y.1.store).1 k).idx
          ≤ (truncate_info ops y.1.store).1.idx =
        ground arith in
      omega (arith, rest, le, ap (λ z. (truncate_info ops z.1.store).1.idx) is)
  least_key-store k (y ∷ xs) (suc i) e =
      least_key-store (smaller ops (truncate_info ops y.1.store).1 k) xs i e

  run_at :
      (xs : List (ℕ × System R)) (i : ℕ) {x : ℕ × System R}
      → AllRun xs
      → get_elem? xs i ≡ some x
      → Steps ops (fresh ops x.0) x.1
  run_at [] i h e = absurd (cc)
  run_at (y ∷ xs) zero (h, k) e = subst (λ z. Steps ops (fresh ops z.0) z.1) (some_is e) h
  run_at (y ∷ xs) (suc i) (h, k) e = run_at xs i k e

  -- For the stores of a device, each of which has come about by a run in which writes complete in the
  -- order of their lsns, with appends, truncations, rollbacks and records that are found at the start of
  -- the program, every lsn from the start of a store to its tail has a record, and the device is not
  -- truncated above the log number of that record.
  pub min_safe_ld_key-Steps :
      (last_flush_ld_key : LogdevKey) (xs : List (ℕ × System R)) (i : ℕ) (x : ℕ × System R)
      (lsn : ℕ)
      → AllRun xs
      → get_elem? xs i ≡ some x
      → x.1.store.start_lsn ≤ lsn
      → lsn ≤ x.1.store.tail_lsn
      → (r : LogstoreRecord) × (ops.at lsn x.1.store.records ≡ some r)
        × ((min_safe_ld_key ops last_flush_ld_key (stores xs)).idx ≤ r.dev_key.idx)
  unfolding min_safe_ld_key
  min_safe_ld_key-Steps last_flush_ld_key xs i x lsn runs e h k =
      let v = fresh-Steps-IsKept ops laws x.0 (run_at xs i runs e) in
      let (r, hr) = v.present lsn h k in
      let least = least_key-store out_of_bound_ld_key xs i e in
      let info : (truncate_info ops x.1.store).1 ≡ x.1.store.trunc_ld_key = ground arith in
      let key_le = hr.kept in
      let seen = hr.seen in
      let small = v.is_number in
      let info_idx = ap (λ z. z.idx) info in
      let below : (least_key ops out_of_bound_ld_key (stores xs)).idx < 2 ^ 63 = omega arith in
      let is : min_safe_ld_key ops last_flush_ld_key (stores xs)
          ≡ least_key ops out_of_bound_ld_key (stores xs) =
        ground arith in
      (r, hr.is_at, omega (arith, ap (λ z. z.idx) is))
