-- ===== src/HomeLogStore/Device/Serves.antt =====
-- What the operations on a log store with its device make of its log.
use home_store.Prelude.{
  ℕ, zero, suc, ◌+◌, ◌-◌, ◌^◌, ◌≤◌, ◌<◌, ◌≡◌, ◌⊎◌, Bool, inl, inr, refl, sym, ap, ◌∙◌, ltb, some,
  get_elem?, List, [], ◌∷◌, ◌++◌, length, length-append, take, drop, map, arith, subst,
  get_elem?-drop, length-drop, take-prefix, append_assoc, append-nil,
}
use home_store.StreamTracker.{StreamTracker, IsStreamTracker, Scans, AreScans, enumerated}
use home_store.LogStore.{Log, tail, numbered, Operations, Acts}
use home_store.HomeLogStore.{LogstoreRecord}
use home_store.HomeLogStore.Device.{
  read, data_of, flush, read_record_of, truncate_store, rollback_store, foreach,
}
use home_store.HomeLogStore.Device.HomeOps.{Store, log_of, home_ops}
use home_store.HomeLogStore.Device.Good.{Holds, append-Good}
use home_store.HomeLogStore.Device.Operate.{
  flushed_one, flushed_one-start, flushed_one-is, opened_read,
}
use home_store.HomeLogStore.Device.Cut.{opened_truncate, opened_rollback, empty}

module _ {R : Type 0} (ops : StreamTracker LogstoreRecord R) (laws : IsStreamTracker ops)
    (scans : Scans LogstoreRecord R) (are : AreScans ops scans) (offset : ℕ → ℕ) where
  abbrev home : Operations (Store ops laws scans are offset)
  home = home_ops ops laws scans are offset

  abbrev log : Store ops laws scans are offset → Log
  log = log_of ops laws scans are offset

  log_is : (a b : Log) → a.truncated ≡ b.truncated → a.records ≡ b.records → a ≡ b
  log_is a b h k =
      ap (λ n. record { truncated = n; records = a.records }) h
      ∙ ap (λ l. record { truncated = b.truncated; records = l }) k

  at_each :
      (o : Store ops laws scans are offset) (n : ℕ) (r : LogstoreRecord) (xs : List LogstoreRecord)
      → ops.at (n + 0) o.state.store.records ≡ some r
      → ((i : ℕ) (x : LogstoreRecord)
          → get_elem? xs i ≡ some x
          → ops.at (suc n + i) o.state.store.records ≡ some x)
      → (i : ℕ) (x : LogstoreRecord) → get_elem? (r ∷ xs) i ≡ some x
      → ops.at (n + i) o.state.store.records ≡ some x
  at_each o n r xs first rest zero x e = first ∙ e
  at_each o n r xs first rest (suc i) x e =
      let same : n + suc i ≡ suc n + i = omega arith in
      ap (λ k. ops.at k o.state.store.records) same ∙ rest i x e

  -- The records that lead to these data.
  records_for :
      (o : Store ops laws scans are offset) (n : ℕ) (bs : List (List ℕ))
      → ((i : ℕ) (b : List ℕ)
          → get_elem? bs i ≡ some b
          → Holds ops laws scans are o.state.store o.state.device.log_records o.state.device.flushed
              (n + i)
              b)
      → (xs : List LogstoreRecord) × (length xs ≡ length bs)
        × ((i : ℕ) (x : LogstoreRecord)
            → get_elem? xs i ≡ some x
            → ops.at (n + i) o.state.store.records ≡ some x)
        × (map (λ p. (p.0, read o.state.device p.1.dev_key)) (enumerated n xs) ≡ numbered n bs)
  records_for o n [] has = ([], refl, λ i x h. absurd (cc), refl)
  records_for o n (b ∷ bs) has =
      let first = has 0 b refl in
      let (xs, len, at, same) = records_for o (suc n) bs (λ i c h.
        subst
          (λ k.
            Holds ops laws scans are o.state.store o.state.device.log_records o.state.device.flushed
              k c)
          (omega arith) (has (suc i) c h)) in
      (
        first.rec ∷ xs,
        ap suc len,
        at_each o n first.rec xs
            (ap (λ k. ops.at k o.state.store.records) (omega arith) ∙ first.is_at) at,
        ap (λ d. (n, d) ∷ map (λ p. (p.0, read o.state.device p.1.dev_key)) (enumerated (suc n) xs))
              (ap data_of first.content)
            ∙ ap (λ l. (n, b) ∷ l) same,
      )

  visited :
      (lsn : ℕ) (o : Store ops laws scans are offset)
      → o.state.store.start_lsn ≤ suc lsn
      → foreach scans (suc lsn) o.state
        ≡ numbered (suc lsn) (drop (suc lsn - o.state.store.start_lsn) o.ready)
  visited lsn o h =
      let v = o.good in
      let s = o.state.store in
      let d = suc lsn - s.start_lsn in
      let len = length-drop d o.ready in
      let (xs, same_len, at, same) = records_for o (suc lsn) (drop d o.ready) (λ i b e.
        subst
          (λ k. Holds ops laws scans are s o.state.device.log_records o.state.device.flushed k b)
          (omega arith) (v.has (d + i) b (sym (get_elem?-drop d i o.ready) ∙ e))) in
      ap (map (λ p. (p.0, read o.state.device p.1.dev_key))) (
        are.foreach_visits (suc lsn) xs s.records (omega (arith, v.window)) at
          (λ k a c. v.completed k (omega arith) (omega (arith, v.ends)))
          (λ k a. v.uncompleted k (omega (arith, v.ends))))
      ∙ same

  pub record AreRuns : Type 0 where
    pub flush_is :
        (lsn : ℕ) (o : Store ops laws scans are offset)
        → flush ops offset o.state ≡ some (home.flush lsn o).state
    pub flush_all_is :
        (o : Store ops laws scans are offset)
        → flush ops offset o.state ≡ some (home.flush_all o).state
    pub read_is :
        (lsn : ℕ) (o : Store ops laws scans are offset)
        → read_record_of ops offset lsn o.state
          ≡ some ((home.read_sync lsn o).0, (home.read_sync lsn o).1.state)
    pub truncate_is :
        (lsn : ℕ) (b : Bool) (o : Store ops laws scans are offset)
        → truncate_store ops offset lsn o.state
          ≡ some ((home.truncate lsn b o).0, (home.truncate lsn b o).1.state)
    pub rollback_is :
        (lsn : ℕ) (o : Store ops laws scans are offset)
        → rollback_store ops offset lsn o.state
          ≡ some ((home.rollback lsn o).0, (home.rollback lsn o).1.state)

  issued_tail :
      (from_ : ℕ) (o : Store ops laws scans are offset)
      → from_ ≤ tail (log o)
      → home.get_contiguous_issued_seq_num from_ o ≡ tail (log o)
  issued_tail from_ o h =
      let v = o.good in
      let s = o.state.store in
      let len = length-append o.ready o.pend in
      let last : suc (s.next_lsn - 1) ≡ s.next_lsn = omega (arith, v.next) in
      are.active_upto_last (from_ + 1) (s.next_lsn - 1) s.records (omega (arith, v.next, v.ends))
        (omega (arith, v.window, v.ends, v.next))
        (λ k a b c. v.active k (omega (arith, v.window)) (omega arith))
        (v.inactive (suc (s.next_lsn - 1)) (omega arith))
      ∙ omega (arith, v.next, v.ends, v.positive)

  completed_ready :
      (from_ : ℕ) (o : Store ops laws scans are offset)
      → from_ ≤ (log o).truncated + length o.ready
      → home.get_contiguous_completed_seq_num from_ o ≡ (log o).truncated + length o.ready
  completed_ready from_ o h =
      let v = o.good in
      let s = o.state.store in
      are.completed_upto_last (from_ + 1) s.tail_lsn s.records (omega (arith, v.ends, v.positive))
        (omega (arith, v.window, v.ends)) (λ k a b c. v.completed k (omega (arith, v.window)) c)
        (v.uncompleted (suc s.tail_lsn) (omega arith))
      ∙ omega (arith, v.ends, v.positive)

  append_next :
      (b : List ℕ) (o : Store ops laws scans are offset)
      → (home.append_async b o).0 ≡ tail (log o) + 1
  append_next b o =
      let (lsn, start, good) =
        append-Good ops laws scans are offset b o.state o.ready o.pend o.good in
      omega (arith, lsn, o.good.next, o.good.ends, o.good.positive, length-append o.ready o.pend)

  append_log :
      (b : List ℕ) (o : Store ops laws scans are offset)
      → log (home.append_async b o).1 ≡ record (log o) { records = (log o).records ++ b ∷ [] }
  append_log b o =
      let (lsn, start, good) =
        append-Good ops laws scans are offset b o.state o.ready o.pend o.good in
      log_is (log (home.append_async b o).1)
        (record (log o) { records = (o.ready ++ o.pend) ++ b ∷ [] }) (ap (λ n. n - 1) start)
        (sym (append_assoc o.ready o.pend (b ∷ [])))

  flush_same : (o : Store ops laws scans are offset) → log (home.flush_all o) ≡ log o
  flush_same o =
      log_is (log (flushed_one ops laws scans are offset o)) (log o)
        (ap (λ n. n - 1) (flushed_one-start ops laws scans are offset o))
        (append-nil (o.ready ++ o.pend))

  rollback_log :
      (lsn : ℕ) (o : Store ops laws scans are offset)
      → (log o).truncated ≤ lsn
      → (lsn < (log o).truncated + length o.ready) ⊎ (lsn ≡ tail (log o))
      → log (home.rollback lsn o).1
        ≡ record (log o) { records = take (lsn - (log o).truncated) (log o).records }
  rollback_log lsn o low settled =
      let v = o.good in
      let r = opened_rollback ops laws scans are offset lsn o in
      let len = length-append o.ready o.pend in
      log_is (log r.after)
        (record (log o) {
          records = take (lsn - (o.state.store.start_lsn - 1)) (o.ready ++ o.pend);
        })
        (ap (λ n. n - 1) r.start_same)
        (r.log_is (omega arith)
            (elim settled [
              | inl below ↦ inl (omega (arith, v.ends, v.positive))
              | inr end ↦ inr (omega (arith, v.ends, v.next, v.positive, len))
            ])
            (λ e. elim settled [
              | inl below ↦ absurd (omega (arith, v.ends, v.positive))
              | inr end ↦ empty o.pend (omega (arith, v.ends, v.next, v.positive, len))
            ])
          ∙ ap (λ n. take n (o.ready ++ o.pend)) (omega (arith, v.positive)))

  truncate_log :
      (lsn : ℕ) (b : Bool) (o : Store ops laws scans are offset)
      → (log o).truncated ≤ lsn
      → log (home.truncate lsn b o).1
        ≡ record { truncated = lsn; records = drop (lsn - (log o).truncated) (log o).records }
  truncate_log lsn b o h =
      let v = o.good in
      let r = opened_truncate ops laws scans are offset lsn o in
      log_is (log r.after)
        (record {
          truncated = lsn;
          records = drop (lsn - (o.state.store.start_lsn - 1)) (o.ready ++ o.pend);
        })
        (omega (arith, r.start_is (omega (arith, v.positive))))
        (r.log_is (omega (arith, v.positive))
          ∙ ap (λ n. drop n (o.ready ++ o.pend)) (omega (arith, v.positive)))

  visits_ready :
      (lsn : ℕ) (o : Store ops laws scans are offset)
      → (log o).truncated ≤ lsn
      → home.foreach (suc lsn) o
        ≡ numbered
            (suc lsn)
            (drop (lsn - (log o).truncated) (take (length o.ready) (log o).records))
  visits_ready lsn o h =
      let v = o.good in
      let all : take (length o.ready) (o.ready ++ o.pend) ≡ o.ready =
        take-prefix o.ready o.pend (length o.ready) refl in
      visited lsn o (omega (arith, v.positive))
      ∙ ap (λ n. numbered (suc lsn) (drop n o.ready)) (omega (arith, v.positive))
      ∙ ap (λ l. numbered (suc lsn) (drop (lsn - (o.state.store.start_lsn - 1)) l)) (sym all)

  -- The operations of a log store with its device, which no other store uses and which does not stop, give what the
  -- code gives, which always returns, and they do what the raft log store asks, for the log of all lsns from the
  -- start on: of these the first are flushed, and a record is read back while the device has fewer than
  -- 2 ^ 63 records.
  pub home_ops-Acts :
      AreRuns
      × (acts : Acts home log) × ((o : Store ops laws scans are offset)
          → acts.flushed o ≡ length o.ready)
      × ((o : Store ops laws scans are offset)
          → acts.in_range o ≡ ltb (length o.state.device.log_records) (2 ^ 63))
  home_ops-Acts = (
    record {
      flush_is = λ lsn o. flushed_one-is ops laws scans are offset o;
      flush_all_is = λ o. flushed_one-is ops laws scans are offset o;
      read_is = λ lsn o. (opened_read ops laws scans are offset lsn o).is;
      truncate_is = λ lsn b o. (opened_truncate ops laws scans are offset lsn o).is;
      rollback_is = λ lsn o. (opened_rollback ops laws scans are offset lsn o).is;
    },
    record {
      issued = issued_tail;
      in_range = λ o. ltb (length o.state.device.log_records) (2 ^ 63);
      flushed = λ o. length o.ready;
      completed = completed_ready;
      truncated = λ o. refl;
      append_lsn = append_next;
      append_log = append_log;
      read = λ lsn o range h.
          (opened_read ops laws scans are offset (suc lsn) o).value (ground arith)
            (omega (arith, o.good.positive))
          ∙ ap (get_elem? (o.ready ++ o.pend)) (omega (arith, o.good.positive));
      read_log = λ lsn o.
          let r = opened_read ops laws scans are offset lsn o in
          log_is (log r.after) (log o) (ap (λ n. n - 1) r.start_same) r.log_same;
      rollback_log = λ lsn o low high settled. rollback_log lsn o low settled;
      flush_log = λ lsn o. flush_same o;
      flush_flushed = λ lsn o. refl;
      flush_all_log = flush_same;
      flush_all_flushed = λ o. refl;
      visits = visits_ready;
      truncate_log = truncate_log;
    },
    λ o. refl,
    λ o. refl,
  )
