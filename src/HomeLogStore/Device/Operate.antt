-- ===== src/HomeLogStore/Device/Operate.antt =====
-- Open log stores with their device: the operations that flush first.
use home_store.Prelude.{
  ℕ, zero, suc, ◌+◌, ◌-◌, ◌^◌, ◌≤◌, ◌<◌, ◌≡◌, inl, inr, refl, sym, ap, ◌∙◌, true, false, ◌||◌, ltb,
  leb, Bool-cases, Option, some, none, get_elem?, List, [], ◌∷◌, ◌++◌, length, length-append, arith,
  get_elem?-append_lt, append-nil,
}
use home_store.StreamTracker.{StreamTracker, IsStreamTracker, Scans, AreScans}
use home_store.HomeLogStore.{LogstoreRecord, read_sync, is_valid}
use home_store.HomeLogStore.Device.{State, read, data_of, flush, read_record_of}
use home_store.HomeLogStore.Device.Good.{Good, in_list}
use home_store.HomeLogStore.Device.Flush.{flush-Flushed}

pub element :
    {A : Type 0} (xs : List A) (i : ℕ) → i < length xs → (x : A) × (get_elem? xs i ≡ some x)
element [] i h = absurd (omega arith)
element (x ∷ xs) zero h = (x, refl)
element (x ∷ xs) (suc i) h = element xs i (omega arith)

pub no_element : {A : Type 0} (xs : List A) (i : ℕ) → length xs ≤ i → get_elem? xs i ≡ none
no_element [] i h = refl
no_element (x ∷ xs) zero h = absurd (omega arith)
no_element (x ∷ xs) (suc i) h = no_element xs i (omega arith)

module _ {R : Type 0} (ops : StreamTracker LogstoreRecord R) (laws : IsStreamTracker ops)
    (scans : Scans LogstoreRecord R) (are : AreScans ops scans) (offset : ℕ → ℕ) where
  -- A state with the data that its log has.
  pub record Opened : Type 0 where
    pub state : State R
    pub ready : List (List ℕ)
    pub pend : List (List ℕ)
    pub good :
        Good ops laws scans are state.store state.device.log_records state.device.flushed ready pend

  abbrev pub flushed_one : Opened → Opened
  flushed_one o =
      let (y, is, f) = flush-Flushed ops laws scans are offset o.state o.ready o.pend o.good in
      record { state = y; ready = o.ready ++ o.pend; pend = []; good = f.good }

  pub flushed_one-start :
      (o : Opened) → (flushed_one o).state.store.start_lsn ≡ o.state.store.start_lsn
  flushed_one-start o =
      (flush-Flushed ops laws scans are offset o.state o.ready o.pend o.good).2.start_same

  pub flushed_one-is : (o : Opened) → flush ops offset o.state ≡ some (flushed_one o).state
  flushed_one-is o = (flush-Flushed ops laws scans are offset o.state o.ready o.pend o.good).1

  -- A record that is flushed is looked up.
  ready_read :
      (o : Opened) (i : ℕ) (b : List ℕ)
      → length o.state.device.log_records < 2 ^ 63
      → get_elem? o.ready i ≡ some b
      → (read_sync ops (λ s. s) (read o.state.device) (o.state.store.start_lsn + i) o.state.store).0
        ≡ some b
  unfolding read_sync
  ready_read o i b small e =
      let v = o.good in
      let s = o.state.store in
      let h = v.has i b e in
      let inside = in_list ops laws scans are o.ready i e in
      let used = v.active (s.start_lsn + i) (omega arith) (omega (arith, v.next, v.ends)) in
      let going = v.going in
      let range = are.status_range (s.start_lsn + i) s.records used in
      let no_hole = are.status_used (s.start_lsn + i) s.records used in
      let whole =
        are.status_completed (s.start_lsn + i) s.records used
        ∙ v.completed (s.start_lsn + i) (omega arith) (omega (arith, v.ends)) in
      let at_is = h.is_at in
      let valid : is_valid h.rec.dev_key ≡ true =
        ground (arith, h.positive, h.flushed, v.fits, small) in
      let content = ap data_of h.content in ground arith

  unused_read :
      (o : Opened) (lsn : ℕ)
      → o.state.store.next_lsn ≤ lsn
      → (read_sync ops (λ s. s) (read o.state.device) lsn o.state.store).0 ≡ none
  unfolding read_sync
  unused_read o lsn h =
      let going = o.good.going in
      let unused = are.status_unused lsn o.state.store.records (o.good.inactive lsn h) in
      ground arith

  -- What a read gives, and what it leaves.
  pub record Reads (lsn : ℕ) (o : Opened) : Type 0 where
    pub result : Option (List ℕ)
    pub after : Opened
    pub is : read_record_of ops offset lsn o.state ≡ some (result, after.state)
    pub start_same : after.state.store.start_lsn ≡ o.state.store.start_lsn
    pub log_same : after.ready ++ after.pend ≡ o.ready ++ o.pend
    pub value :
        length o.state.device.log_records < 2 ^ 63
        → o.state.store.start_lsn ≤ lsn
        → result ≡ get_elem? (o.ready ++ o.pend) (lsn - o.state.store.start_lsn)

  record_of_same :
      (lsn : ℕ) (o : Opened)
      → ((ops.status lsn o.state.store.records).is_out_of_range
          || (ops.status lsn o.state.store.records).is_hole
          || (ops.status lsn o.state.store.records).is_completed)
        ≡ true
      → read_record_of ops offset lsn o.state
        ≡ some ((read_sync ops (λ s. s) (read o.state.device) lsn o.state.store).0, o.state)
  unfolding read_record_of
  record_of_same lsn o h = ground arith

  record_of_flushed :
      (lsn : ℕ) (o : Opened)
      → ((ops.status lsn o.state.store.records).is_out_of_range
          || (ops.status lsn o.state.store.records).is_hole
          || (ops.status lsn o.state.store.records).is_completed)
        ≡ false
      → read_record_of ops offset lsn o.state
        ≡ some (
          (read_sync ops
              (λ s. s)
              (read (flushed_one o).state.device)
              lsn
              (flushed_one o).state.store).0,
          (flushed_one o).state,
        )
  unfolding read_record_of
  record_of_flushed lsn o h = let is = flushed_one-is o in ground arith

  flushed_one-records :
      (o : Opened) → (flushed_one o).state.device.log_records ≡ o.state.device.log_records
  flushed_one-records o =
      (flush-Flushed ops laws scans are offset o.state o.ready o.pend o.good).2.records_same

  same_value :
      (lsn : ℕ) (o : Opened)
      → ((ops.status lsn o.state.store.records).is_out_of_range
          || (ops.status lsn o.state.store.records).is_hole
          || (ops.status lsn o.state.store.records).is_completed)
        ≡ true
      → length o.state.device.log_records < 2 ^ 63
      → o.state.store.start_lsn ≤ lsn
      → (read_sync ops (λ s. s) (read o.state.device) lsn o.state.store).0
        ≡ get_elem? (o.ready ++ o.pend) (lsn - o.state.store.start_lsn)
  same_value lsn o test small le =
      let s = o.state.store in
      let v = o.good in
      let i = lsn - s.start_lsn in
      elim (Bool-cases (ltb lsn s.next_lsn)) [
        | inr unused ↦
            unused_read o lsn (ground arith)
            ∙ sym (
                no_element (o.ready ++ o.pend) i
                  (ground (arith, v.next, v.ends, length-append o.ready o.pend)))
        | inl used ↦ elim (Bool-cases (leb lsn s.tail_lsn)) [
          | inl flushed ↦
              let lt : i < length o.ready = ground (arith, v.ends) in
              let (b, e) = element o.ready i lt in
              ap (λ n. (read_sync ops (λ s. s) (read o.state.device) n s).0) (omega arith)
              ∙ ready_read o i b small e
              ∙ sym e
              ∙ sym (get_elem?-append_lt o.ready o.pend i lt)
          | inr waiting ↦
              let on = v.active lsn le (ground arith) in
              let range = are.status_range lsn s.records on in
              let no_hole = are.status_used lsn s.records on in
              let not_yet =
                are.status_completed lsn s.records on ∙ v.uncompleted lsn (ground arith) in
              absurd (ground arith)
        ]
      ]

  flushed_value :
      (lsn : ℕ) (o : Opened)
      → ((ops.status lsn o.state.store.records).is_out_of_range
          || (ops.status lsn o.state.store.records).is_hole
          || (ops.status lsn o.state.store.records).is_completed)
        ≡ false
      → length o.state.device.log_records < 2 ^ 63
      → o.state.store.start_lsn ≤ lsn
      → (read_sync ops
          (λ s. s)
          (read (flushed_one o).state.device)
          lsn
          (flushed_one o).state.store).0
        ≡ get_elem? (o.ready ++ o.pend) (lsn - o.state.store.start_lsn)
  flushed_value lsn o test small le =
      let s = o.state.store in
      let v = o.good in
      let p = flushed_one o in
      let i = lsn - s.start_lsn in
      elim (Bool-cases (ltb lsn s.next_lsn)) [
        | inr out ↦
            let unused = are.status_unused lsn s.records (v.inactive lsn (ground arith)) in
            absurd (ground arith)
        | inl used ↦
            let lt : i < length (o.ready ++ o.pend) =
              ground (arith, v.next, v.ends, length-append o.ready o.pend) in
            let (b, e) = element (o.ready ++ o.pend) i lt in
            ap (λ n. (read_sync ops (λ s. s) (read p.state.device) n p.state.store).0)
              (omega (arith, flushed_one-start o))
            ∙ ready_read p i b (omega (arith, ap length (flushed_one-records o))) e
            ∙ sym e
      ]

  pub opened_read : (lsn : ℕ) (o : Opened) → Reads lsn o
  opened_read lsn o =
      elim (Bool-cases (
        (ops.status lsn o.state.store.records).is_out_of_range
        || (ops.status lsn o.state.store.records).is_hole
        || (ops.status lsn o.state.store.records).is_completed)) [
          | inl test ↦ record {
            result = (read_sync ops (λ s. s) (read o.state.device) lsn o.state.store).0;
            after = o;
            is = record_of_same lsn o test;
            start_same = refl;
            log_same = refl;
            value = same_value lsn o test;
          }
          | inr test ↦ record {
            result =
                (read_sync ops (λ s. s) (read (flushed_one o).state.device) lsn
                  (flushed_one o).state.store).0;
            after = flushed_one o;
            is = record_of_flushed lsn o test;
            start_same = flushed_one-start o;
            log_same = append-nil (o.ready ++ o.pend);
            value = flushed_value lsn o test;
          }
        ]
