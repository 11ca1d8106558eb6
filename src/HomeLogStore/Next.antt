-- ===== src/HomeLogStore/Next.antt =====
-- A log store with one more record behind its tail.
use home_store.Prelude.{
  ℕ, suc, ◌≤◌, ◌<◌, ◌≡◌, ◌≢◌, ◌⊎◌, inl, inr, refl, sym, ap, ◌∙◌, max, true, false, ◌==◌, Bool-cases,
  some, none, arith, subst,
}
use home_store.StreamTracker.{StreamTracker, IsStreamTracker}
use home_store.HomeLogStore.{
  LogdevKey, LogstoreRecord, HomeLogStore, truncation_key, on_write_completion, on_log_found,
}
use home_store.HomeLogStore.System.{Follows}
use home_store.HomeLogStore.Kept.{IsKept, HasRecord, some_is}

module _ {R : Type 0} (ops : StreamTracker LogstoreRecord R) (laws : IsStreamTracker ops) where
  -- The store with one more record, behind its tail.
  pub record IsNext (s t : HomeLogStore R) (ld_key flush_ld_key : LogdevKey) : Type 0 where
    pub start_same : t.start_lsn ≡ s.start_lsn
    pub tail_next : t.tail_lsn ≡ suc s.tail_lsn
    pub next_above : t.tail_lsn < t.next_lsn
    pub trunc_same : t.trunc_ld_key ≡ s.trunc_ld_key
    pub first_same : ops.first t.records ≡ ops.first s.records
    pub others : (m : ℕ) → m ≢ suc s.tail_lsn → ops.at m t.records ≡ ops.at m s.records
    pub its_record :
        ops.at (suc s.tail_lsn) t.records
        ≡ some (record { dev_key = ld_key; trunc_key = flush_ld_key })

  pub next-IsKept :
      {s t : HomeLogStore R} {last : ℕ} {ld_key flush_ld_key : LogdevKey}
      → IsKept ops laws s last
      → Follows last ld_key flush_ld_key
      → IsNext s t ld_key flush_ld_key
      → IsKept ops laws t ld_key.idx
  next-IsKept {s} {t} {last} {ld_key} {flush_ld_key} v f n = record {
    window = omega (arith, v.window, n.first_same, n.start_same);
    positive = omega (arith, v.positive, n.start_same);
    above_start = omega (arith, v.above_start, n.start_same, n.tail_next);
    below_next = n.next_above;
    present = λ lsn h k. has lsn h k (Bool-cases (lsn == suc s.tail_lsn));
    ordered = λ m k q r a b c e g.
        order m k q r a b c e g (Bool-cases (m == suc s.tail_lsn))
          (Bool-cases (k == suc s.tail_lsn));
    trunc_seen = omega (arith, trunc_is, v.trunc_seen, f.above);
    is_number = f.is_number;
  }
    where
      trunc_is : t.trunc_ld_key.idx ≡ s.trunc_ld_key.idx
      trunc_is = ap (λ k. k.idx) n.trunc_same

      has :
          (lsn : ℕ)
          → t.start_lsn ≤ lsn
          → lsn ≤ t.tail_lsn
          → ((lsn == suc s.tail_lsn) ≡ true) ⊎ ((lsn == suc s.tail_lsn) ≡ false)
          → (r : LogstoreRecord) × HasRecord ops laws t ld_key.idx lsn r
      has lsn h k (inl e) =
          let is : lsn ≡ suc s.tail_lsn = ground arith in
          (
            record { dev_key = ld_key; trunc_key = flush_ld_key },
            record {
              is_at = ap (λ x. ops.at x t.records) is ∙ n.its_record;
              kept = omega (arith, trunc_is, v.trunc_seen, f.above);
              own_group = f.from_;
              seen = omega arith;
            },
          )
      has lsn h k (inr e) =
          let other : lsn ≢ suc s.tail_lsn = ground arith in
          let (r, hr) =
            v.present lsn (omega (arith, n.start_same)) (omega (arith, n.tail_next, other)) in
          (
            r,
            record {
              is_at = n.others lsn other ∙ hr.is_at;
              kept = omega (arith, trunc_is, hr.kept);
              own_group = hr.own_group;
              seen = omega (arith, hr.seen, f.above);
            },
          )

      order :
          (m k : ℕ) (q r : LogstoreRecord)
          → t.start_lsn ≤ m
          → m ≤ k
          → k ≤ t.tail_lsn
          → ops.at m t.records ≡ some q
          → ops.at k t.records ≡ some r
          → ((m == suc s.tail_lsn) ≡ true) ⊎ ((m == suc s.tail_lsn) ≡ false)
          → ((k == suc s.tail_lsn) ≡ true) ⊎ ((k == suc s.tail_lsn) ≡ false)
          → q.dev_key.idx ≤ r.dev_key.idx
      order m k q r a b c e g (inl x) y =
          let m_is : m ≡ suc s.tail_lsn = ground arith in
          let both : m ≡ k = omega (arith, n.tail_next) in
          let same : q ≡ r = some_is (sym e ∙ ap (λ z. ops.at z t.records) both ∙ g) in
          omega (arith, ap (λ z. z.dev_key.idx) same)
      order m k q r a b c e g (inr x) (inr y) =
          let mo : m ≢ suc s.tail_lsn = ground arith in
          let ko : k ≢ suc s.tail_lsn = ground arith in
          v.ordered m k q r (omega (arith, n.start_same)) b (omega (arith, n.tail_next, ko))
            (sym (n.others m mo) ∙ e) (sym (n.others k ko) ∙ g)
      order m k q r a b c e g (inr x) (inl y) =
          let mo : m ≢ suc s.tail_lsn = ground arith in
          let k_is : k ≡ suc s.tail_lsn = ground arith in
          let (q', hq) = v.present m (omega (arith, n.start_same)) (omega (arith, mo, k_is)) in
          let q_is : q' ≡ q = some_is (sym hq.is_at ∙ sym (n.others m mo) ∙ e) in
          let r_is : record { dev_key = ld_key; trunc_key = flush_ld_key } ≡ r =
            some_is (sym n.its_record ∙ ap (λ z. ops.at z t.records) (sym k_is) ∙ g) in
          omega
            (arith, hq.seen, f.above, ap (λ z. z.dev_key.idx) q_is, ap (λ z. z.dev_key.idx) r_is)

  next_key :
      (s : HomeLogStore R) (flush_ld_key : LogdevKey)
      → truncation_key ops (suc s.tail_lsn) flush_ld_key s ≡ some flush_ld_key
  unfolding truncation_key
  next_key s flush_ld_key = ground arith

  pub completed-IsNext :
      {s t : HomeLogStore R} {last : ℕ} (ld_key flush_ld_key : LogdevKey)
      → IsKept ops laws s last
      → on_write_completion ops (suc s.tail_lsn) ld_key flush_ld_key s ≡ some t
      → IsNext s t ld_key flush_ld_key
  unfolding on_write_completion
  completed-IsNext {s} {t} ld_key flush_ld_key v e =
      let put = λ (r : LogstoreRecord). record r { dev_key = ld_key; trunc_key = flush_ld_key } in
      let t' : HomeLogStore R = record s {
        tail_lsn = max s.tail_lsn (suc s.tail_lsn);
        next_lsn = max s.next_lsn (suc (suc s.tail_lsn));
        records = ops.update (suc s.tail_lsn) put s.records;
      } in
      let key = next_key s flush_ld_key in
      let is : t' ≡ t = some_is (
        sym (
          ap
            (λ k. elim k [
              | none ↦ none
              | some trunc_key ↦ some (record s {
                tail_lsn = max s.tail_lsn (suc s.tail_lsn);
                next_lsn = max s.next_lsn (suc (suc s.tail_lsn));
                records =
                    ops.update (suc s.tail_lsn)
                      (λ r. record r { dev_key = ld_key; trunc_key = trunc_key }) s.records;
              })
            ])
            key)
        ∙ e) in
      subst (λ x. IsNext s x ld_key flush_ld_key) is
        (record {
          start_same = refl;
          tail_next = omega arith;
          next_above = omega arith;
          trunc_same = refl;
          first_same = laws.update_first (suc s.tail_lsn) put s.records;
          others = λ m h. laws.update_other (suc s.tail_lsn) m put s.records h;
          its_record =
              (laws.update_at (suc s.tail_lsn) put s.records
                (omega (arith, v.window, v.above_start))).1;
        })

  pub found-IsNext :
      {s t : HomeLogStore R} {last : ℕ} (ld_key flush_ld_key : LogdevKey)
      → IsKept ops laws s last
      → on_log_found ops (suc s.tail_lsn) ld_key flush_ld_key s ≡ some t
      → IsNext s t ld_key flush_ld_key
  unfolding on_log_found
  found-IsNext {s} {t} ld_key flush_ld_key v e =
      let r : LogstoreRecord = record { dev_key = ld_key; trunc_key = flush_ld_key } in
      let t' : HomeLogStore R = record s {
        tail_lsn = max s.tail_lsn (suc s.tail_lsn);
        next_lsn = max s.next_lsn (suc (suc s.tail_lsn));
        records = ops.create_and_complete (suc s.tail_lsn) r s.records;
      } in
      let key = next_key s flush_ld_key in
      let above = v.above_start in
      let is : t' ≡ t = ground arith in
      subst (λ x. IsNext s x ld_key flush_ld_key) is
        (record {
          start_same = refl;
          tail_next = omega arith;
          next_above = omega arith;
          trunc_same = refl;
          first_same = laws.complete_first (suc s.tail_lsn) r s.records;
          others = λ m h. laws.complete_other (suc s.tail_lsn) m r s.records h;
          its_record =
              laws.complete_at (suc s.tail_lsn) r s.records
                (omega (arith, v.window, v.above_start));
        })

  pub found_old-same :
      {s t : HomeLogStore R} (lsn : ℕ) (ld_key flush_ld_key : LogdevKey)
      → lsn < s.start_lsn
      → on_log_found ops lsn ld_key flush_ld_key s ≡ some t
      → s ≡ t
  unfolding on_log_found
  found_old-same lsn ld_key flush_ld_key h e = ground arith
