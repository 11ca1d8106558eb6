-- ===== src/HomeLogStore/Device/Cut.antt =====
-- Truncation and rollback of an open log store.
use home_store.Prelude.{
  ℕ, zero, suc, ◌+◌, ◌-◌, ◌≤◌, ◌<◌, ◌≡◌, ◌⊎◌, inl, inr, refl, sym, ap, ◌∙◌, max, Bool, true, false,
  ◌||◌, ltb, leb, ◌==◌, Bool-cases, Option, some, List, [], ◌∷◌, ◌++◌, length, length-append, take,
  drop, arith, subst, get_elem?-drop, get_elem?-take, length-drop, length-take, append-nil,
  take_all,
}
use home_store.StreamTracker.{StreamTracker, IsStreamTracker, Scans, AreScans}
use home_store.HomeLogStore.{
  LogstoreRecord, HomeLogStore, done, retry, truncate, truncate_flushed, rollback, roll_back,
  lowest, cut,
}
use home_store.HomeLogStore.Device.{truncate_store, rollback_store}
use home_store.HomeLogStore.Device.Good.{Good, in_list}
use home_store.HomeLogStore.Device.Operate.{
  Opened, flushed_one, flushed_one-start, flushed_one-is, element,
}

drop_all : {A : Type 0} (n : ℕ) (xs : List A) → length xs ≤ n → drop n xs ≡ []
drop_all zero [] h = refl
drop_all (suc n) [] h = refl
drop_all zero (x ∷ xs) h = absurd (omega arith)
drop_all (suc n) (x ∷ xs) h = drop_all n xs (omega arith)

pub empty : (xs : List (List ℕ)) → length xs ≡ 0 → xs ≡ []
empty [] h = refl
empty (x ∷ xs) h = absurd (omega arith)

module _ {R : Type 0} (ops : StreamTracker LogstoreRecord R) (laws : IsStreamTracker ops)
    (scans : Scans LogstoreRecord R) (are : AreScans ops scans) (offset : ℕ → ℕ) where
  cut_inside :
      (lsn : ℕ) (s : HomeLogStore R) (recs : List (ℕ × List ℕ)) (fl : ℕ) (ready : List (List ℕ))
      → Good ops laws scans are s recs fl ready []
      → s.start_lsn ≤ lsn
      → lsn ≤ s.tail_lsn
      → (t : HomeLogStore R) × (truncate ops (λ s. s) lsn s ≡ some (true, t))
        × (t.start_lsn ≡ suc lsn)
        × Good ops laws scans are t recs fl (drop (suc lsn - s.start_lsn) ready) []
  unfolding truncate truncate_flushed
  cut_inside lsn s recs fl ready v le inside =
      let d = suc lsn - s.start_lsn in
      let (b, e) = element ready (lsn - s.start_lsn) (omega (arith, v.ends)) in
      let h = v.has (lsn - s.start_lsn) b e in
      let at_is : ops.at lsn s.records ≡ some h.rec =
        ap (λ n. ops.at n s.records) (omega arith) ∙ h.is_at in
      let going = v.going in
      (
        cut ops lsn (record s { trunc_ld_key = h.rec.trunc_key }),
        ground arith,
        refl,
        record {
          going = v.going;
          positive = omega arith;
          window = are.truncate_start lsn s.records (omega (arith, v.window));
          ends = omega (arith, v.ends, length-drop d ready);
          next = v.next;
          pending = v.pending;
          fits = v.fits;
          has = λ i c q.
              let old = v.has (d + i) c (sym (get_elem?-drop d i ready) ∙ q) in
              let place : suc lsn + i ≡ s.start_lsn + (d + i) = omega arith in
              record {
                rec = old.rec;
                number = old.number;
                is_at =
                    laws.truncate_above lsn (suc lsn + i) s.records (omega arith)
                    ∙ ap (λ n. ops.at n s.records) place
                    ∙ old.is_at;
                positive = old.positive;
                flushed = old.flushed;
                content = old.content;
              };
          active = λ k a c.
              are.truncate_active lsn k s.records (omega arith) ∙ v.active k (omega arith) c;
          completed = λ k a c.
              are.truncate_completed lsn k s.records (omega arith) ∙ v.completed k (omega arith) c;
          uncompleted =
              λ k a. are.truncate_completed lsn k s.records (omega arith) ∙ v.uncompleted k a;
          inactive =
              λ k a. are.truncate_active lsn k s.records (omega (arith, v.next)) ∙ v.inactive k a;
        },
      )

  cut_above :
      (lsn : ℕ) (s : HomeLogStore R) (recs : List (ℕ × List ℕ)) (fl : ℕ) (ready : List (List ℕ))
      → Good ops laws scans are s recs fl ready []
      → s.start_lsn ≤ lsn
      → s.tail_lsn < lsn
      → (t : HomeLogStore R) × (truncate ops (λ s. s) lsn s ≡ some (true, t))
        × (t.start_lsn ≡ suc lsn)
        × Good ops laws scans are t recs fl (drop (suc lsn - s.start_lsn) ready) []
  unfolding truncate truncate_flushed
  cut_above lsn s recs fl ready v le above =
      let hole : LogstoreRecord = record { dev_key = lowest; trunc_key = lowest } in
      let filled = ops.create_and_complete lsn hole s.records in
      let going = v.going in
      let gone : drop (suc lsn - s.start_lsn) ready ≡ [] =
        drop_all (suc lsn - s.start_lsn) ready (omega (arith, v.ends)) in
      let t : HomeLogStore R =
        cut ops lsn
          (record s { tail_lsn = lsn; next_lsn = max s.next_lsn (suc lsn); records = filled }) in
      (
        t,
        ground arith,
        refl,
        subst (λ l. Good ops laws scans are t recs fl l []) (sym gone)
            (record {
              going = v.going;
              positive = omega arith;
              window =
                  are.truncate_start lsn filled
                    (omega (arith, v.window, laws.complete_first lsn hole s.records));
              ends = omega arith;
              next = omega (arith, v.next);
              pending = v.pending;
              fits = v.fits;
              has = λ i c q. absurd (cc);
              active = λ k a c. absurd (omega (arith, v.next));
              completed = λ k a c. absurd (omega arith);
              uncompleted = λ k a.
                  are.truncate_completed lsn k filled (omega arith)
                  ∙ are.complete_completed lsn k hole s.records (omega arith)
                  ∙ v.uncompleted k (omega arith);
              inactive = λ k a.
                  are.truncate_active lsn k filled (omega arith)
                  ∙ are.complete_active lsn k hole s.records (omega arith)
                  ∙ v.inactive k (omega arith);
            }),
      )

  cut_one :
      (lsn : ℕ) (s : HomeLogStore R) (recs : List (ℕ × List ℕ)) (fl : ℕ) (ready : List (List ℕ))
      → Good ops laws scans are s recs fl ready []
      → s.start_lsn ≤ lsn
      → (t : HomeLogStore R) × (truncate ops (λ s. s) lsn s ≡ some (true, t))
        × (t.start_lsn ≡ suc lsn)
        × Good ops laws scans are t recs fl (drop (suc lsn - s.start_lsn) ready) []
  cut_one lsn s recs fl ready v le = elim (Bool-cases (leb lsn s.tail_lsn)) [
    | inl inside ↦ cut_inside lsn s recs fl ready v le (ground arith)
    | inr above ↦ cut_above lsn s recs fl ready v le (ground arith)
  ]

  pub record Truncates (lsn : ℕ) (o : Opened ops laws scans are offset) : Type 0 where
    pub result : Bool
    pub after : Opened ops laws scans are offset
    pub is : truncate_store ops offset lsn o.state ≡ some (result, after.state)
    pub start_is : o.state.store.start_lsn ≤ suc lsn → after.state.store.start_lsn ≡ suc lsn
    pub log_is :
        o.state.store.start_lsn ≤ suc lsn
        → after.ready ++ after.pend ≡ drop (suc lsn - o.state.store.start_lsn) (o.ready ++ o.pend)

  truncate_store-old :
      (lsn : ℕ) (o : Opened ops laws scans are offset)
      → lsn < o.state.store.start_lsn
      → truncate_store ops offset lsn o.state ≡ some (false, o.state)
  unfolding truncate_store truncate
  truncate_store-old lsn o h = ground arith

  truncate_store-flushed :
      (lsn : ℕ) (o : Opened ops laws scans are offset) (t : HomeLogStore R)
      → o.state.store.start_lsn ≤ lsn
      → truncate ops (λ s. s) lsn (flushed_one ops laws scans are offset o).state.store
        ≡ some (true, t)
      → truncate_store ops offset lsn o.state
        ≡ some (true, record (flushed_one ops laws scans are offset o).state { store = t })
  unfolding truncate_store
  truncate_store-flushed lsn o t h e =
      let is = flushed_one-is ops laws scans are offset o in ground arith

  pub opened_truncate : (lsn : ℕ) (o : Opened ops laws scans are offset) → Truncates lsn o
  opened_truncate lsn o = elim (Bool-cases (ltb lsn o.state.store.start_lsn)) [
    | inl old ↦ record {
      result = false;
      after = o;
      is = truncate_store-old lsn o (ground arith);
      start_is = λ h. ground arith;
      log_is = λ h.
          let none_cut : suc lsn - o.state.store.start_lsn ≡ 0 = ground arith in
          sym (ap (λ n. drop n (o.ready ++ o.pend)) none_cut);
    }
    | inr new ↦
        let p = flushed_one ops laws scans are offset o in
        let same = flushed_one-start ops laws scans are offset o in
        let (t, is, start, good) =
          cut_one lsn p.state.store p.state.device.log_records p.state.device.flushed p.ready p.good
            (ground arith) in
        record {
          result = true;
          after = record {
            state = record p.state { store = t };
            ready = drop (suc lsn - p.state.store.start_lsn) p.ready;
            pend = [];
            good = good;
          };
          is = truncate_store-flushed lsn o t (ground arith) is;
          start_is = λ h. start;
          log_is = λ h.
              append-nil (drop (suc lsn - p.state.store.start_lsn) p.ready)
              ∙ ap (λ n. drop (suc lsn - n) p.ready) same;
        }
  ]

  roll_one :
      (lsn : ℕ) (s : HomeLogStore R) (recs : List (ℕ × List ℕ)) (fl : ℕ) (ready : List (List ℕ))
      → Good ops laws scans are s recs fl ready []
      → s.start_lsn ≤ suc lsn
      → lsn < s.tail_lsn
      → (ids : Option (ℕ × ℕ)) × (t : HomeLogStore R) × (rollback ops lsn s
          ≡ some (done true ids t))
        × (t.start_lsn ≡ s.start_lsn)
        × Good ops laws scans are t recs fl (take (suc lsn - s.start_lsn) ready) []
  unfolding rollback roll_back
  roll_one lsn s recs fl ready v le lt =
      let n = suc lsn - s.start_lsn in
      let (b, e) = element ready n (omega (arith, v.ends)) in
      let h = v.has n b e in
      let from_is : ops.at (suc lsn) s.records ≡ some h.rec =
        ap (λ n. ops.at n s.records) (omega arith) ∙ h.is_at in
      let (b', e') = element ready (s.tail_lsn - s.start_lsn) (omega (arith, v.ends)) in
      let h' = v.has (s.tail_lsn - s.start_lsn) b' e' in
      let upto_is : ops.at s.tail_lsn s.records ≡ some h'.rec =
        ap (λ n. ops.at n s.records) (omega (arith, v.ends)) ∙ h'.is_at in
      let going = v.going in
      let next = v.next in
      let pos = v.positive in
      (
        some (h.rec.dev_key.idx, h'.rec.dev_key.idx),
        record s { next_lsn = suc lsn; tail_lsn = lsn; records = ops.rollback lsn s.records },
        ground arith,
        refl,
        record {
          going = v.going;
          positive = v.positive;
          window = omega (arith, v.window, laws.rollback_first lsn s.records);
          ends = omega (arith, v.ends, length-take n ready);
          next = omega arith;
          pending = v.pending;
          fits = v.fits;
          has = λ i c q.
              let inside = in_list ops laws scans are (take n ready) i q in
              let few = length-take n ready in
              let i_lt : i < n = omega arith in
              let old = v.has i c (sym (get_elem?-take n i ready i_lt) ∙ q) in
              record {
                rec = old.rec;
                number = old.number;
                is_at =
                    laws.rollback_below lsn (s.start_lsn + i) s.records (omega arith) ∙ old.is_at;
                positive = old.positive;
                flushed = old.flushed;
                content = old.content;
              };
          active = λ k a c.
              are.rollback_active lsn k s.records (omega arith)
              ∙ v.active k a (omega (arith, v.next));
          completed =
              λ k a c. are.rollback_completed lsn k s.records c ∙ v.completed k a (omega arith);
          uncompleted = λ k a. are.rollback_uncompleted lsn k s.records a;
          inactive = λ k a. are.rollback_inactive lsn k s.records (omega arith);
        },
      )

  pub record RollsBack (lsn : ℕ) (o : Opened ops laws scans are offset) : Type 0 where
    pub result : Bool
    pub after : Opened ops laws scans are offset
    pub is : rollback_store ops offset lsn o.state ≡ some (result, after.state)
    pub start_same : after.state.store.start_lsn ≡ o.state.store.start_lsn
    pub log_is :
        o.state.store.start_lsn ≤ suc lsn
        → (lsn ≤ o.state.store.tail_lsn) ⊎ (suc lsn ≡ o.state.store.next_lsn)
        → (lsn ≡ o.state.store.tail_lsn → o.pend ≡ [])
        → after.ready ++ after.pend ≡ take (suc lsn - o.state.store.start_lsn) (o.ready ++ o.pend)

  -- What is not between the start and the tail stays as it is.
  roll_same :
      (lsn : ℕ) (o : Opened ops laws scans are offset)
      → (o.state.store.tail_lsn ≤ lsn) ⊎ (suc lsn < o.state.store.start_lsn)
      → (b : Bool) × (rollback_store ops offset lsn o.state ≡ some (b, o.state))
  unfolding rollback_store rollback
  roll_same lsn o (inl above) =
      let going = o.good.going in
      elim (Bool-cases (lsn == o.state.store.tail_lsn)) [
        | inl at ↦ (true, ground arith)
        | inr past ↦ (false, ground arith)
      ]
  roll_same lsn o (inr below) =
      let going = o.good.going in let ends = o.good.ends in (false, ground arith)

  retried :
      (lsn : ℕ) (s : HomeLogStore R)
      → s.stopping ≡ false
      → s.start_lsn ≤ suc lsn
      → lsn < s.tail_lsn
      → suc s.tail_lsn < s.next_lsn
      → rollback ops lsn s ≡ some retry
  unfolding rollback roll_back
  retried lsn s going h lt more = ground arith

  outside :
      (tail lsn start : ℕ)
      → (leb tail lsn || ltb (suc lsn) start) ≡ true
      → (tail ≤ lsn) ⊎ (suc lsn < start)
  outside tail lsn start h = elim (Bool-cases (leb tail lsn)) [
    | inl a ↦ inl (ground arith)
    | inr a ↦ inr (ground arith)
  ]

  all_kept :
      (lsn : ℕ) (o : Opened ops laws scans are offset)
      → o.state.store.start_lsn ≤ suc lsn
      → (lsn ≤ o.state.store.tail_lsn) ⊎ (suc lsn ≡ o.state.store.next_lsn)
      → (lsn ≡ o.state.store.tail_lsn → o.pend ≡ [])
      → o.state.store.tail_lsn ≤ lsn
      → length (o.ready ++ o.pend) ≤ suc lsn - o.state.store.start_lsn
  all_kept lsn o le (inl low) settled above =
      let none_pend = settled (omega arith) in
      omega (arith, o.good.ends, length-append o.ready o.pend, ap length none_pend)
  all_kept lsn o le (inr end) settled above =
      omega (arith, o.good.ends, o.good.next, length-append o.ready o.pend)

  roll_retry :
      (lsn : ℕ) (o : Opened ops laws scans are offset) (ids : Option (ℕ × ℕ)) (t : HomeLogStore R)
      → o.state.store.start_lsn ≤ suc lsn
      → lsn < o.state.store.tail_lsn
      → suc o.state.store.tail_lsn < o.state.store.next_lsn
      → rollback ops lsn (flushed_one ops laws scans are offset o).state.store
        ≡ some (done true ids t)
      → rollback_store ops offset lsn o.state
        ≡ some (true, record (flushed_one ops laws scans are offset o).state { store = t })
  unfolding rollback_store
  roll_retry lsn o ids t h lt more e =
      let is = flushed_one-is ops laws scans are offset o in
      let first = retried lsn o.state.store o.good.going h lt more in ground arith

  roll_now :
      (lsn : ℕ) (o : Opened ops laws scans are offset) (ids : Option (ℕ × ℕ)) (t : HomeLogStore R)
      → rollback ops lsn o.state.store ≡ some (done true ids t)
      → rollback_store ops offset lsn o.state ≡ some (true, record o.state { store = t })
  unfolding rollback_store
  roll_now lsn o ids t e = ground arith

  pub opened_rollback : (lsn : ℕ) (o : Opened ops laws scans are offset) → RollsBack lsn o
  opened_rollback lsn o =
      let s = o.state.store in
      let v = o.good in
      elim (Bool-cases (leb s.tail_lsn lsn || ltb (suc lsn) s.start_lsn)) [
        | inl out ↦
            let (b, is) = roll_same lsn o (outside s.tail_lsn lsn s.start_lsn out) in
            record {
              result = b;
              after = o;
              is = is;
              start_same = refl;
              log_is = λ le end settled. sym (
                  take_all (suc lsn - s.start_lsn) (o.ready ++ o.pend)
                    (all_kept lsn o le end settled (ground arith)));
            }
        | inr inside ↦ elim (Bool-cases (ltb (suc s.tail_lsn) s.next_lsn)) [
          | inl more ↦
              let p = flushed_one ops laws scans are offset o in
              let same = flushed_one-start ops laws scans are offset o in
              let len = length-append o.ready o.pend in
              let (ids, t, is, start, good) =
                roll_one lsn p.state.store p.state.device.log_records p.state.device.flushed p.ready
                  p.good (ground arith) (ground (arith, p.good.ends, v.ends)) in
              record {
                result = true;
                after = record {
                  state = record p.state { store = t };
                  ready = take (suc lsn - p.state.store.start_lsn) p.ready;
                  pend = [];
                  good = good;
                };
                is = roll_retry lsn o ids t (ground arith) (ground arith) (ground arith) is;
                start_same = start ∙ same;
                log_is = λ le end settled.
                    append-nil (take (suc lsn - p.state.store.start_lsn) p.ready)
                    ∙ ap (λ n. take (suc lsn - n) p.ready) same;
              }
          | inr no_more ↦
              let none_pend : o.pend ≡ [] = empty o.pend (ground (arith, v.next)) in
              let (ids, t, is, start, good) =
                roll_one lsn s o.state.device.log_records o.state.device.flushed o.ready
                  (subst
                    (λ l.
                      Good ops laws scans are s o.state.device.log_records o.state.device.flushed
                        o.ready l)
                    none_pend v)
                  (ground arith) (ground arith) in
              record {
                result = true;
                after = record {
                  state = record o.state { store = t };
                  ready = take (suc lsn - s.start_lsn) o.ready;
                  pend = [];
                  good = good;
                };
                is = roll_now lsn o ids t is;
                start_same = start;
                log_is = λ le end settled.
                    append-nil (take (suc lsn - s.start_lsn) o.ready)
                    ∙ ap (take (suc lsn - s.start_lsn))
                        (sym (append-nil o.ready) ∙ ap (λ l. o.ready ++ l) (sym none_pend));
              }
        ]
      ]
