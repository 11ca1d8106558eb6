-- ===== src/HomeLogStore/Runs.antt =====
-- The runs of a log store, and the truncation of a device with several of them.
use home_store.Prelude.{
  ℕ, suc, ◌≤◌, ◌<◌, ◌≡◌, ◌⊎◌, inl, inr, refl, sym, ap, ◌∙◌, max, Bool, true, false, ltb, Bool-cases,
  Option, some, arith, subst,
}
use home_store.StreamTracker.{StreamTracker, IsStreamTracker}
use home_store.HomeLogStore.{
  LogstoreRecord, HomeLogStore, Outcome, append_async, write_async, truncate_flushed, rollback,
  roll_back, cut, lowest,
}
use home_store.HomeLogStore.System.{
  System, Step, append, completed, found_old, found_next, truncated, rolled_back, Steps, stop, more,
  fresh,
}
use home_store.HomeLogStore.Next.{next-IsKept, completed-IsNext, found-IsNext, found_old-same}
use home_store.HomeLogStore.Kept.{IsKept, IsPart, part-IsKept, fresh-IsKept, some_is}

module _ {R : Type 0} (ops : StreamTracker LogstoreRecord R) (laws : IsStreamTracker ops) where
  append-IsPart :
      (s : HomeLogStore R) (last : ℕ)
      → IsKept ops laws s last
      → IsPart ops laws s (append_async ops s).2
  unfolding append_async write_async
  append-IsPart s last v = go s.stopping refl
    where
      go : (b : Bool) → s.stopping ≡ b → IsPart ops laws s (append_async ops s).2
      go true e =
          let is : s ≡ (append_async ops s).2 = ground arith in
          subst (IsPart ops laws s) is (record {
            window = v.window;
            later = omega arith;
            above_start = v.above_start;
            below_next = v.below_next;
            inside = λ m h k. (k, refl);
            key_le = λ m r h k e.
                let (q, hq) = v.present m h k in
                let q_is : q ≡ r = some_is (sym hq.is_at ∙ e) in
                omega (arith, hq.kept, ap (λ x. x.dev_key.idx) q_is);
            key_seen = λ l w. w.trunc_seen;
          })
      go false e =
          let t : HomeLogStore R = record s {
            next_lsn = suc s.next_lsn;
            records = ops.create s.next_lsn s.records;
          } in
          let is : t ≡ (append_async ops s).2 = ground arith in
          subst (IsPart ops laws s) is (record {
            window = omega (arith, laws.create_first s.next_lsn s.records, v.window);
            later = omega arith;
            above_start = v.above_start;
            below_next = omega (arith, v.below_next);
            inside = λ m h k.
                (k, laws.create_other s.next_lsn m s.records (omega (arith, v.below_next)));
            key_le = λ m r h k e.
                let (q, hq) = v.present m h k in
                let q_is : q ≡ r = some_is (sym hq.is_at ∙ e) in
                omega (arith, hq.kept, ap (λ x. x.dev_key.idx) q_is);
            key_seen = λ l w. w.trunc_seen;
          })

  truncated-IsPart :
      (s t : HomeLogStore R) (last upto_lsn : ℕ)
      → IsKept ops laws s last
      → s.start_lsn ≤ upto_lsn
      → truncate_flushed ops upto_lsn s ≡ some t
      → IsPart ops laws s t
  unfolding truncate_flushed
  truncated-IsPart s t last upto_lsn v h e = go (Bool-cases (ltb s.tail_lsn upto_lsn))
    where
      go :
          (ltb s.tail_lsn upto_lsn ≡ true) ⊎ (ltb s.tail_lsn upto_lsn ≡ false) → IsPart ops laws s t
      go (inl b) =
          let empty : LogstoreRecord = record { dev_key = lowest; trunc_key = lowest } in
          let filled = ops.create_and_complete upto_lsn empty s.records in
          let t' : HomeLogStore R = cut ops upto_lsn (record s {
            tail_lsn = upto_lsn;
            next_lsn = max s.next_lsn (suc upto_lsn);
            records = filled;
          }) in
          let is : t' ≡ t = ground arith in
          let first_is = laws.complete_first upto_lsn empty s.records in
          subst (IsPart ops laws s) is (record {
            window = laws.truncate_first upto_lsn filled (omega (arith, first_is, v.window));
            later = omega arith;
            above_start = omega arith;
            below_next = omega arith;
            inside = λ m h k. absurd (omega arith);
            key_le = λ m r h k e. absurd (omega arith);
            key_seen = λ l w. w.trunc_seen;
          })
      go (inr b) =
          let (q, hq) = v.present upto_lsn h (ground arith) in
          let at_is = hq.is_at in
          let t' : HomeLogStore R = cut ops upto_lsn (record s { trunc_ld_key = q.trunc_key }) in
          let is : t' ≡ t = ground arith in
          let le : upto_lsn ≤ s.tail_lsn = ground arith in
          subst (IsPart ops laws s) is (record {
            window = laws.truncate_first upto_lsn s.records (omega (arith, v.window));
            later = omega arith;
            above_start = omega (arith, le);
            below_next = v.below_next;
            inside = λ m h k. (k, laws.truncate_above upto_lsn m s.records (omega arith));
            key_le = λ m r a k e.
                omega (arith, hq.own_group, v.ordered upto_lsn m q r h (omega arith) k hq.is_at e);
            key_seen = λ l w.
                let (q', hq') = w.present upto_lsn h le in
                let q_is : q' ≡ q = some_is (sym hq'.is_at ∙ at_is) in
                omega (
                  arith,
                  hq'.own_group,
                  hq'.seen,
                  ap (λ x. x.trunc_key.idx) q_is,
                  ap (λ x. x.dev_key.idx) q_is,
                );
          })

  -- What a rollback leaves.
  rolled_back-cases :
      (s t : HomeLogStore R) (last to_lsn : ℕ) (b : Bool) (ids : Option (ℕ × ℕ))
      → IsKept ops laws s last
      → rollback ops to_lsn s ≡ some (Outcome.done b ids t)
      → (s ≡ t)
        ⊎ ((to_lsn < s.tail_lsn)
            × (s.start_lsn ≤ suc to_lsn)
            × (record s {
              next_lsn = suc to_lsn;
              tail_lsn = to_lsn;
              records = ops.rollback to_lsn s.records;
            }
                ≡ t))
  unfolding rollback roll_back
  rolled_back-cases s t last to_lsn b ids v e = let pos = v.positive in ground arith

  same-IsKept :
      {s t : HomeLogStore R} {last : ℕ} → s ≡ t → IsKept ops laws s last → IsKept ops laws t last
  same-IsKept {s} {t} {last} e v = subst (λ x. IsKept ops laws x last) e v

  rolled_back-IsKept :
      (s t : HomeLogStore R) (last to_lsn : ℕ) (b : Bool) (ids : Option (ℕ × ℕ))
      → IsKept ops laws s last
      → rollback ops to_lsn s ≡ some (Outcome.done b ids t)
      → IsKept ops laws t last
  rolled_back-IsKept s t last to_lsn b ids v e = go (rolled_back-cases s t last to_lsn b ids v e)
    where
      go :
          (s ≡ t)
            ⊎ ((to_lsn < s.tail_lsn)
                × (s.start_lsn ≤ suc to_lsn)
                × (record s {
                  next_lsn = suc to_lsn;
                  tail_lsn = to_lsn;
                  records = ops.rollback to_lsn s.records;
                }
                    ≡ t))
          → IsKept ops laws t last
      go (inl is) = same-IsKept is v
      go (inr (lt, le, is)) = same-IsKept is (
          part-IsKept ops laws v (record {
            window = omega (arith, laws.rollback_first to_lsn s.records, v.window);
            later = omega arith;
            above_start = le;
            below_next = omega arith;
            inside = λ m h k. (omega arith, laws.rollback_below to_lsn m s.records k);
            key_le = λ m r h k e.
                let (q, hq) = v.present m h (omega arith) in
                let q_is : q ≡ r = some_is (sym hq.is_at ∙ e) in
                omega (arith, hq.kept, ap (λ x. x.dev_key.idx) q_is);
            key_seen = λ l w. w.trunc_seen;
          }))

  Step-IsKept :
      {s t : System R}
      → Step ops s t
      → IsKept ops laws s.store s.last
      → IsKept ops laws t.store t.last
  Step-IsKept {s} append v = part-IsKept ops laws v (append-IsPart s.store s.last v)
  Step-IsKept (completed ld_key flush_ld_key t f e) v =
      next-IsKept ops laws v f (completed-IsNext ops laws ld_key flush_ld_key v e)
  Step-IsKept (found_old lsn ld_key flush_ld_key t h e) v =
      same-IsKept (found_old-same ops laws lsn ld_key flush_ld_key h e) v
  Step-IsKept (found_next ld_key flush_ld_key t f e) v =
      next-IsKept ops laws v f (found-IsNext ops laws ld_key flush_ld_key v e)
  Step-IsKept {s} (truncated upto_lsn t h e) v =
      part-IsKept ops laws v (truncated-IsPart s.store t s.last upto_lsn v h e)
  Step-IsKept {s} (rolled_back to_lsn b ids t e) v =
      rolled_back-IsKept s.store t s.last to_lsn b ids v e

  Steps-IsKept :
      {s t : System R}
      → Steps ops s t
      → IsKept ops laws s.store s.last
      → IsKept ops laws t.store t.last
  Steps-IsKept stop v = v
  Steps-IsKept (more r st) v = Step-IsKept st (Steps-IsKept r v)

  pub fresh-Steps-IsKept :
      (before : ℕ) {t : System R} → Steps ops (fresh ops before) t → IsKept ops laws t.store t.last
  fresh-Steps-IsKept before r = Steps-IsKept r (fresh-IsKept ops laws before)
