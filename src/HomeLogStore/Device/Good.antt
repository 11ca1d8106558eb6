-- ===== src/HomeLogStore/Device/Good.antt =====
-- A log store and its device that belong together, and one more record.
use home_store.Prelude.{
  ℕ, zero, suc, ◌+◌, ◌-◌, ◌≤◌, ◌<◌, ◌≡◌, inl, inr, refl, sym, ap, ◌∙◌, max, true, false, ltb, ◌==◌,
  Bool-cases, some, none, get_elem?, List, [], ◌∷◌, ◌++◌, length, length-append, drop, arith, subst,
  get_elem?-append_lt, get_elem?-append_past,
}
use home_store.StreamTracker.{StreamTracker, IsStreamTracker, Scans, AreScans}
use home_store.LogStore.{numbered}
use home_store.HomeLogStore.{
  LogdevKey, LogstoreRecord, HomeLogStore, new_log_store, append_async, write_async,
  on_write_completion, truncation_key,
}
use home_store.HomeLogStore.Device.{State, append}
use home_store.LogGroup.Slices.{drop-append_le}

pub numbered-append :
    (n : ℕ) (xs ys : List (List ℕ))
    → numbered n (xs ++ ys) ≡ numbered n xs ++ numbered (n + length xs) ys
numbered-append n [] ys = ap (λ k. numbered k ys) (omega arith)
numbered-append n (x ∷ xs) ys =
    ap (λ l. (n, x) ∷ l)
      (numbered-append (suc n) xs ys ∙ ap (λ k. numbered (suc n) xs ++ numbered k ys) (omega arith))

-- The first of what is left of a list, the rest, and that there is one.
pub drop_first :
    {A : Type 0} (n : ℕ) (xs : List A) (y : A) (ys : List A)
    → drop n xs ≡ y ∷ ys
    → (get_elem? xs n ≡ some y) × (drop (suc n) xs ≡ ys) × (suc n ≤ length xs)
drop_first zero [] y ys h = absurd (cc)
drop_first (suc n) [] y ys h = absurd (cc)
drop_first zero (x ∷ xs) y ys h = (ap (λ l. get_elem? l 0) h, ap (drop 1) h, omega arith)
drop_first (suc n) (x ∷ xs) y ys h =
    let (at, rest, lt) = drop_first n xs y ys h in (at, rest, omega arith)

pub some_same : {A : Type 0} {x y : A} → some x ≡ some y → x ≡ y
some_same h = cc

module _ {R : Type 0} (ops : StreamTracker LogstoreRecord R) (laws : IsStreamTracker ops)
    (scans : Scans LogstoreRecord R) (are : AreScans ops scans) where
  -- The key of the lsn leads to its data.
  pub record Holds (s : HomeLogStore R) (recs : List (ℕ × List ℕ)) (fl lsn : ℕ) (b : List ℕ)
      : Type 0 where
    pub rec : LogstoreRecord
    pub number : ℕ
    pub is_at : ops.at lsn s.records ≡ some rec
    pub positive : 0 < rec.dev_key.idx
    pub flushed : rec.dev_key.idx ≤ fl
    pub content : get_elem? recs (rec.dev_key.idx - 1) ≡ some (number, b)

  -- `ready` has the data of the lsns from the start to the tail, `pend` of those that are not flushed.
  pub record Good (s : HomeLogStore R) (recs : List (ℕ × List ℕ)) (fl : ℕ)
      (ready pend : List (List ℕ)) : Type 0 where
    pub going : s.stopping ≡ false
    pub positive : 0 < s.start_lsn
    pub window : ops.first s.records ≡ s.start_lsn
    pub ends : s.start_lsn + length ready ≡ suc s.tail_lsn
    pub next : s.next_lsn ≡ suc s.tail_lsn + length pend
    pub pending : drop fl recs ≡ numbered (suc s.tail_lsn) pend
    pub fits : fl ≤ length recs
    pub has :
        (i : ℕ) (b : List ℕ) → get_elem? ready i ≡ some b → Holds s recs fl (s.start_lsn + i) b
    pub active : (k : ℕ) → s.start_lsn ≤ k → k < s.next_lsn → scans.active k s.records ≡ true
    pub completed : (k : ℕ) → s.start_lsn ≤ k → k ≤ s.tail_lsn → scans.completed k s.records ≡ true
    pub uncompleted : (k : ℕ) → s.tail_lsn < k → scans.completed k s.records ≡ false
    pub inactive : (k : ℕ) → s.next_lsn ≤ k → scans.active k s.records ≡ false

  pub fresh-Good : (before : ℕ) → Good (new_log_store ops before) [] 0 [] []
  unfolding new_log_store
  fresh-Good before = record {
    going = refl;
    positive = omega arith;
    window = are.new_start before;
    ends = omega arith;
    next = omega arith;
    pending = refl;
    fits = omega arith;
    has = λ i b h. absurd (cc);
    active = λ k h c. absurd (omega arith);
    completed = λ k h c. absurd (omega arith);
    uncompleted = λ k h. are.new_completed before k;
    inactive = λ k h. are.new_active before k;
  }

  pub in_list : {A : Type 0} (xs : List A) (i : ℕ) {x : A} → get_elem? xs i ≡ some x → i < length xs
  in_list [] i h = absurd (cc)
  in_list (y ∷ xs) zero h = omega arith
  in_list (y ∷ xs) (suc i) h = omega (arith, in_list xs i h)

  pub append-Good :
      (offset : ℕ → ℕ) (b : List ℕ) (x : State R) (ready pend : List (List ℕ))
      → Good x.store x.device.log_records x.device.flushed ready pend
      → ((append ops offset b x).0 ≡ x.store.next_lsn)
        × ((append ops offset b x).1.store.start_lsn ≡ x.store.start_lsn)
        × Good
            (append ops offset b x).1.store
            (append ops offset b x).1.device.log_records
            (append ops offset b x).1.device.flushed
            ready
            (pend ++ b ∷ [])
  unfolding append append_async write_async
  append-Good offset b x ready pend v =
      let s = x.store in
      let recs = x.device.log_records in
      let fl = x.device.flushed in
      let going = v.going in
      let more = recs ++ (s.next_lsn, b) ∷ [] in
      let t : HomeLogStore R = record s {
        next_lsn = suc s.next_lsn;
        records = ops.create s.next_lsn s.records;
      } in
      let is : append ops offset b x ≡ (
        s.next_lsn,
        record { store = t; device = record { log_records = more; flushed = fl } },
      ) =
        ground arith in
      let above : s.tail_lsn < s.next_lsn = omega (arith, v.next) in
      let low : ops.first s.records ≤ s.next_lsn = omega (arith, v.window, v.ends) in
      let good : Good t more fl ready (pend ++ b ∷ []) = record {
        going = v.going;
        positive = v.positive;
        window = omega (arith, v.window, laws.create_first s.next_lsn s.records);
        ends = v.ends;
        next = omega (arith, v.next, length-append pend (b ∷ []));
        pending =
            drop-append_le fl recs ((s.next_lsn, b) ∷ []) v.fits
            ∙ ap (λ l. l ++ (s.next_lsn, b) ∷ []) v.pending
            ∙ ap (λ n. numbered (suc s.tail_lsn) pend ++ (n, b) ∷ []) v.next
            ∙ sym (numbered-append (suc s.tail_lsn) pend (b ∷ []));
        fits = omega (arith, v.fits, length-append recs ((s.next_lsn, b) ∷ []));
        has = λ i d e.
            let h = v.has i d e in
            record {
              rec = h.rec;
              number = h.number;
              is_at =
                  laws.create_other s.next_lsn (s.start_lsn + i) s.records
                    (omega (arith, in_list ready i e, v.ends, above))
                  ∙ h.is_at;
              positive = h.positive;
              flushed = h.flushed;
              content =
                  get_elem?-append_lt recs ((s.next_lsn, b) ∷ []) (h.rec.dev_key.idx - 1)
                    (omega (arith, h.positive, h.flushed, v.fits))
                  ∙ h.content;
            };
        active = λ k a c.
            are.create_active s.next_lsn k s.records low ∙ elim (Bool-cases (k == s.next_lsn)) [
              | inl this ↦ ground arith
              | inr other ↦ let old = v.active k a (ground arith) in ground arith
            ];
        completed = λ k a c. are.create_completed s.next_lsn k s.records ∙ v.completed k a c;
        uncompleted = λ k a. are.create_completed s.next_lsn k s.records ∙ v.uncompleted k a;
        inactive = λ k a.
            let old = v.inactive k (omega arith) in
            are.create_active s.next_lsn k s.records low ∙ ground arith;
      } in
      (
        ap (λ y. y.0) is,
        ap (λ y. y.1.store.start_lsn) is,
        subst (λ y. Good y.1.store y.1.device.log_records y.1.device.flushed ready (pend ++ b ∷ []))
            (sym is) good,
      )

  next_key :
      (s : HomeLogStore R) (flush_ld_key : LogdevKey)
      → truncation_key ops (suc s.tail_lsn) flush_ld_key s ≡ some flush_ld_key
  unfolding truncation_key
  next_key s flush_ld_key = ground arith

  -- The completion of the first record that is not flushed.
  pub complete-Good :
      (from_ off : ℕ) (s : HomeLogStore R) (recs : List (ℕ × List ℕ)) (fl : ℕ) (b : List ℕ)
      (ready pend : List (List ℕ))
      → Good s recs fl ready (b ∷ pend)
      → (t : HomeLogStore R) × (on_write_completion ops
            (suc s.tail_lsn)
            (record { idx = suc fl; dev_offset = off })
            (record { idx = from_; dev_offset = off })
            s
          ≡ some t)
        × (t.start_lsn ≡ s.start_lsn)
        × (t.tail_lsn ≡ suc s.tail_lsn)
        × Good t recs (suc fl) (ready ++ b ∷ []) pend
  unfolding on_write_completion
  complete-Good from_ off s recs fl b ready pend v =
      let ld : LogdevKey = record { idx = suc fl; dev_offset = off } in
      let flush_key : LogdevKey = record { idx = from_; dev_offset = off } in
      let lsn = suc s.tail_lsn in
      let put = λ (r : LogstoreRecord). record r { dev_key = ld; trunc_key = flush_key } in
      let t : HomeLogStore R = record s {
        tail_lsn = max s.tail_lsn lsn;
        next_lsn = max s.next_lsn (suc lsn);
        records = ops.update lsn put s.records;
      } in
      let low : ops.first s.records ≤ lsn = omega (arith, v.window, v.ends) in
      let used : scans.active lsn s.records ≡ true =
        v.active lsn (omega (arith, v.ends)) (omega (arith, v.next)) in
      let (old, at_is) = laws.update_at lsn put s.records low in
      let at_drop = drop_first fl recs (lsn, b) (numbered (suc lsn) pend) v.pending in
      (
        t,
        ap
            (λ k. elim k [
              | none ↦ none
              | some trunc_key ↦ some (record s {
                tail_lsn = max s.tail_lsn lsn;
                next_lsn = max s.next_lsn (suc lsn);
                records =
                    ops.update lsn (λ r. record r { dev_key = ld; trunc_key = trunc_key })
                      s.records;
              })
            ])
            (next_key s flush_key),
        refl,
        omega arith,
        record {
          going = v.going;
          positive = v.positive;
          window = omega (arith, v.window, laws.update_first lsn put s.records);
          ends = omega (arith, v.ends, length-append ready (b ∷ []));
          next = omega (arith, v.next);
          pending = at_drop.1 ∙ ap (λ k. numbered (suc k) pend) (omega arith);
          fits = at_drop.2;
          has = λ i d e. elim (Bool-cases (ltb i (length ready))) [
            | inl before ↦
                let h = v.has i d (sym (get_elem?-append_lt ready (b ∷ []) i (ground arith)) ∙ e) in
                record {
                  rec = h.rec;
                  number = h.number;
                  is_at =
                      laws.update_other lsn (s.start_lsn + i) put s.records (ground (arith, v.ends))
                      ∙ h.is_at;
                  positive = h.positive;
                  flushed = omega (arith, h.flushed);
                  content = h.content;
                }
            | inr here ↦
                let inside = in_list (ready ++ b ∷ []) i e in
                let len = length-append ready (b ∷ []) in
                let i_is : i ≡ length ready = ground arith in
                let d_is : b ≡ d =
                  some_same
                    (sym (get_elem?-append_past ready (b ∷ []) i 0 (omega (arith, i_is))) ∙ e) in
                let ends = v.ends in
                let lsn_is : s.start_lsn + i ≡ lsn = omega arith in
                record {
                  rec = put old;
                  number = lsn;
                  is_at = ap (λ k. ops.at k (ops.update lsn put s.records)) lsn_is ∙ at_is;
                  positive = omega arith;
                  flushed = omega arith;
                  content =
                      ap (get_elem? recs) (omega arith) ∙ at_drop.0 ∙ ap (λ z. some (lsn, z)) d_is;
                }
          ];
          active = λ k a c.
              are.update_active lsn k put s.records used ∙ v.active k a (omega (arith, v.next));
          completed = λ k a c.
              are.update_completed lsn k put s.records used ∙ elim (Bool-cases (k == lsn)) [
                | inl this ↦ ground arith
                | inr other ↦ let before = v.completed k a (ground arith) in ground arith
              ];
          uncompleted = λ k a.
              let before = v.uncompleted k (omega arith) in
              are.update_completed lsn k put s.records used ∙ ground arith;
          inactive = λ k a. are.update_active lsn k put s.records used ∙ v.inactive k (omega arith);
        },
      )
