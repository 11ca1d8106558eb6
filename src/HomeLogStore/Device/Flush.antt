-- ===== src/HomeLogStore/Device/Flush.antt =====
-- The flush of a log store with its device, group by group.
use home_store.Prelude.{
  ℕ, zero, suc, ◌+◌, ◌-◌, ◌≤◌, ◌<◌, ◌≡◌, refl, sym, ap, ◌∙◌, leb, Bool-cases, inl, inr, some, none,
  List, [], ◌∷◌, ◌++◌, length, take, drop, arith, subst, append_assoc, append-nil, length-drop,
}
use home_store.StreamTracker.{StreamTracker, IsStreamTracker, Scans, AreScans}
use home_store.LogStore.{numbered}
use home_store.LogGroup.{max_records_in_a_batch}
use home_store.HomeLogStore.{LogstoreRecord, HomeLogStore}
use home_store.HomeLogStore.Device.{State, complete_each, flush_groups, flush}
use home_store.HomeLogStore.Device.Good.{Good, complete-Good}

split_at {ℓ} : {A : Type ℓ} (n : ℕ) (xs : List A) → take n xs ++ drop n xs ≡ xs
split_at zero xs = refl
split_at (suc n) [] = refl
split_at (suc n) (x ∷ xs) = ap (λ l. x ∷ l) (split_at n xs)

take-numbered : (k n : ℕ) (xs : List (List ℕ)) → take k (numbered n xs) ≡ numbered n (take k xs)
take-numbered zero n xs = refl
take-numbered (suc k) n [] = refl
take-numbered (suc k) n (x ∷ xs) = ap (λ l. (n, x) ∷ l) (take-numbered k (suc n) xs)

length-numbered : (n : ℕ) (xs : List (List ℕ)) → length (numbered n xs) ≡ length xs
length-numbered n [] = refl
length-numbered n (x ∷ xs) = ap suc (length-numbered (suc n) xs)

length-drop-take {ℓ} :
    {A : Type ℓ} (n : ℕ) (xs : List A) → length (take n xs) + length (drop n xs) ≡ length xs
length-drop-take zero xs = omega arith
length-drop-take (suc n) [] = refl
length-drop-take (suc n) (x ∷ xs) = omega (arith, length-drop-take n xs)

length-take_some {ℓ} :
    {A : Type ℓ} (n : ℕ) (xs : List A) → 0 < n → 0 < length xs → 0 < length (take n xs)
length-take_some zero xs h k = absurd (omega arith)
length-take_some (suc n) [] h k = absurd (omega arith)
length-take_some (suc n) (x ∷ xs) h k = omega arith

module _ {R : Type 0} (ops : StreamTracker LogstoreRecord R) (laws : IsStreamTracker ops)
    (scans : Scans LogstoreRecord R) (are : AreScans ops scans) (offset : ℕ → ℕ) where
  complete_each-Good :
      (from_ : ℕ) (s : HomeLogStore R) (recs : List (ℕ × List ℕ)) (fl : ℕ)
      (front back ready : List (List ℕ))
      → Good ops laws scans are s recs fl ready (front ++ back)
      → (t : HomeLogStore R) × (complete_each ops offset from_
            (suc fl)
            (numbered (suc s.tail_lsn) front)
            s
          ≡ some t)
        × (t.start_lsn ≡ s.start_lsn)
        × Good ops laws scans are t recs (fl + length front) (ready ++ front) back
  unfolding complete_each
  complete_each-Good from_ s recs fl [] back ready v = (
    s,
    refl,
    refl,
    subst (λ n. Good ops laws scans are s recs n (ready ++ []) back) (omega arith)
        (subst (λ l. Good ops laws scans are s recs fl l back) (sym (append-nil ready)) v),
  )
  complete_each-Good from_ s recs fl (b ∷ front) back ready v =
      let (t, is, start, tail, w) =
        complete-Good ops laws scans are from_ (offset from_) s recs fl b ready (front ++ back) v in
      let (u, rest, start', w') =
        complete_each-Good from_ t recs (suc fl) front back (ready ++ b ∷ []) w in
      (
        u,
        ap
              (λ o. elim o [
                | none ↦ none
                | some z ↦
                    complete_each ops offset from_ (suc (suc fl))
                      (numbered (suc (suc s.tail_lsn)) front) z
              ])
              is
            ∙ ap (λ n. complete_each ops offset from_ (suc (suc fl)) (numbered (suc n) front) t)
                (sym tail)
            ∙ rest,
        start' ∙ start,
        subst (λ n. Good ops laws scans are u recs n (ready ++ b ∷ front) back) (omega arith)
            (subst (λ l. Good ops laws scans are u recs (suc fl + length front) l back)
              (append_assoc ready (b ∷ []) front) w'),
      )

  -- What a flush makes of a store and its device.
  pub record Flushed (x : State R) (ready pend : List (List ℕ)) (y : State R) : Type 0 where
    pub start_same : y.store.start_lsn ≡ x.store.start_lsn
    pub records_same : y.device.log_records ≡ x.device.log_records
    pub good :
        Good ops laws scans are y.store y.device.log_records y.device.flushed (ready ++ pend) []

  nothing_left : (n : ℕ) (xs : List (ℕ × List ℕ)) → length xs ≤ n → drop n xs ≡ []
  nothing_left n [] h = drop_nil n
    where
      drop_nil : (k : ℕ) → drop {A = ℕ × List ℕ} k [] ≡ []
      drop_nil zero = refl
      drop_nil (suc k) = refl
  nothing_left zero (x ∷ xs) h = absurd (omega arith)
  nothing_left (suc n) (x ∷ xs) h = nothing_left n xs (omega arith)

  no_more : (n : ℕ) (xs : List (List ℕ)) → numbered n xs ≡ [] → xs ≡ []
  no_more n [] h = refl
  no_more n (x ∷ xs) h = absurd (cc)

  flush_groups-Flushed :
      (fuel : ℕ) (x : State R) (ready pend : List (List ℕ))
      → length pend ≤ fuel
      → Good ops laws scans are x.store x.device.log_records x.device.flushed ready pend
      → (y : State R) × (flush_groups ops offset fuel x ≡ some y) × Flushed x ready pend y
  unfolding flush_groups
  flush_groups-Flushed zero x ready [] le v = (
    x,
    refl,
    record {
      start_same = refl;
      records_same = refl;
      good =
          subst (λ l. Good ops laws scans are x.store x.device.log_records x.device.flushed l [])
            (sym (append-nil ready)) v;
    },
  )
  flush_groups-Flushed zero x ready (b ∷ pend) le v = absurd (omega arith)
  flush_groups-Flushed (suc fuel) x ready pend le v =
      elim (Bool-cases (leb (length x.device.log_records) x.device.flushed)) [
        | inl all ↦
            let none_left : pend ≡ [] =
              no_more (suc x.store.tail_lsn) pend (
                sym v.pending
                ∙ nothing_left x.device.flushed x.device.log_records (ground arith)) in
            (
              x,
              ground arith,
              record {
                start_same = refl;
                records_same = refl;
                good =
                    subst
                      (λ l.
                        Good ops laws scans are x.store x.device.log_records x.device.flushed l [])
                      (sym (ap (λ l. ready ++ l) none_left ∙ append-nil ready))
                      (subst
                        (λ l.
                          Good ops laws scans are x.store x.device.log_records x.device.flushed
                            ready l)
                        none_left v);
              },
            )
        | inr some_left ↦
            let n = max_records_in_a_batch in
            let fl = x.device.flushed in
            let recs = x.device.log_records in
            let batch = take n (drop fl recs) in
            let front = take n pend in
            let back = drop n pend in
            let batch_is : batch ≡ numbered (suc x.store.tail_lsn) front =
              ap (take n) v.pending ∙ take-numbered n (suc x.store.tail_lsn) pend in
            let long : length batch ≡ length front =
              ap length batch_is ∙ length-numbered (suc x.store.tail_lsn) front in
            let (t, is, start, w) = complete_each-Good (suc fl) x.store recs fl front back ready (
              subst (λ l. Good ops laws scans are x.store recs fl ready l) (sym (split_at n pend))
                v) in
            let done_is : complete_each ops offset (suc fl) (suc fl) batch x.store ≡ some t =
              ap (λ l. complete_each ops offset (suc fl) (suc fl) l x.store) batch_is ∙ is in
            let z : State R = record {
              store = t;
              device = record x.device { flushed = fl + length batch };
            } in
            let pend_is : length (drop fl recs) ≡ length pend =
              ap length v.pending ∙ length-numbered (suc x.store.tail_lsn) pend in
            let some_pend : 0 < length pend = ground (arith, pend_is, length-drop fl recs) in
            let sum = length-drop-take n pend in
            let one = length-take_some n pend (omega arith) some_pend in
            let (y, rest, f) = flush_groups-Flushed fuel z (ready ++ front) back (omega arith) (
              subst (λ k. Good ops laws scans are t recs (fl + k) (ready ++ front) back) (sym long)
                w) in
            (
              y,
              ground arith,
              record {
                start_same = f.start_same ∙ start;
                records_same = f.records_same;
                good =
                    subst
                      (λ l.
                        Good ops laws scans are y.store y.device.log_records y.device.flushed l [])
                      (append_assoc ready front back ∙ ap (λ l. ready ++ l) (split_at n pend))
                      f.good;
              },
            )
      ]

  pub flush-Flushed :
      (x : State R) (ready pend : List (List ℕ))
      → Good ops laws scans are x.store x.device.log_records x.device.flushed ready pend
      → (y : State R) × (flush ops offset x ≡ some y) × Flushed x ready pend y
  unfolding flush
  flush-Flushed x ready pend v =
      let pend_is : length (drop x.device.flushed x.device.log_records) ≡ length pend =
        ap length v.pending ∙ length-numbered (suc x.store.tail_lsn) pend in
      flush_groups-Flushed (length x.device.log_records - x.device.flushed) x ready pend
        (omega (arith, pend_is, length-drop x.device.flushed x.device.log_records)) v
