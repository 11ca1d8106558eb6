-- ===== src/HomeLogStore/Kept.antt =====
-- What is not truncated lies behind the keys up to which the device is truncated.
use home_store.Prelude.{ℕ, suc, ◌^◌, ◌≤◌, ◌<◌, ◌≡◌, sym, ◌∙◌, max, some, arith}
use home_store.StreamTracker.{StreamTracker, IsStreamTracker}
use home_store.HomeLogStore.{LogstoreRecord, HomeLogStore, new_log_store}

pub some_is : {A : Type 0} {x y : A} → some x ≡ some y → x ≡ y
some_is h = cc

module _ {R : Type 0} (ops : StreamTracker LogstoreRecord R) (laws : IsStreamTracker ops) where
  -- The record of an lsn in the log.
  pub record HasRecord (s : HomeLogStore R) (last lsn : ℕ) (r : LogstoreRecord) : Type 0 where
    pub is_at : ops.at lsn s.records ≡ some r
    pub kept : s.trunc_ld_key.idx ≤ r.dev_key.idx
    pub own_group : r.trunc_key.idx ≤ r.dev_key.idx
    pub seen : r.dev_key.idx ≤ last

  pub record IsKept (s : HomeLogStore R) (last : ℕ) : Type 0 where
    pub window : ops.first s.records ≤ s.start_lsn
    pub positive : 0 < s.start_lsn
    pub above_start : s.start_lsn ≤ suc s.tail_lsn
    pub below_next : s.tail_lsn < s.next_lsn
    pub present :
        (lsn : ℕ)
        → s.start_lsn ≤ lsn
        → lsn ≤ s.tail_lsn
        → (r : LogstoreRecord) × HasRecord s last lsn r
    pub ordered :
        (m n : ℕ) (q r : LogstoreRecord)
        → s.start_lsn ≤ m
        → m ≤ n
        → n ≤ s.tail_lsn
        → ops.at m s.records ≡ some q
        → ops.at n s.records ≡ some r
        → q.dev_key.idx ≤ r.dev_key.idx
    pub trunc_seen : s.trunc_ld_key.idx ≤ max last 1
    pub is_number : last < 2 ^ 63

  pub fresh-IsKept : (before : ℕ) → IsKept (new_log_store ops before) 0
  unfolding new_log_store
  fresh-IsKept before = record {
    window = laws.new_first before;
    positive = omega arith;
    above_start = omega arith;
    below_next = omega arith;
    present = λ lsn h k. absurd (omega arith);
    ordered = λ m n q r a b c e f. absurd (omega arith);
    trunc_seen = omega arith;
    is_number = omega arith;
  }

  -- The store with a part of its records, from the same lsns on or a later one.
  pub record IsPart (s t : HomeLogStore R) : Type 0 where
    pub window : ops.first t.records ≤ t.start_lsn
    pub later : s.start_lsn ≤ t.start_lsn
    pub above_start : t.start_lsn ≤ suc t.tail_lsn
    pub below_next : t.tail_lsn < t.next_lsn
    pub inside :
        (m : ℕ)
        → t.start_lsn ≤ m
        → m ≤ t.tail_lsn
        → (m ≤ s.tail_lsn) × (ops.at m t.records ≡ ops.at m s.records)
    pub key_le :
        (m : ℕ) (r : LogstoreRecord)
        → t.start_lsn ≤ m
        → m ≤ t.tail_lsn
        → ops.at m s.records ≡ some r
        → t.trunc_ld_key.idx ≤ r.dev_key.idx
    pub key_seen : (last : ℕ) → IsKept s last → t.trunc_ld_key.idx ≤ max last 1

  pub part-IsKept : {s t : HomeLogStore R} {last : ℕ} → IsKept s last → IsPart s t → IsKept t last
  part-IsKept {s} {t} {last} v p = record {
    window = p.window;
    positive = omega (arith, v.positive, p.later);
    above_start = p.above_start;
    below_next = p.below_next;
    present = λ lsn h k.
        let (le, same) = p.inside lsn h k in
        let (r, hr) = v.present lsn (omega (arith, p.later)) le in
        (
          r,
          record {
            is_at = same ∙ hr.is_at;
            kept = p.key_le lsn r h k hr.is_at;
            own_group = hr.own_group;
            seen = hr.seen;
          },
        );
    ordered = λ m n q r a b c e f.
        let (le, same) = p.inside m a (omega arith) in
        let (le', same') = p.inside n (omega arith) c in
        v.ordered m n q r (omega (arith, p.later)) b le' (sym same ∙ e) (sym same' ∙ f);
    trunc_seen = p.key_seen last v;
    is_number = v.is_number;
  }
