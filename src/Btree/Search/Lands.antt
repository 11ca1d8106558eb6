-- ===== src/Btree/Search/Lands.antt =====
-- The binary search over any sequence of comparisons that rises from `lt` over at most one `eq` to
-- `gt`.
use home_store.Prelude.{
  ℕ, zero, suc, ◌+◌, ◌-◌, ◌/◌, ◌≤◌, ◌<◌, ◌≡◌, ◌≢◌, ◌∙◌, inl, inr, Bool, true, false, Ordering,
  Ordering-cases, some, ltb, arith,
}
use native.Mathlib.Decide.{dec_lt}
use home_store.Btree.Search.{bsearch_loop, bsearch}

module _ (x : ℕ → Ordering) (n : ℕ) where
  -- What lies above an index that is not below the key is above the key.
  abbrev pub Rises : Type 0
  Rises = (i j : ℕ) → i < j → j < n → x i ≢ Ordering.lt → x j ≡ Ordering.gt

  -- Where a search over `n` keys ends: at the key, or else at the first key above it.
  pub record Lands (found : Bool) (idx : ℕ) : Type 0 where
    pub within : idx ≤ n
    pub hit : found ≡ true → (idx < n) × (x idx ≡ Ordering.eq)
    pub before : (i : ℕ) → i < idx → x i ≡ Ordering.lt
    pub after : (i : ℕ) → idx ≤ i → i < n → found ≡ false → x i ≡ Ordering.gt

  lt_before : Rises → (i j : ℕ) → i < j → j < n → x j ≢ Ordering.gt → x i ≡ Ordering.lt
  lt_before rises i j h k e = elim (Ordering-cases (x i)) [
    | inl below ↦ below
    | inr (inl at) ↦ absurd (e (rises i j h k (λ p. cc)))
    | inr (inr above) ↦ absurd (e (rises i j h k (λ p. cc)))
  ]

  lt_upto : Rises → (j : ℕ) → j < n → x j ≡ Ordering.lt → (i : ℕ) → i < j + 1 → x i ≡ Ordering.lt
  lt_upto rises j k e i h = elim (dec_lt i j) [
    | yes p ↦ lt_before rises i j p k (λ q. cc)
    | no p ↦ let same : i ≡ j = omega arith in rw same e
  ]

  gt_from : Rises → (j : ℕ) → x j ≡ Ordering.gt → (i : ℕ) → j ≤ i → i < n → x i ≡ Ordering.gt
  gt_from rises j e i h k = elim (dec_lt j i) [
    | yes p ↦ rises j i p k (λ q. cc)
    | no p ↦ let same : i ≡ j = omega arith in rw same e
  ]

  abbrev middle : ℕ → ℕ → ℕ
  middle lo end = lo + (end + 1 - lo) / 2 - 1

  step_lt :
      (fuel lo end : ℕ)
      → lo < end
      → x (middle lo end) ≡ Ordering.lt
      → bsearch_loop (suc fuel) x lo end ≡ bsearch_loop fuel x (middle lo end + 1) end
  unfolding bsearch_loop
  step_lt fuel lo end h e = ground arith

  step_gt :
      (fuel lo end : ℕ)
      → lo < end
      → x (middle lo end) ≡ Ordering.gt
      → bsearch_loop (suc fuel) x lo end ≡ bsearch_loop fuel x lo (middle lo end)
  unfolding bsearch_loop
  step_gt fuel lo end h e = ground arith

  bsearch_loop-Lands :
      Rises
      → (fuel lo end : ℕ) → end < fuel + lo
      → lo ≤ end
      → end ≤ n
      → ((i : ℕ) → i < lo → x i ≡ Ordering.lt)
      → ((i : ℕ) → end ≤ i → i < n → x i ≡ Ordering.gt)
      → (found : Bool) × (idx : ℕ) × (bsearch_loop fuel x lo end ≡ some (found, idx))
        × Lands found idx
  unfolding bsearch_loop
  bsearch_loop-Lands rises zero lo end f h k below above = absurd (omega arith)
  bsearch_loop-Lands rises (suc fuel) lo end f h k below above = elim (dec_lt lo end) [
    | no done ↦
        let closed : ltb lo end ≡ false = ground arith in
        let same : lo ≡ end = omega arith in
        (
          false,
          end,
          ground arith,
          record {
            within = k;
            hit = λ p. cc;
            before = λ i p. below i (omega arith);
            after = λ i p q r. above i p q;
          },
        )
    | yes open_range ↦
        let mid : ℕ = middle lo end in
        elim (Ordering-cases (x mid)) [
          | inl lower ↦
              let (found, idx, e, r) =
                bsearch_loop-Lands rises fuel (mid + 1) end (omega arith) (omega arith) k
                  (lt_upto rises mid (omega arith) lower) above in
              (found, idx, step_lt fuel lo end open_range lower ∙ e, r)
          | inr (inl equal) ↦ (
            true,
            mid,
            ground arith,
            record {
              within = omega arith;
              hit = λ p. (omega arith, equal);
              before = λ i p. lt_before rises i mid p (omega arith) (λ q. cc);
              after = λ i p q r. cc;
            },
          )
          | inr (inr higher) ↦
              let (found, idx, e, r) =
                bsearch_loop-Lands rises fuel lo mid (omega arith) (omega arith) (omega arith) below
                  (gt_from rises mid higher) in
              (found, idx, step_gt fuel lo end open_range higher ∙ e, r)
        ]
  ]

  -- The binary search ends within its fuel, at the key or at the first key above it.
  pub bsearch-Lands :
      Rises → (found : Bool) × (idx : ℕ) × (bsearch n x ≡ some (found, idx)) × Lands found idx
  unfolding bsearch
  bsearch-Lands rises = elim (dec_lt 0 n) [
    | yes p ↦
        let opened : ltb 0 n ≡ true = ground arith in
        let (found, idx, e, r) =
          bsearch_loop-Lands rises (n + 1) 0 n (omega arith) (omega arith) (omega arith)
            (λ i q. absurd (omega arith)) (λ i q r. absurd (omega arith)) in
        (found, idx, rw opened e, r)
    | no p ↦
        let closed : ltb 0 n ≡ false = ground arith in
        (
          false,
          0,
          rw closed,
          record {
            within = omega arith;
            hit = λ q. cc;
            before = λ i q. absurd (omega arith);
            after = λ i q r s. absurd (omega arith);
          },
        )
  ]
