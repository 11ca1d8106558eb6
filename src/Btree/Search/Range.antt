-- ===== src/Btree/Search/Range.antt =====
-- Which entries of a leaf `match_range` selects.
use home_store.Prelude.{
  ℕ, ◌+◌, ◌-◌, ◌≤◌, ◌<◌, ◌≡◌, ◌↔◌, ap, ◌∙◌, ◌⊎◌, Bool, true, false, not, ◌&&◌, ◌||◌, Bool-cases,
  inl, inr, some, length, Ordering, arith, ◌==◌, if◌then◌else◌, ltb, dec_lt,
}
use home_store.Prelude.Order.{IsOrder}
use home_store.Btree.Node.{Node, Traits}
use home_store.Btree.Search.{KeyRange, compare_nth_key, bsearch_node, match_range}
use home_store.Btree.Search.Lands.{Rises, Lands}
use home_store.Btree.Search.Sorted.{IsSorted, compare-Rises, bsearch_node-Lands}

-- A key that stands so to an end of a range lies in it on that side.
abbrev pub above_start : Bool → Ordering → Bool
above_start incl Ordering.lt = false
above_start incl Ordering.eq = incl
above_start incl Ordering.gt = true

abbrev pub below_end : Bool → Ordering → Bool
below_end incl Ordering.lt = true
below_end incl Ordering.eq = incl
below_end incl Ordering.gt = false

module _ {x : ℕ → Ordering} {n idx : ℕ} {found : Bool} (rises : Rises x n)
    (l : Lands x n found idx) where
  -- The first index that is in a range from this key on, and the first that is behind one up to it.
  abbrev pub lower_cut : Bool → ℕ
  lower_cut incl = if found && not incl then idx + 1 else idx

  abbrev pub upper_cut : Bool → ℕ
  upper_cut incl = if found && incl then idx + 1 else idx

  past : (i : ℕ) → idx < i → i < n → x i ≡ Ordering.gt
  past i h k = elim (Bool-cases found) [
    | inl f ↦ rises idx i h k (λ e. cc (l.hit f).1)
    | inr f ↦ l.after i (omega arith) k f
  ]

  -- Where an index stands to the one that the search ended at, and so its key to the one looked for.
  three_ways :
      (i : ℕ)
      → i < n
      → ((i < idx) × (x i ≡ Ordering.lt))
        ⊎ (((idx < i) × (x i ≡ Ordering.gt))
            ⊎ (((i ≡ idx) × (found ≡ true) × (x i ≡ Ordering.eq))
                ⊎ ((i ≡ idx) × (found ≡ false) × (x i ≡ Ordering.gt))))
  three_ways i h = elim (dec_lt i idx) [
    | yes p ↦ inl (p, l.before i p)
    | no p ↦ elim (dec_lt idx i) [
      | yes q ↦ inr (inl (q, past i q h))
      | no q ↦
          let same : i ≡ idx = omega arith in
          elim (Bool-cases found) [
            | inl f ↦ inr (inr (inl (same, f, ap x same ∙ (l.hit f).1)))
            | inr f ↦ inr (inr (inr (same, f, l.after i (omega arith) h f)))
          ]
    ]
  ]

  pub lower_cut-splits :
      (incl : Bool) (i : ℕ) → i < n → (above_start incl (x i) ≡ true) ↔ (lower_cut incl ≤ i)
  lower_cut-splits incl i h = (ground (arith, three_ways i h), ground (arith, three_ways i h))

  pub upper_cut-splits :
      (incl : Bool) (i : ℕ) → i < n → (below_end incl (x i) ≡ true) ↔ (i < upper_cut incl)
  upper_cut-splits incl i h = (ground (arith, three_ways i h), ground (arith, three_ways i h))

  pub cut-le : (b : Bool) → (if found && b then idx + 1 else idx) ≤ n
  cut-le b = elim (Bool-cases found) [
    | inl f ↦ ground (arith, l.within, (l.hit f).0)
    | inr f ↦ ground (arith, l.within)
  ]

pub &&_iff : (a b : Bool) → ((a && b) ≡ true) ↔ ((a ≡ true) × (b ≡ true))
&&_iff a b = (ground arith, ground arith)

module _ {K V : Type 0} (t : Traits K V) (n : Node K V) (range : KeyRange K) where
  -- The key at an index lies in the range.
  abbrev pub in_range : ℕ → Bool
  in_range i =
      above_start range.start_incl (compare_nth_key t n range.start_key i)
      && below_end range.end_incl (compare_nth_key t n range.end_key i)

  module _ (sfound efound : Bool) (sidx eidx : ℕ) where
    abbrev lower : ℕ
    lower = if sfound && not range.start_incl then sidx + 1 else sidx

    abbrev upper : ℕ
    upper = if efound && range.end_incl then eidx + 1 else eidx

    abbrev missed_end : ℕ
    missed_end =
        if lower == n.nentries
        then lower
        else if not efound || not range.end_incl
        then (if eidx == 0 then eidx else eidx - 1)
        else eidx

    match_range-value :
        n.leaf ≡ true
        → bsearch_node t n range.start_key ≡ some (sfound, sidx)
        → bsearch_node t n range.end_key ≡ some (efound, eidx)
        → lower ≤ n.nentries
        → upper ≤ n.nentries
        → match_range t n range ≡ (
            if ltb lower upper
            then some (true, lower, upper - 1)
            else some (false, lower, missed_end))
    unfolding match_range
    match_range-value leaf p q h k = ground arith

  -- `match_range` on a leaf whose keys rise ends. If it returns true, the indices that it gives are
  -- those of the first and the last entry in the range, and all between them and no other are; if it
  -- returns false, no entry is in the range.
  pub match_range-leaf :
      IsOrder t.cmp
      → n.nentries ≤ length n.slots
      → n.leaf ≡ true
      → IsSorted t n
      → (ok : Bool) × (start_idx : ℕ) × (end_idx : ℕ) × (match_range t n range
          ≡ some (ok, start_idx, end_idx))
        × (ok ≡ true
            → (start_idx ≤ end_idx)
              × (end_idx < n.nentries)
              × ((i : ℕ)
                  → i < n.nentries
                  → (in_range i ≡ true) ↔ ((start_idx ≤ i) × (i ≤ end_idx))))
        × (ok ≡ false → (i : ℕ) → i < n.nentries → in_range i ≡ false)
  match_range-leaf o filled leaf s =
      let (sf, si, p, ls) = bsearch_node-Lands t o n filled range.start_key s in
      let (ef, ei, q, le) = bsearch_node-Lands t o n filled range.end_key s in
      let rs = compare-Rises t o n filled range.start_key s in
      let re = compare-Rises t o n filled range.end_key s in
      let low : ℕ = lower sf ef si ei in
      let up : ℕ = upper sf ef si ei in
      let low_le : low ≤ n.nentries = cut-le rs ls (not range.start_incl) in
      let up_le : up ≤ n.nentries = cut-le re le range.end_incl in
      let value = match_range-value sf ef si ei leaf p q low_le up_le in
      let member : (i : ℕ) → i < n.nentries → (in_range i ≡ true) ↔ ((low ≤ i) × (i < up)) = λ i h.
        (
          λ e.
              let (a, b) = (&&_iff _ _).0 e in
              (
                (lower_cut-splits rs ls range.start_incl i h).0 a,
                (upper_cut-splits re le range.end_incl i h).0 b,
              ),
          λ w. (&&_iff _ _).1 (
            (lower_cut-splits rs ls range.start_incl i h).1 w.0,
            (upper_cut-splits re le range.end_incl i h).1 w.1,
          ),
        ) in
      elim (dec_lt low up) [
        | yes h ↦ (
          true,
          low,
          up - 1,
          value ∙ ground arith,
          λ _. (
            omega arith,
            omega arith,
            λ i k. (
              λ e. let w = (member i k).0 e in (w.0, omega arith),
              λ w. (member i k).1 (w.0, omega arith),
            ),
          ),
          λ e. cc,
        )
        | no h ↦ (
          false,
          low,
          missed_end sf ef si ei,
          value ∙ ground arith,
          λ e. cc,
          λ e i k. elim (Bool-cases (in_range i)) [
            | inl f ↦ absurd (let w = (member i k).0 f in omega arith)
            | inr f ↦ f
          ],
        )
      ]
