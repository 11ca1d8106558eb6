-- ===== src/Btree/Search/Any.antt =====
-- What `get_any` returns on a leaf, and where that is not an entry of the range.
use home_store.Prelude.{
  ℕ, ◌+◌, ◌≤◌, ◌<◌, ◌≡◌, ◌⊎◌, refl, sym, ◌∙◌, Bool, true, false, not, ◌&&◌, inl, inr, none, some,
  length, Ordering, arith, if◌then◌else◌,
}
use home_store.Prelude.Order.{IsOrder}
use home_store.Btree.Node.{Node, Traits}
use home_store.Btree.Search.{KeyRange, MultiMatch, compare_nth_key, bsearch_node, get_any}
use home_store.Btree.Search.Sorted.{
  IsSorted, compare-Rises, bsearch_node-Lands, compare-key_at, key_at-some, Lands-of_bsearch,
}
use home_store.Btree.Search.Range.{
  below_end, lower_cut-splits, upper_cut-splits, cut-le, in_range, &&_iff,
}

module _ {K V : Type 0} (t : Traits K V) (n : Node K V) (range : KeyRange K) where
  -- An index is the first in the range.
  pub record First (i : ℕ) : Type 0 where
    pub entry : i < n.nentries
    pub inside : in_range t n range i ≡ true
    pub least : (j : ℕ) → j < i → in_range t n range j ≡ false

  module _ (sfound efound : Bool) (sidx eidx : ℕ) where
    abbrev low : ℕ
    low = if sfound && not range.start_incl then sidx + 1 else sidx

    abbrev up : ℕ
    up = if efound && range.end_incl then eidx + 1 else eidx

    get_any-first_value :
        (i : ℕ)
        → (range.multi_option ≡ MultiMatch.do_not_care)
          ⊎ (range.multi_option ≡ MultiMatch.left_most)
        → bsearch_node t n range.start_key ≡ some (sfound, sidx)
        → bsearch_node t n range.end_key ≡ some (efound, eidx)
        → get_any t n range ≡ some (some i)
        → (i ≡ low) × (((sfound ≡ true) × (low ≡ sidx)) ⊎ (low < up))
    unfolding get_any
    get_any-first_value i sel p q e = ground arith

    get_any-right_value :
        range.multi_option ≡ MultiMatch.right_most
        → bsearch_node t n range.start_key ≡ some (sfound, sidx)
        → bsearch_node t n range.end_key ≡ some (efound, eidx)
        → efound ≡ false
        → low < eidx
        → eidx ≤ n.nentries
        → get_any t n range ≡ some (some eidx)
    unfolding get_any
    get_any-right_value sel p q f h k = ground arith

    get_any-missed_value :
        bsearch_node t n range.start_key ≡ some (sfound, sidx)
        → bsearch_node t n range.end_key ≡ some (efound, eidx)
        → efound ≡ true
        → range.end_incl ≡ false
        → sfound && range.start_incl ≡ false
        → low + 1 ≡ eidx
        → get_any t n range ≡ some none
    unfolding get_any
    get_any-missed_value p q f g c h = ground arith

  module _ (o : IsOrder t.cmp) (filled : n.nentries ≤ length n.slots) (s : IsSorted t n) where
    start_below_end :
        (i : ℕ)
        → i < n.nentries
        → compare_nth_key t n range.start_key i ≡ Ordering.eq
        → below_end range.end_incl (t.cmp range.start_key range.end_key) ≡ true
        → below_end range.end_incl (compare_nth_key t n range.end_key i) ≡ true
    start_below_end i h e open_range =
        let (k, p) = key_at-some t o n filled i h in
        let at_start : t.cmp k range.start_key ≡ Ordering.eq =
          sym (compare-key_at t o n range.start_key k i p) ∙ e in
        let at_end : compare_nth_key t n range.end_key i ≡ t.cmp range.start_key range.end_key =
          compare-key_at t o n range.end_key k i p
          ∙ o.same k range.start_key range.end_key at_start in
        rw at_end open_range

    before_low :
        (sfound efound : Bool) (sidx eidx j : ℕ)
        → bsearch_node t n range.start_key ≡ some (sfound, sidx)
        → j < low sfound efound sidx eidx
        → j < n.nentries
        → in_range t n range j ≡ false
    before_low sfound efound sidx eidx j p h k =
        let ls = Lands-of_bsearch t o n filled range.start_key s p in
        let rs = compare-Rises t o n filled range.start_key s in
        ground (arith, lower_cut-splits rs ls range.start_incl j k)

    -- A range that selects any or the leftmost entry gets the first entry of the range, if it gets
    -- one; the range is not empty on both sides, which means that its start lies in it as seen from
    -- its end.
    pub get_any-First :
        (range.multi_option ≡ MultiMatch.do_not_care) ⊎ (range.multi_option ≡ MultiMatch.left_most)
        → below_end range.end_incl (t.cmp range.start_key range.end_key) ≡ true
        → (i : ℕ) → get_any t n range ≡ some (some i)
        → First i
    get_any-First sel open_range i e =
        let (sf, si, p, ls) = bsearch_node-Lands t o n filled range.start_key s in
        let (ef, ei, q, le) = bsearch_node-Lands t o n filled range.end_key s in
        let rs = compare-Rises t o n filled range.start_key s in
        let re = compare-Rises t o n filled range.end_key s in
        let (at_low, why) = get_any-first_value sf ef si ei i sel p q e in
        let up_le : up sf ef si ei ≤ n.nentries = cut-le re le range.end_incl in
        let first : (low sf ef si ei < n.nentries)
            → (below_end range.end_incl (compare_nth_key t n range.end_key (low sf ef si ei))
                ≡ true)
            → First (low sf ef si ei) =
          λ entry below. record {
            entry = entry;
            inside = (&&_iff _ _).1 (
              (lower_cut-splits rs ls range.start_incl (low sf ef si ei) entry).1 (omega arith),
              below,
            );
            least = λ j h. before_low sf ef si ei j p h (omega arith);
          } in
        rw at_low (elim why [
          | inl (f, at_start) ↦
              first (rw at_start (ls.hit f).0)
                (rw at_start (start_below_end si (ls.hit f).0 (ls.hit f).1 open_range))
          | inr below ↦
              first (omega arith)
                ((upper_cut-splits re le range.end_incl (low sf ef si ei) (omega arith)).1 below)
        ])

    -- Selecting the rightmost entry of a range whose end key no entry has returns the index behind
    -- the range (the first higher key, or the number of entries), if the range holds an entry.
    pub get_any_right_most-overshoots :
        (sidx eidx : ℕ) (sfound : Bool)
        → range.multi_option ≡ MultiMatch.right_most
        → bsearch_node t n range.start_key ≡ some (sfound, sidx)
        → bsearch_node t n range.end_key ≡ some (false, eidx)
        → (if sfound && not range.start_incl then sidx + 1 else sidx) < eidx
        → (get_any t n range ≡ some (some eidx))
          × (eidx < n.nentries → in_range t n range eidx ≡ false)
    get_any_right_most-overshoots sidx eidx sfound sel p q h =
        let le = Lands-of_bsearch t o n filled range.end_key s q in
        let re = compare-Rises t o n filled range.end_key s in
        (
          get_any-right_value sfound false sidx eidx sel p q refl h le.within,
          λ k. ground (arith, upper_cut-splits re le range.end_incl eidx k),
        )

    -- A range without its end key, an entry, in which one entry lies that is not an included start key
    -- gets nothing, although that entry is in the range.
    pub get_any_open_end-misses :
        (sidx eidx : ℕ) (sfound : Bool)
        → bsearch_node t n range.start_key ≡ some (sfound, sidx)
        → bsearch_node t n range.end_key ≡ some (true, eidx)
        → range.end_incl ≡ false
        → sfound && range.start_incl ≡ false
        → (if sfound && not range.start_incl then sidx + 1 else sidx) + 1 ≡ eidx
        → (get_any t n range ≡ some none)
          × (in_range t n range (if sfound && not range.start_incl then sidx + 1 else sidx) ≡ true)
    get_any_open_end-misses sidx eidx sfound p q open_end c h =
        let ls = Lands-of_bsearch t o n filled range.start_key s p in
        let rs = compare-Rises t o n filled range.start_key s in
        let le = Lands-of_bsearch t o n filled range.end_key s q in
        let re = compare-Rises t o n filled range.end_key s in
        let entry : low sfound true sidx eidx < n.nentries = omega (arith, (le.hit refl).0) in
        let at_most : up sfound true sidx eidx ≡ eidx = ground arith in
        (
          get_any-missed_value sfound true sidx eidx p q refl open_end c h,
          (&&_iff _ _).1 (
            (lower_cut-splits rs ls range.start_incl (low sfound true sidx eidx) entry).1
                (omega arith),
            (upper_cut-splits re le range.end_incl (low sfound true sidx eidx) entry).1
                (omega (arith, at_most)),
          ),
        )
