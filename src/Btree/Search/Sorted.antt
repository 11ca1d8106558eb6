-- ===== src/Btree/Search/Sorted.antt =====
-- Searching a node whose keys rise.
use mathlib.Core.Option
use home_store.Prelude.{
  ℕ, zero, suc, ◌≤◌, ◌<◌, ◌≡◌, refl, ◌∙◌, Bool, none, some, List, [], ◌∷◌, length, get_elem?,
  Ordering, arith, ◌==◌, if◌then◌else◌,
}
use home_store.Prelude.Order.{IsOrder, gt_of_above}
use home_store.Btree.Node.{Node, Traits, has_valid_edge}
use home_store.Btree.Search.{key_at, compare_nth_key, bsearch_node, find}
use home_store.Btree.Search.Lands.{Rises, Lands, bsearch-Lands}

pub get_elem?-some {ℓ} :
    {A : Type ℓ} (xs : List A) (i : ℕ) → i < length xs → (a : A) × (get_elem? xs i ≡ some a)
get_elem?-some [] i h = absurd (omega arith)
get_elem?-some (x ∷ xs) zero h = (x, refl)
get_elem?-some (x ∷ xs) (suc i) h = get_elem?-some xs i (omega arith)

module _ {K V : Type 0} (t : Traits K V) where
  -- Keys rise strictly along the entries.
  abbrev pub IsSorted : Node K V → Type 0
  IsSorted n =
      (i j : ℕ) (a b : K)
      → i < j
      → j < n.nentries
      → key_at n i ≡ some a
      → key_at n j ≡ some b
      → t.cmp a b ≡ Ordering.lt

module _ {K V : Type 0} (t : Traits K V) (o : IsOrder t.cmp) (n : Node K V) where
  pub compare-key_at :
      (key k : K) (i : ℕ) → key_at n i ≡ some k → compare_nth_key t n key i ≡ t.cmp k key
  unfolding compare_nth_key
  compare-key_at key k i e = ground arith

  module _ (filled : n.nentries ≤ length n.slots) where
    -- Every index of an entry has a key.
    pub key_at-some : (i : ℕ) → i < n.nentries → (k : K) × (key_at n i ≡ some k)
    unfolding key_at
    key_at-some i h = let (e, p) = get_elem?-some n.slots i (omega arith) in (e.0, rw p)

    pub compare-Rises : (key : K) → IsSorted t n → Rises (compare_nth_key t n key) n.nentries
    compare-Rises key s i j h k below =
        let (a, p) = key_at-some i (omega arith) in
        let (b, q) = key_at-some j k in
        compare-key_at key b j q
        ∙ gt_of_above o a b key (s i j a b h k p q) (λ e. below (compare-key_at key a i p ∙ e))

    -- On a node whose keys rise, the search ends, and where it ends is right: it finds the key
    -- exactly if an entry has it, every entry before the index has a lower key, and the others have
    -- higher ones.
    pub bsearch_node-Lands :
        (key : K)
        → IsSorted t n
        → (found : Bool) × (idx : ℕ) × (bsearch_node t n key ≡ some (found, idx))
          × Lands (compare_nth_key t n key) n.nentries found idx
    unfolding bsearch_node
    bsearch_node-Lands key s =
        bsearch-Lands (compare_nth_key t n key) n.nentries (compare-Rises key s)

    -- `find` ends with the same index; it hands out the value of the entry there, or the edge of an
    -- interior node that has one if every key is lower, and else nothing.
    pub find-Lands :
        (key : K)
        → IsSorted t n
        → (found : Bool) × (idx : ℕ) × (find t n key
            ≡ some (
              found,
              idx,
              if idx == n.nentries
                  then (if has_valid_edge n then some (t.of_link n.edge_info) else none)
                  else Option.map (λ e. e.1) (get_elem? n.slots idx),
            ))
          × Lands (compare_nth_key t n key) n.nentries found idx
    unfolding find bsearch_node has_valid_edge
    find-Lands key s =
        let (found, idx, e, r) = bsearch_node-Lands key s in (found, idx, rw e (ground arith), r)

    -- The same for a search whose result is known.
    pub Lands-of_bsearch :
        (key : K) {found : Bool} {idx : ℕ}
        → IsSorted t n
        → bsearch_node t n key ≡ some (found, idx)
        → Lands (compare_nth_key t n key) n.nentries found idx
    Lands-of_bsearch key {found} {idx} s e =
        let (f, i, p, r) = bsearch_node-Lands key s in
        let same_found : found ≡ f = cc in
        let same_idx : idx ≡ i = cc in rw (same_found, same_idx) r
