-- ===== src/Btree/Keyed/Holds.antt =====
-- A node as a map from keys to values, and what insertion, update and removal do to that map.
use home_store.Prelude.{
  ℕ, suc, ◌+◌, ◌-◌, ◌≤◌, ◌<◌, ◌≡◌, ◌≢◌, ◌↔◌, refl, sym, ap, ◌∙◌, ◌⊎◌, inl, inr, false, some, ◌∷◌,
  ◌++◌, length, take, drop, Ordering, arith, dec_lt,
}
use home_store.Prelude.Order.{IsOrder, eq_of_eq}
use home_store.Btree.Node.{Node, Traits}
use home_store.Btree.Node.Entries.{entries}
use home_store.Btree.Search.{key_at, compare_nth_key}
use home_store.Btree.Search.Lands.{Lands}
use home_store.Btree.Search.Sorted.{compare-key_at}
use home_store.Btree.Keyed.EntryAt.{
  entry_at, entry_at-insert_lt, entry_at-insert_eq, entry_at-insert_gt,
}
use home_store.Btree.Keyed.Sorted.{key_of_some}

module _ {K V : Type 0} (t : Traits K V) where
  -- The node holds the value under a key that is equal to the given one.
  abbrev pub Holds : Node K V → K → V → Type 0
  Holds n key w =
      (i : ℕ) × (k : K) × (i < n.nentries)
      × (entry_at n i ≡ some (k, w))
      × (t.cmp k key ≡ Ordering.eq)

  -- The second node is the first one with the key set to the value, and nothing else changed.
  abbrev pub Updated : Node K V → K → V → Node K V → Type 0
  Updated n key v m =
      (key' : K) (w : V)
      → Holds m key' w ↔ (
          ((t.cmp key key' ≡ Ordering.eq) × (v ≡ w))
          ⊎ ((t.cmp key key' ≢ Ordering.eq) × Holds n key' w))

module _ {K V : Type 0} (t : Traits K V) (o : IsOrder t.cmp) (n : Node K V) (ind : ℕ) (key : K)
    (l : Lands (compare_nth_key t n key) n.nentries false ind) where
  -- No entry has the key that was not found.
  pub absent : (i : ℕ) (k : K) → i < n.nentries → key_at n i ≡ some k → t.cmp k key ≢ Ordering.eq
  absent i k h p q =
      let at : compare_nth_key t n key i ≡ Ordering.eq = compare-key_at t o n key k i p ∙ q in
      elim (dec_lt i ind) [
        | yes i_lt ↦ cc (l.before i i_lt, at)
        | no i_ge ↦ cc (l.after i (omega arith) h refl, at)
      ]

module _ {K V : Type 0} (t : Traits K V) (o : IsOrder t.cmp) (n m : Node K V) (ind : ℕ) (key : K)
    (v : V) (filled : n.nentries ≤ length n.slots) (grown : m.nentries ≡ n.nentries + 1)
    (e : entries m ≡ take ind (entries n) ++ (key, v) ∷ drop ind (entries n))
    (l : Lands (compare_nth_key t n key) n.nentries false ind) where
  old-Holds : (key' : K) (w : V) → Holds t n key' w → t.cmp key key' ≢ Ordering.eq
  old-Holds key' w (i, k, h, p, q) c =
      absent t o n ind key l i k h (key_of_some n i (k, w) p)
        (o.same k key' key q ∙ eq_of_eq o key key' c)

  pub insert-Updated : Updated t n key v m
  insert-Updated key' w = (forward, backward)
    where
      moved : (i : ℕ) → ind ≤ i → i < n.nentries → entry_at m (suc i) ≡ entry_at n i
      moved = entry_at-insert_gt n m ind key v filled l.within grown e

      stays : (i : ℕ) → i < ind → entry_at m i ≡ entry_at n i
      stays = entry_at-insert_lt n m ind key v filled l.within grown e

      added : entry_at m ind ≡ some (key, v)
      added = entry_at-insert_eq n m ind key v filled l.within grown e

      old :
          Holds t n key' w
          → ((t.cmp key key' ≡ Ordering.eq) × (v ≡ w))
            ⊎ ((t.cmp key key' ≢ Ordering.eq) × Holds t n key' w)
      old h = inr (old-Holds key' w h, h)

      forward :
          Holds t m key' w
          → ((t.cmp key key' ≡ Ordering.eq) × (v ≡ w))
            ⊎ ((t.cmp key key' ≢ Ordering.eq) × Holds t n key' w)
      forward (i, k, h, p, q) = elim (dec_lt i ind) [
        | yes i_lt ↦ old (i, k, omega (arith, l.within), sym (stays i i_lt) ∙ p, q)
        | no i_ge ↦ elim (dec_lt ind i) [
          | yes i_gt ↦
              let back : i ≡ suc (i - 1) = omega arith in
              old (
                i - 1,
                k,
                omega arith,
                sym (moved (i - 1) (omega arith) (omega arith)) ∙ sym (ap (entry_at m) back) ∙ p,
                q,
              )
          | no i_le ↦
              let same : i ≡ ind = omega arith in
              let k_eq : key ≡ k = cc (p, added, ap (entry_at m) same) in
              let v_eq : v ≡ w = cc (p, added, ap (entry_at m) same) in inl (rw k_eq q, v_eq)
        ]
      ]

      backward :
          (((t.cmp key key' ≡ Ordering.eq) × (v ≡ w))
            ⊎ ((t.cmp key key' ≢ Ordering.eq) × Holds t n key' w))
          → Holds t m key' w
      backward (inl (c, v_eq)) =
          (ind, key, omega (arith, l.within), added ∙ ap (λ x. some (key, x)) v_eq, c)
      backward (inr (c, (i, k, h, p, q))) = elim (dec_lt i ind) [
        | yes i_lt ↦ (i, k, omega arith, stays i i_lt ∙ p, q)
        | no i_ge ↦ (suc i, k, omega arith, moved i (omega arith) h ∙ p, q)
      ]
