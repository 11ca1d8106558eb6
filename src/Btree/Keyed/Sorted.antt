-- ===== src/Btree/Keyed/Sorted.antt =====
-- Insertion at the index of a search, removal and update keep the keys rising.
use mathlib.Core.Option
use home_store.Prelude.{
  ℕ, suc, ◌+◌, ◌-◌, ◌≤◌, ◌<◌, ◌≡◌, refl, sym, ap, ◌∙◌, false, some, ◌∷◌, ◌++◌, length, take, drop,
  Ordering, arith, dec_lt,
}
use home_store.Prelude.Order.{IsOrder, lt_of_gt}
use home_store.Btree.Node.{Node, Traits}
use home_store.Btree.Node.Entries.{entries}
use home_store.Btree.Search.{key_at, compare_nth_key}
use home_store.Btree.Search.Lands.{Lands}
use home_store.Btree.Search.Sorted.{IsSorted, compare-key_at}
use home_store.Btree.Keyed.EntryAt.{
  entry_at, entry_at-insert_lt, entry_at-insert_eq, entry_at-insert_gt,
}

module _ {K V : Type 0} where
  -- Equal entries have equal keys.
  pub key_of_entry :
      (m n : Node K V) (i j : ℕ) → entry_at m i ≡ entry_at n j → key_at m i ≡ key_at n j
  unfolding key_at
  key_of_entry m n i j e = ap (Option.map (λ x. x.0)) e

  pub key_of_some :
      (n : Node K V) (i : ℕ) (x : K × V) → entry_at n i ≡ some x → key_at n i ≡ some x.0
  unfolding key_at
  key_of_some n i x e = ap (Option.map (λ x. x.0)) e

module _ {K V : Type 0} (t : Traits K V) (o : IsOrder t.cmp) (n m : Node K V) (ind : ℕ) (key : K)
    (v : V) (filled : n.nentries ≤ length n.slots) (grown : m.nentries ≡ n.nentries + 1)
    (e : entries m ≡ take ind (entries n) ++ (key, v) ∷ drop ind (entries n))
    (l : Lands (compare_nth_key t n key) n.nentries false ind) (s : IsSorted t n) where
  at_lt : (i : ℕ) → i < ind → key_at m i ≡ key_at n i
  at_lt i h = key_of_entry m n i i (entry_at-insert_lt n m ind key v filled l.within grown e i h)

  at_eq : key_at m ind ≡ some key
  at_eq = key_of_some m ind (key, v) (entry_at-insert_eq n m ind key v filled l.within grown e)

  at_gt : (i : ℕ) → ind < i → i < m.nentries → key_at m i ≡ key_at n (i - 1)
  at_gt i h k =
      let back : i ≡ suc (i - 1) = omega arith in
      ap (key_at m) back
      ∙ key_of_entry m n (suc (i - 1)) (i - 1) (
          entry_at-insert_gt n m ind key v filled l.within grown e (i - 1) (omega arith)
            (omega arith))

  below_key : (i : ℕ) (a : K) → i < ind → key_at n i ≡ some a → t.cmp a key ≡ Ordering.lt
  below_key i a h p = sym (compare-key_at t o n key a i p) ∙ l.before i h

  above_key :
      (i : ℕ) (a : K) → ind ≤ i → i < n.nentries → key_at n i ≡ some a → t.cmp key a ≡ Ordering.lt
  above_key i a h k p = lt_of_gt o a key (sym (compare-key_at t o n key a i p) ∙ l.after i h k refl)

  pub insert-IsSorted : IsSorted t m
  insert-IsSorted i j a b h k p q = elim (dec_lt j ind) [
    | yes j_lt ↦
        s i j a b h (omega arith) (sym (at_lt i (omega arith)) ∙ p) (sym (at_lt j j_lt) ∙ q)
    | no j_ge ↦ elim (dec_lt ind j) [
      | yes j_gt ↦
          let q' : key_at n (j - 1) ≡ some b = sym (at_gt j j_gt k) ∙ q in
          elim (dec_lt i ind) [
            | yes i_lt ↦ s i (j - 1) a b (omega arith) (omega arith) (sym (at_lt i i_lt) ∙ p) q'
            | no i_ge ↦ elim (dec_lt ind i) [
              | yes i_gt ↦
                  s (i - 1) (j - 1) a b (omega arith) (omega arith)
                    (sym (at_gt i i_gt (omega arith)) ∙ p) q'
              | no i_le ↦
                  let same : i ≡ ind = omega arith in
                  let a_eq : a ≡ key = cc (p, at_eq, ap (key_at m) same) in
                  rw a_eq (above_key (j - 1) b (omega arith) (omega arith) q')
            ]
          ]
      | no j_le ↦
          let same : j ≡ ind = omega arith in
          let b_eq : b ≡ key = cc (q, at_eq, ap (key_at m) same) in
          rw b_eq (below_key i a (omega arith) (sym (at_lt i (omega arith)) ∙ p))
    ]
  ]
