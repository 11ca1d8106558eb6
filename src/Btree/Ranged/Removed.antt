-- ===== src/Btree/Ranged/Removed.antt =====
-- What a removal of a range leaves.
use home_store.Prelude.{
  ℕ, zero, suc, ◌+◌, ◌-◌, ◌≤◌, ◌<◌, ◌≡◌, refl, sym, ap, ◌∙◌, Option, none, some, Bool, true, false,
  ◌++◌, take, drop, length, length-take, length-drop, length-append, take-append-drop, take-prefix,
  drop-append_ge, ap₂, drop-drop, arith, Bool-cases, inl, inr, ◌↔◌,
}
use home_store.Btree.Node.{Node, Traits}
use home_store.Btree.Node
use home_store.Btree.Node.Entries.{IsNode, entries}
use home_store.Btree.Node.Remove.{remove-entries}
use home_store.Prelude.Order.{IsOrder}
use home_store.Btree.Search.{KeyRange, match_range}
use home_store.Btree.Search.Sorted.{IsSorted}
use home_store.Btree.Search.Range.{in_range, match_range-leaf}
use home_store.Btree.Ranged.{remove_each, multi_remove}

module _ {K V : Type 0} (t : Traits K V) where
  each_step :
      (left idx ret : ℕ) (n : Node K V) {m : Node K V}
      → Node.remove t idx idx n ≡ some m
      → remove_each t (suc left) none idx ret n ≡ remove_each t left none idx ret m
  unfolding remove_each
  each_step left idx ret n e = ground arith

  none_step : (idx ret : ℕ) (n : Node K V) → remove_each t 0 none idx ret n ≡ some (ret, n)
  unfolding remove_each
  none_step idx ret n = refl

  -- Removing without a filter takes out that many entries from the index on, and leaves the others.
  pub remove_each-entries :
      (count idx ret : ℕ) (n : Node K V)
      → IsNode t n
      → idx + count ≤ n.nentries
      → (m : Node K V) × (remove_each t count none idx ret n ≡ some (ret, m))
        × (entries m ≡ take idx (entries n) ++ drop (idx + count) (entries n))
        × IsNode t m
  remove_each-entries zero idx ret n w h =
      let none_more : idx + 0 ≡ idx = omega arith in
      (
        n,
        none_step idx ret n,
        sym (take-append-drop idx (entries n))
            ∙ ap (λ k. take idx (entries n) ++ drop k (entries n)) (sym none_more),
        w,
      )
  remove_each-entries (suc count) idx ret n w h =
      let (m, e, order, node, same) = remove-entries t n idx idx w (omega arith) (omega arith) in
      let front : length (take idx (entries n)) ≡ idx =
        omega (arith, length-take idx (entries n), length-take n.nentries n.slots, w.filled) in
      let size : m.nentries + 1 ≡ n.nentries = omega (
        arith,
        length-take m.nentries m.slots,
        node.filled,
        ap length order,
        length-append (take idx (entries n)) (drop (idx + 1) (entries n)),
        front,
        length-drop (idx + 1) (entries n),
        length-take n.nentries n.slots,
        w.filled,
      ) in
      let (c, f, rest, last) = remove_each-entries count idx ret m node (omega arith) in
      let a : take idx (entries m) ≡ take idx (entries n) =
        ap (take idx) order
        ∙ take-prefix (take idx (entries n)) (drop (idx + 1) (entries n)) idx front in
      let behind : idx + count - length (take idx (entries n)) ≡ count = omega arith in
      let whole : idx + 1 + count ≡ idx + suc count = omega arith in
      let b : drop (idx + count) (entries m) ≡ drop (idx + suc count) (entries n) =
        ap (drop (idx + count)) order
        ∙ drop-append_ge (idx + count) (take idx (entries n)) (drop (idx + 1) (entries n))
            (omega arith)
        ∙ ap (λ k. drop k (drop (idx + 1) (entries n))) behind
        ∙ drop-drop count (idx + 1) (entries n)
        ∙ ap (λ k. drop k (entries n)) whole in
      (c, each_step count idx ret n e ∙ f, rest ∙ ap₂ (λ x y. x ++ y) a b, last)

  none_range :
      (keys : KeyRange K) (filter : Option (K → V → Bool)) (n : Node K V) {s e : ℕ}
      → match_range t n keys ≡ some (false, s, e)
      → multi_remove t keys filter n ≡ some (0, n)
  unfolding multi_remove
  none_range keys filter n p = ground arith

  some_range :
      (keys : KeyRange K) (n : Node K V) (s e : ℕ)
      → match_range t n keys ≡ some (true, s, e)
      → multi_remove t keys none n ≡ remove_each t (e - s + 1) none s (e - s + 1) n
  unfolding multi_remove
  some_range keys n s e p = ground arith

  -- `multi_remove` without a filter on a well-formed leaf whose keys rise ends. It takes out the entries
  -- between two indices and returns their number; the entries between the two are exactly those whose
  -- key lies in the range, the others stay in order, and the node stays well formed.
  pub multi_remove-entries :
      (keys : KeyRange K) (n : Node K V)
      → IsOrder t.cmp
      → IsNode t n
      → n.leaf ≡ true
      → IsSorted t n
      → (ret : ℕ) × (m : Node K V) × (start : ℕ) × (multi_remove t keys none n ≡ some (ret, m))
        × (entries m ≡ take start (entries n) ++ drop (start + ret) (entries n))
        × ((i : ℕ)
            → i < n.nentries
            → (in_range t n keys i ≡ true) ↔ ((start ≤ i) × (i < start + ret)))
        × IsNode t m
  multi_remove-entries keys n o w leaf s =
      let (ok, si, ei, e, found, missed) = match_range-leaf t n keys o w.filled leaf s in
      elim (Bool-cases ok) [
        | inl yes_ ↦
            let (le, lt, exact) = found yes_ in
            let e' : match_range t n keys ≡ some (true, si, ei) =
              e ∙ ap (λ x. some (x, si, ei)) yes_ in
            let (m, f, order, node) =
              remove_each-entries (ei - si + 1) si (ei - si + 1) n w (omega arith) in
            (
              ei - si + 1,
              m,
              si,
              some_range keys n si ei e' ∙ f,
              order,
              λ i h. (
                λ p. let (x, y) = (exact i h).0 p in (x, omega arith),
                λ (x, y). (exact i h).1 (x, omega arith),
              ),
              node,
            )
        | inr no_ ↦
            let e' : match_range t n keys ≡ some (false, si, ei) =
              e ∙ ap (λ x. some (x, si, ei)) no_ in
            (
              0,
              n,
              0,
              none_range keys none n e',
              refl,
              λ i h. (λ p. absurd (cc (missed no_ i h, p)), λ (x, y). absurd (omega arith)),
              w,
            )
      ]
