-- ===== src/Btree/Keyed/Replace.antt =====
-- Writing a value over the entry of an equal key, and taking an entry out.
use home_store.Prelude.{
  ℕ, ◌+◌, ◌%◌, ◌^◌, ◌≤◌, ◌<◌, ◌≡◌, ◌≢◌, sym, ap, ◌∙◌, ◌⊎◌, inl, inr, some, length, set,
  get_elem?-set_self, get_elem?-set_ne, Ordering, arith, dec_lt, ℕ_discrete,
}
use home_store.Prelude.Order.{IsOrder, eq_of_eq}
use home_store.Btree.Node.{Node, Traits}
use home_store.Btree.Search.{key_at}
use home_store.Btree.Search.Sorted.{IsSorted}
use home_store.Btree.Keyed.EntryAt.{entry_at}
use home_store.Btree.Keyed.Sorted.{key_of_entry, key_of_some}
use home_store.Btree.Keyed.Holds.{Holds, Updated}

module _ {K V : Type 0} (t : Traits K V) (o : IsOrder t.cmp) (n : Node K V) (s : IsSorted t n) where
  -- Two entries with keys equal to one key are one entry.
  pub one_entry :
      (i j : ℕ) (a b key : K)
      → i < n.nentries
      → j < n.nentries
      → key_at n i ≡ some a
      → key_at n j ≡ some b
      → t.cmp a key ≡ Ordering.eq
      → t.cmp b key ≡ Ordering.eq
      → i ≡ j
  one_entry i j a b key hi hj p q ea eb =
      let same : t.cmp a b ≡ Ordering.eq = o.same a key b ea ∙ eq_of_eq o b key eb in
      elim (dec_lt i j) [
        | yes h ↦ absurd (cc (s i j a b h hj p q, same))
        | no h ↦ elim (dec_lt j i) [
          | yes k ↦ absurd (cc (s j i b a k hi q p, eq_of_eq o a b same))
          | no k ↦ omega arith
        ]
      ]

  -- The key of an entry can be replaced by an equal one.
  module _ (ind : ℕ) (old key : K) (v v_old : V) (filled : n.nentries ≤ length n.slots)
      (h : ind < n.nentries) (p : entry_at n ind ≡ some (old, v_old))
      (q : t.cmp old key ≡ Ordering.eq) where
    abbrev pub replaced : Node K V
    replaced = record n { slots = set n.slots ind (key, v); node_gen = (n.node_gen + 1) % 2 ^ 64 }

    at_self : entry_at replaced ind ≡ some (key, v)
    at_self = get_elem?-set_self n.slots ind (key, v) (omega arith)

    at_other : (i : ℕ) → i ≢ ind → entry_at replaced i ≡ entry_at n i
    at_other i ne = get_elem?-set_ne n.slots (key, v) (λ e. ne (sym e))

    old_key : key_at n ind ≡ some old
    old_key = key_of_some n ind (old, v_old) p

    new_key : key_at replaced ind ≡ some key
    new_key = key_of_some replaced ind (key, v) at_self

    pub replace-IsSorted : IsSorted t replaced
    replace-IsSorted i j a b l k e f = elim (ℕ_discrete i ind) [
      | yes at_i ↦
          let a_eq : a ≡ key = cc (e, new_key, ap (key_at replaced) at_i) in
          let f' : key_at n j ≡ some b =
            sym (key_of_entry replaced n j j (at_other j (omega arith))) ∙ f in
          rw (a_eq, ← o.same old key b q) (s ind j old b (omega arith) k old_key f')
      | no not_i ↦
          let e' : key_at n i ≡ some a = sym (key_of_entry replaced n i i (at_other i not_i)) ∙ e in
          elim (ℕ_discrete j ind) [
            | yes at_j ↦
                let b_eq : b ≡ key = cc (f, new_key, ap (key_at replaced) at_j) in
                rw (b_eq, o.flips key a, ← o.same old key a q, ← o.flips old a)
                  (s i ind a old (omega arith) (omega arith) e' old_key)
            | no not_j ↦ s i j a b l k e' (sym (key_of_entry replaced n j j (at_other j not_j)) ∙ f)
          ]
    ]

    pub replace-Updated : Updated t n key v replaced
    replace-Updated key' w = (forward, backward)
      where
        forward :
            Holds t replaced key' w
            → ((t.cmp key key' ≡ Ordering.eq) × (v ≡ w))
              ⊎ ((t.cmp key key' ≢ Ordering.eq) × Holds t n key' w)
        forward (i, k, l, e, c) = elim (ℕ_discrete i ind) [
          | yes at_i ↦
              let k_eq : key ≡ k = cc (e, at_self, ap (entry_at replaced) at_i) in
              let v_eq : v ≡ w = cc (e, at_self, ap (entry_at replaced) at_i) in
              inl (rw k_eq c, v_eq)
          | no not_i ↦
              let e' : entry_at n i ≡ some (k, w) = sym (at_other i not_i) ∙ e in
              inr (
                λ eq. not_i (
                    one_entry i ind k old key' l h (key_of_some n i (k, w) e') old_key c
                      (o.same old key key' q ∙ eq)),
                (i, k, l, e', c),
              )
        ]

        backward :
            (((t.cmp key key' ≡ Ordering.eq) × (v ≡ w))
              ⊎ ((t.cmp key key' ≢ Ordering.eq) × Holds t n key' w))
            → Holds t replaced key' w
        backward (inl (c, v_eq)) = (ind, key, h, at_self ∙ ap (λ x. some (key, x)) v_eq, c)
        backward (inr (ne, (i, k, l, e, c))) =
            let not_i : i ≢ ind = λ at_i.
              let k_eq : k ≡ old = cc (e, p, ap (entry_at n) at_i) in
              ne (sym (o.same old key key' q) ∙ rw (← k_eq) c) in
            (i, k, l, at_other i not_i ∙ e, c)
