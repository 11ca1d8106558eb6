-- ===== src/Btree/Keyed/EntryAt.antt =====
-- Which entry stands at which index after an insertion or a removal.
use home_store.Prelude.{
  ℕ, suc, ◌+◌, ◌-◌, ◌≤◌, ◌<◌, ◌≡◌, Option, some, ◌∷◌, ◌++◌, length, take, drop, get_elem?,
  get_elem?-take, get_elem?-append_lt, get_elem?-append_past, get_elem?-drop, length-take, arith,
}
use home_store.Btree.Node.{Node}
use home_store.Btree.Node.Entries.{entries}

module _ {K V : Type 0} where
  abbrev pub entry_at : Node K V → ℕ → Option (K × V)
  entry_at n i = get_elem? n.slots i

  entry_at-entries :
      (n : Node K V) (i : ℕ) → i < n.nentries → entry_at n i ≡ get_elem? (entries n) i
  entry_at-entries n i h = rw (get_elem?-take n.nentries i n.slots h)

  module _ (n m : Node K V) (ind : ℕ) (k : K) (v : V) (filled : n.nentries ≤ length n.slots)
      (in_range : ind ≤ n.nentries) (grown : m.nentries ≡ n.nentries + 1)
      (e : entries m ≡ take ind (entries n) ++ (k, v) ∷ drop ind (entries n)) where
    front : length (take ind (entries n)) ≡ ind
    front = omega (arith, length-take ind (entries n), length-take n.nentries n.slots)

    pub entry_at-insert_lt : (i : ℕ) → i < ind → entry_at m i ≡ entry_at n i
    entry_at-insert_lt i h = rw (
      entry_at-entries m i (omega arith),
      entry_at-entries n i (omega arith),
      e,
      get_elem?-append_lt (take ind (entries n)) ((k, v) ∷ drop ind (entries n)) i
          (omega (arith, front)),
      get_elem?-take ind i (entries n) h,
    )

    pub entry_at-insert_eq : entry_at m ind ≡ some (k, v)
    entry_at-insert_eq = rw (
      entry_at-entries m ind (omega arith),
      e,
      get_elem?-append_past (take ind (entries n)) ((k, v) ∷ drop ind (entries n)) ind 0
          (omega (arith, front)),
    )

    pub entry_at-insert_gt : (i : ℕ) → ind ≤ i → i < n.nentries → entry_at m (suc i) ≡ entry_at n i
    entry_at-insert_gt i h l =
        let back : ind + (i - ind) ≡ i = omega arith in
        rw (
          entry_at-entries m (suc i) (omega arith),
          entry_at-entries n i l,
          e,
          get_elem?-append_past (take ind (entries n)) ((k, v) ∷ drop ind (entries n)) (suc i)
              (suc (i - ind)) (omega (arith, front)),
          get_elem?-drop ind (i - ind) (entries n),
          back,
        )

  module _ (n m : Node K V) (lo hi : ℕ) (filled : n.nentries ≤ length n.slots) (ordered : lo ≤ hi)
      (within : hi ≤ n.nentries) (shrunk : m.nentries + hi ≡ n.nentries + lo)
      (e : entries m ≡ take lo (entries n) ++ drop hi (entries n)) where
    before : length (take lo (entries n)) ≡ lo
    before = omega (arith, length-take lo (entries n), length-take n.nentries n.slots)

    pub entry_at-remove_lt : (i : ℕ) → i < lo → entry_at m i ≡ entry_at n i
    entry_at-remove_lt i h = rw (
      entry_at-entries m i (omega arith),
      entry_at-entries n i (omega arith),
      e,
      get_elem?-append_lt (take lo (entries n)) (drop hi (entries n)) i (omega (arith, before)),
      get_elem?-take lo i (entries n) h,
    )

    pub entry_at-remove_ge :
        (i : ℕ) → lo ≤ i → i < m.nentries → entry_at m i ≡ entry_at n (hi + (i - lo))
    entry_at-remove_ge i h l = rw (
      entry_at-entries m i l,
      entry_at-entries n (hi + (i - lo)) (omega arith),
      e,
      get_elem?-append_past (take lo (entries n)) (drop hi (entries n)) i (i - lo)
          (omega (arith, before)),
      get_elem?-drop hi (i - lo) (entries n),
    )
