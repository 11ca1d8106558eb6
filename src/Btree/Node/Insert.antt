-- ===== src/Btree/Node/Insert.antt =====
-- What `SimpleNode::insert` does to the entries.
use home_store.Prelude.{
  ℕ, zero, suc, ◌+◌, ◌-◌, ◌%◌, ◌^◌, ◌≤◌, ◌<◌, ◌≡◌, refl, ap, some, List, [], ◌∷◌, ◌++◌, length,
  take, drop, set, take-prefix, length-take, length-set, length-append, length-drop,
  take-append-drop, take-take_le, drop-take, arith,
}
use home_store.Btree.Node.{Node, Traits, sub32, memmove, insert}
use home_store.Btree.Node.Entries.{IsNode, entries, nentries-small}

-- Opening a gap at `i` among the first `i + d` slots and writing `e` there.
insert_slots {ℓ} :
    {A : Type ℓ} (xs : List A) (i d : ℕ) (e : A)
    → i + d < length xs
    → take (suc (i + d)) (set (memmove (suc i) i d xs) i e) ≡ take i xs ++ e ∷ take d (drop i xs)
unfolding memmove
insert_slots [] i d e h = absurd (omega arith)
insert_slots (x ∷ xs) zero d e h =
    let gap : 0 + d ≡ d = omega arith in
    rw gap (ap (◌∷◌ e) (take-prefix (take d (x ∷ xs)) _ d (omega (arith, length-take d (x ∷ xs)))))
insert_slots (x ∷ xs) (suc i) d e h =
    let inner : suc i + d ≡ suc (i + d) = omega arith in
    let outer : suc (suc i) + d ≡ suc (suc (i + d)) = omega arith in
    rw (outer, inner) (ap (◌∷◌ x) (rw inner at (insert_slots xs i d e (omega arith))))

pub memmove_none {ℓ} : {A : Type ℓ} (dst src : ℕ) (xs : List A) → memmove dst src 0 xs ≡ xs
unfolding memmove
memmove_none dst src xs = let e : dst + 0 ≡ dst = omega arith in rw e (take-append-drop dst xs)

pub length-memmove {ℓ} :
    {A : Type ℓ} (dst src cnt : ℕ) (xs : List A)
    → dst + cnt ≤ length xs
    → src + cnt ≤ length xs
    → length (memmove dst src cnt xs) ≡ length xs
unfolding memmove
length-memmove dst src cnt xs h k = omega (
  arith,
  length-append (take dst xs) (take cnt (drop src xs) ++ drop (dst + cnt) xs),
  length-append (take cnt (drop src xs)) (drop (dst + cnt) xs),
  length-take dst xs,
  length-take cnt (drop src xs),
  length-drop src xs,
  length-drop (dst + cnt) xs,
)

module _ {K V : Type 0} (t : Traits K V) (n : Node K V) (ind : ℕ) (k : K) (v : V) where
  abbrev opened : List (K × V)
  opened = set (memmove (suc ind) ind (n.nentries - ind) n.slots) ind (k, v)

  -- Both ways of `insert`, with a move and without one, leave the same slots.
  insert-opened :
      n.nentries < 2 ^ 16
      → ind ≤ n.nentries
      → insert t ind k v n
        ≡ some (record n {
          slots = opened;
          nentries = n.nentries + 1;
          node_gen = (n.node_gen + 1) % 2 ^ 64;
        })
  unfolding insert
  insert-opened small h =
      let next_slot : ind + 1 ≡ suc ind = omega arith in
      let sz : (sub32 n.nentries (ind + 1) + 1) % 2 ^ 32 ≡ n.nentries - ind = omega arith in
      rw (sz, next_slot) (ground (arith, memmove_none (suc ind) ind n.slots))

  -- Inserting into a node with a free slot succeeds: it puts the entry at its index, keeps the rest in
  -- order, leaves the edge alone, and the node stays well formed.
  pub insert-entries :
      IsNode t n
      → ind ≤ n.nentries
      → n.nentries < length n.slots
      → (m : Node K V) × (insert t ind k v n ≡ some m)
        × (entries m ≡ take ind (entries n) ++ (k, v) ∷ drop ind (entries n))
        × IsNode t m
        × (m.leaf ≡ n.leaf)
        × (m.edge_info ≡ n.edge_info)
        × (m.node_data_size ≡ n.node_data_size)
        × (m.nentries ≡ n.nentries + 1)
  insert-entries w h room = (
    record n { slots = opened; nentries = n.nentries + 1; node_gen = (n.node_gen + 1) % 2 ^ 64 },
    insert-opened (omega (arith, nentries-small t w, w.filled)) h,
    in_order,
    kept,
    refl,
    refl,
    refl,
    refl,
  )
    where
      d : ℕ
      d = n.nentries - ind

      in_order :
          take (n.nentries + 1) opened ≡ take ind (entries n) ++ (k, v) ∷ drop ind (entries n)
      in_order =
          let whole : n.nentries + 1 ≡ suc (ind + d) = omega arith in
          rw (take-take_le ind n.nentries n.slots h, drop-take ind n.nentries n.slots, whole)
            (insert_slots n.slots ind d (k, v) (omega arith))

      kept : IsNode t (record n {
        slots = opened;
        nentries = n.nentries + 1;
        node_gen = (n.node_gen + 1) % 2 ^ 64;
      })
      kept = record {
        sized = w.sized;
        area = rw (length-set (memmove (suc ind) ind d n.slots) ind (k, v), same_length) w.area;
        small = w.small;
        filled =
            rw (length-set (memmove (suc ind) ind d n.slots) ind (k, v), same_length) (omega arith);
      }
        where
          same_length : length (memmove (suc ind) ind d n.slots) ≡ length n.slots
          same_length = length-memmove (suc ind) ind d n.slots (omega arith) (omega arith)
