-- ===== src/Btree/Node/Remove.antt =====
-- What `SimpleNode::remove` and `remove_all` do to the entries and the edge.
use home_store.Prelude.{
  ℕ, ◌+◌, ◌-◌, ◌%◌, ◌^◌, ◌≤◌, ◌<◌, ◌≡◌, refl, false, some, List, [], ◌++◌, length, take, drop,
  get_elem?, take-prefix, length-take, length-drop, take-append_ge, take-take_le, drop-take, arith,
}
use home_store.Btree.Node.{Node, Traits, sub32, memmove, remove, remove_all, has_valid_edge}
use home_store.Btree.Node.Entries.{IsNode, entries, nentries-small}
use home_store.Btree.Node.Insert.{length-memmove, memmove_none}

-- The slots up to the end of the range that is moved in.
pub take-memmove {ℓ} :
    {A : Type ℓ} (dst src cnt : ℕ) (xs : List A)
    → dst ≤ length xs
    → src + cnt ≤ length xs
    → take (dst + cnt) (memmove dst src cnt xs) ≡ take dst xs ++ take cnt (drop src xs)
unfolding memmove
take-memmove dst src cnt xs h k =
    let head : length (take dst xs) ≡ dst = omega (arith, length-take dst xs) in
    let body : length (take cnt (drop src xs)) ≡ cnt =
      omega (arith, length-take cnt (drop src xs), length-drop src xs) in
    let left : dst + cnt - length (take dst xs) ≡ cnt = omega arith in
    rw (take-append_ge (dst + cnt) (take dst xs) _ (omega arith), left, take-prefix _ _ cnt body)

module _ {K V : Type 0} (t : Traits K V) (n : Node K V) (ind_s ind_e : ℕ) where
  abbrev closed : List (K × V)
  closed = memmove ind_s (ind_e + 1) (n.nentries - ind_e - 1) n.slots

  remove-closed :
      n.nentries < 2 ^ 16
      → ind_s ≤ ind_e
      → ind_e < n.nentries
      → remove t ind_s ind_e n
        ≡ some (record n {
          slots = closed;
          nentries = n.nentries - (ind_e - ind_s + 1);
          node_gen = (n.node_gen + 1) % 2 ^ 64;
        })
  unfolding remove
  remove-closed small h k =
      let sz : sub32 (sub32 n.nentries ind_e) 1 ≡ n.nentries - ind_e - 1 = omega arith in
      rw sz (ground (arith, memmove_none ind_s (ind_e + 1) n.slots))

  -- Removing a range of entries closes the gap: what is left are the entries before it and those
  -- behind it, in order; the edge stays, and the node stays well formed.
  pub remove-entries :
      IsNode t n
      → ind_s ≤ ind_e
      → ind_e < n.nentries
      → (m : Node K V) × (remove t ind_s ind_e n ≡ some m)
        × (entries m ≡ take ind_s (entries n) ++ drop (ind_e + 1) (entries n))
        × IsNode t m
        × (m.edge_info ≡ n.edge_info)
  remove-entries w h k = (
    record n { slots = closed; nentries = left; node_gen = (n.node_gen + 1) % 2 ^ 64 },
    remove-closed (omega (arith, nentries-small t w, w.filled)) h k,
    in_order,
    kept,
    refl,
  )
    where
      left : ℕ
      left = n.nentries - (ind_e - ind_s + 1)

      cnt : ℕ
      cnt = n.nentries - ind_e - 1

      in_order : take left closed ≡ take ind_s (entries n) ++ drop (ind_e + 1) (entries n)
      in_order =
          let whole : left ≡ ind_s + cnt = omega arith in
          let tail : n.nentries - (ind_e + 1) ≡ cnt = omega arith in
          rw
            (
              take-take_le ind_s n.nentries n.slots (omega arith),
              drop-take (ind_e + 1) n.nentries n.slots,
              tail,
              whole,
            )
            (take-memmove ind_s (ind_e + 1) cnt n.slots (omega (arith, w.filled))
              (omega (arith, w.filled)))

      same_length : length closed ≡ length n.slots
      same_length =
          length-memmove ind_s (ind_e + 1) cnt n.slots (omega (arith, w.filled))
            (omega (arith, w.filled))

      kept :
          IsNode t
            (record n { slots = closed; nentries = left; node_gen = (n.node_gen + 1) % 2 ^ 64 })
      kept = record {
        sized = w.sized;
        area = rw same_length w.area;
        small = w.small;
        filled = rw same_length (omega (arith, w.filled));
      }

module _ {K V : Type 0} (t : Traits K V) (n : Node K V) (ind_s : ℕ) (k : K) (v : V) where
  remove_edge-eq :
      n.nentries < 2 ^ 16
      → n.leaf ≡ false
      → 0 < ind_s
      → ind_s ≤ n.nentries
      → get_elem? n.slots (ind_s - 1) ≡ some (k, v)
      → remove t ind_s n.nentries n
        ≡ some (record n {
          edge_info = t.as_link v;
          nentries = ind_s - 1;
          node_gen = (n.node_gen + 1) % 2 ^ 64;
        })
  unfolding remove
  remove_edge-eq small interior p h at_last =
      let before : sub32 ind_s 1 ≡ ind_s - 1 = omega arith in rw before (ground arith)

  -- Removing up to and including the edge of an interior node makes the link of the entry before the
  -- range the new edge, and drops that entry with the range.
  pub remove_edge-entries :
      IsNode t n
      → n.leaf ≡ false
      → 0 < ind_s
      → ind_s ≤ n.nentries
      → get_elem? n.slots (ind_s - 1) ≡ some (k, v)
      → (m : Node K V) × (remove t ind_s n.nentries n ≡ some m)
        × (entries m ≡ take (ind_s - 1) (entries n))
        × (m.edge_info ≡ t.as_link v)
        × IsNode t m
  remove_edge-entries w interior p h at_last = (
    record n {
      edge_info = t.as_link v;
      nentries = ind_s - 1;
      node_gen = (n.node_gen + 1) % 2 ^ 64;
    },
    remove_edge-eq (omega (arith, nentries-small t w, w.filled)) interior p h at_last,
    rw (take-take_le (ind_s - 1) n.nentries n.slots (omega arith)),
    refl,
    record { sized = w.sized; area = w.area; small = w.small; filled = omega (arith, w.filled) },
  )

-- Emptying a node leaves no entry and no edge.
pub remove_all-entries :
    {K V : Type 0} (n : Node K V)
    → n.nentries < 2 ^ 30
    → (entries (remove_all n) ≡ []) × (has_valid_edge (remove_all n) ≡ false)
unfolding remove_all has_valid_edge
remove_all-entries n h =
    let none_left : (n.nentries + 2 ^ 30 - n.nentries % 2 ^ 30) % 2 ^ 30 ≡ 0 = omega arith in
    (rw none_left, ground arith)
