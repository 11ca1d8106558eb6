-- ===== src/Btree/Node/Copy.antt =====
-- What `SimpleNode::copy_by_entries` does.
use home_store.Prelude.{
  ℕ, ◌+◌, ◌-◌, ◌%◌, ◌^◌, ◌≤◌, ◌<◌, ◌≡◌, refl, min, Bool, List, ◌++◌, length, take, drop,
  length-take, length-drop, take-take_le, drop-take, arith, if◌then◌else◌, ◌==◌, ◌&&◌,
}
use home_store.Btree.Node.{Node, Traits, sub32, memcpy, has_valid_edge, copy_by_entries}
use home_store.Btree.Node.Entries.{IsNode, entries, nentries-small, available-eq}
use home_store.Btree.Node.Move.{length-memcpy, take-memcpy, memcpy_none}

module _ {K V : Type 0} (t : Traits K V) (start_idx nentries : ℕ) (o n : Node K V) where
  -- How many entries are copied.
  abbrev pub copying : ℕ
  copying = min (min nentries (o.nentries - start_idx)) (length n.slots - n.nentries)

  abbrev copied : List (K × V)
  copied = take copying (drop start_idx o.slots)

  abbrev takes_edge : Bool
  takes_edge = has_valid_edge o && (start_idx + copying == o.nentries)

  abbrev after : Node K V
  after = record n {
    nentries = n.nentries + copying;
    node_gen = (n.node_gen + 1) % 2 ^ 64;
    slots = memcpy n.nentries copied n.slots;
    edge_info = if takes_edge then o.edge_info else n.edge_info;
  }

  nothing_copied : copying ≡ 0 → memcpy n.nentries copied n.slots ≡ n.slots
  nothing_copied e = rw e (memcpy_none n.nentries n.slots)

  copy-eq :
      IsNode t o
      → IsNode t n
      → start_idx ≤ o.nentries
      → copy_by_entries t start_idx nentries o n ≡ (copying, after)
  unfolding copy_by_entries
  copy-eq u w h =
      let small : length n.slots < 2 ^ 16 = nentries-small t w in
      let small_other : length o.slots < 2 ^ 16 = nentries-small t u in
      let rest : sub32 o.nentries start_idx ≡ o.nentries - start_idx = omega (arith, u.filled) in
      let more : (n.nentries + copying) % 2 ^ 30 ≡ n.nentries + copying = omega (arith, w.filled) in
      rw (available-eq t w, rest) (ground (arith, nothing_copied, more))

  -- Copying appends entries of the other node from `start_idx` on, as many as are asked for, are
  -- there and fit. The edge is taken over exactly when the last entry was copied and there is one.
  -- The node stays well formed.
  pub copy-entries :
      IsNode t o
      → IsNode t n
      → start_idx ≤ o.nentries
      → let (k, n') = copy_by_entries t start_idx nentries o n in
        (k ≡ copying)
        × (entries n' ≡ entries n ++ take k (drop start_idx (entries o)))
        × (n'.edge_info ≡ (
            if has_valid_edge o && (start_idx + k == o.nentries) then o.edge_info else n.edge_info))
        × IsNode t n'
  copy-entries u w h = rw (copy-eq u w h) (
    refl,
    appended,
    refl,
    record {
      sized = w.sized;
      area = rw same_length w.area;
      small = w.small;
      filled = rw same_length (omega (arith, w.filled));
    },
  )
    where
      copied_length : length copied ≡ copying
      copied_length = omega (
        arith,
        length-take copying (drop start_idx o.slots),
        length-drop start_idx o.slots,
        u.filled,
      )

      live : copied ≡ take copying (drop start_idx (entries o))
      live = rw (
        drop-take start_idx o.nentries o.slots,
        take-take_le copying (o.nentries - start_idx) (drop start_idx o.slots) (omega arith),
      )

      appended : entries after ≡ entries n ++ take copying (drop start_idx (entries o))
      appended =
          let whole : n.nentries + copying ≡ n.nentries + length copied =
            omega (arith, copied_length) in
          rw (whole, ← live) (take-memcpy n.nentries copied n.slots w.filled)

      same_length : length after.slots ≡ length n.slots
      same_length = length-memcpy n.nentries copied n.slots (omega (arith, copied_length, w.filled))
