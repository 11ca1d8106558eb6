-- ===== src/Btree/Node/Entries.antt =====
-- The entries of a node, and when a node is well formed.
use native.Mathlib.Nat.{add-mul-div_right, div-mul-le_self}
use home_store.Prelude.{ℕ, ◌+◌, ◌-◌, ◌*◌, ◌/◌, ◌^◌, ◌≤◌, ◌<◌, ◌≡◌, ap, List, length, take, arith}
use home_store.Btree.Node.{Node, Traits, sub32, obj_size, available_size, get_available_entries}

-- Taking `k` of the `d / s` units out of `d` leaves the rest.
div-sub-mul : (d k s : ℕ) → 0 < s → k ≤ d / s → (d - k * s) / s ≡ d / s - k
div-sub-mul d k s p h =
    let below : k * s ≤ d = grind (arith, div-mul-le_self d s) in
    let split : d - k * s + k * s ≡ d = omega arith in
    omega (arith, add-mul-div_right (d - k * s) k p, ap (λ x. x / s) split)

module _ {K V : Type 0} where
  -- The live part of the data area.
  abbrev pub entries : Node K V → List (K × V)
  entries n = take n.nentries n.slots

module _ {K V : Type 0} (t : Traits K V) where
  -- The slots are those that fit into the data area of at most 64K, and the entries fill a part.
  pub record IsNode (n : Node K V) : Type 0 where
    pub sized : 0 < obj_size t
    pub area : length n.slots ≡ n.node_data_size / obj_size t
    pub small : n.node_data_size < 2 ^ 16
    pub filled : n.nentries ≤ length n.slots

  pub nentries-small : {n : Node K V} → IsNode n → length n.slots < 2 ^ 16
  nentries-small {n} w =
      grind (arith, w.area, w.small, w.sized, div-mul-le_self n.node_data_size (obj_size t))

  -- What the code computes from sizes in bytes is the number of free slots.
  pub available-eq :
      {n : Node K V} → IsNode n → get_available_entries t n ≡ length n.slots - n.nentries
  unfolding get_available_entries available_size
  available-eq {n} w =
      let used : n.nentries * obj_size t ≤ n.node_data_size =
        grind (arith, w.filled, w.area, div-mul-le_self n.node_data_size (obj_size t)) in
      let no_wrap : sub32 n.node_data_size (n.nentries * obj_size t)
          ≡ n.node_data_size - n.nentries * obj_size t =
        omega (arith, w.small) in
      rw (
        no_wrap,
        div-sub-mul n.node_data_size n.nentries (obj_size t) w.sized
            (omega (arith, w.filled, w.area)),
        w.area,
      )
