-- ===== src/Btree/Node/Move.antt =====
-- What moving and copying entries between nodes does.
use home_store.Prelude.{
  ℕ, ◌+◌, ◌-◌, ◌%◌, ◌^◌, ◌≤◌, ◌<◌, ◌≡◌, refl, sym, ap, ◌∙◌, min, Bool, true, false, List, [], ◌++◌,
  length, take, drop, take-prefix, drop-prefix, length-take, length-append, length-drop,
  take-append-drop, take-append_ge, take-take_le, drop-take, append_assoc, arith, if◌then◌else◌,
  not, ◌&&◌,
}
use home_store.Btree.Node.{
  Node, Traits, empty_bnodeid, sub32, memmove, memcpy, has_valid_edge, move_out_to_right_by_entries,
}
use home_store.Btree.Node.Entries.{IsNode, entries, nentries-small, available-eq}
use home_store.Btree.Node.Insert.{length-memmove}

pub length-memcpy {ℓ} :
    {A : Type ℓ} (dst : ℕ) (block xs : List A)
    → dst + length block ≤ length xs
    → length (memcpy dst block xs) ≡ length xs
unfolding memcpy
length-memcpy dst block xs h = omega (
  arith,
  length-append (take dst xs) (block ++ drop (dst + length block) xs),
  length-append block (drop (dst + length block) xs),
  length-take dst xs,
  length-drop (dst + length block) xs,
)

pub take-memcpy {ℓ} :
    {A : Type ℓ} (dst : ℕ) (block xs : List A)
    → dst ≤ length xs
    → take (dst + length block) (memcpy dst block xs) ≡ take dst xs ++ block
unfolding memcpy
take-memcpy dst block xs h =
    let head : length (take dst xs) ≡ dst = omega (arith, length-take dst xs) in
    let left : dst + length block - length (take dst xs) ≡ length block = omega arith in
    rw (
      take-append_ge (dst + length block) (take dst xs) _ (omega arith),
      left,
      take-prefix block _ (length block) refl,
    )

-- Shifting the first `m` slots up by `k` and writing `k` slots before them.
shift_slots {ℓ} :
    {A : Type ℓ} (block xs : List A) (k m : ℕ)
    → length block ≡ k
    → k + m ≤ length xs
    → take (m + k) (memcpy 0 block (memmove k 0 m xs)) ≡ block ++ take m xs
unfolding memmove memcpy
shift_slots block xs k m e h =
    let from : 0 + length block ≡ k = omega arith in
    let left : m + k - length block ≡ m = omega arith in
    let first : length (take k xs) ≡ k = omega (arith, length-take k xs) in
    let moved : length (take m xs) ≡ m = omega (arith, length-take m xs) in
    rw (
      from,
      take-append_ge (m + k) block _ (omega arith),
      left,
      drop-prefix (take k xs) _ k first,
      take-prefix (take m xs) _ m moved,
    )

pub memcpy_none {ℓ} : {A : Type ℓ} (dst : ℕ) (xs : List A) → memcpy dst [] xs ≡ xs
unfolding memcpy
memcpy_none dst xs = let e : dst + 0 ≡ dst = omega arith in rw e (take-append-drop dst xs)

module _ {K V : Type 0} (t : Traits K V) (nentries : ℕ) (n o : Node K V) where
  -- How many entries move.
  abbrev pub moving : ℕ
  moving = min nentries (min n.nentries (length o.slots - o.nentries))

  abbrev block : List (K × V)
  block = take moving (drop (n.nentries - moving) n.slots)

  abbrev gives_edge : Bool
  gives_edge = not n.leaf && has_valid_edge n

  abbrev source_after : Node K V
  source_after = record n {
    nentries = n.nentries - moving;
    node_gen = (n.node_gen + 1) % 2 ^ 64;
    edge_info =
        if gives_edge
        then record { bnodeid = empty_bnodeid; link_version = n.edge_info.link_version }
        else n.edge_info;
  }

  abbrev target_after : Node K V
  target_after = record o {
    nentries = o.nentries + moving;
    node_gen = (o.node_gen + 1) % 2 ^ 64;
    slots = memcpy 0 block (memmove moving 0 o.nentries o.slots);
    edge_info = if gives_edge then n.edge_info else o.edge_info;
  }

  nothing_moved : moving ≡ 0 → memcpy 0 block (memmove moving 0 o.nentries o.slots) ≡ o.slots
  unfolding memcpy memmove
  nothing_moved e =
      let from : 0 + o.nentries ≡ o.nentries = omega arith in
      rw (e, from) (take-append-drop o.nentries o.slots)

  move_out-eq :
      IsNode t n
      → IsNode t o
      → move_out_to_right_by_entries t nentries n o ≡ (moving, source_after, target_after)
  unfolding move_out_to_right_by_entries
  move_out-eq w u =
      let small : n.nentries < 2 ^ 16 = omega (arith, nentries-small t w, w.filled) in
      let small_other : length o.slots < 2 ^ 16 = nentries-small t u in
      let start : sub32 n.nentries moving ≡ n.nentries - moving = omega arith in
      let less : (n.nentries + 2 ^ 30 - moving % 2 ^ 30) % 2 ^ 30 ≡ n.nentries - moving =
        omega arith in
      let more : (o.nentries + moving) % 2 ^ 30 ≡ o.nentries + moving = omega (arith, u.filled) in
      rw (available-eq t u, start) (ground (arith, nothing_moved, less, more))

  -- Moving out to the right takes the last entries of this node, as many as are asked for, are there
  -- and fit, and puts them in order before those of the other node: together the two nodes hold the
  -- same entries in the same order as before. An edge goes along; both nodes stay well formed.
  pub move_out-entries :
      IsNode t n
      → IsNode t o
      → let (k, n', o') = move_out_to_right_by_entries t nentries n o in
        (k ≡ moving)
        × (entries n' ≡ take (n.nentries - k) (entries n))
        × (entries n' ++ entries o' ≡ entries n ++ entries o)
        × (has_valid_edge n ≡ true → (o'.edge_info ≡ n.edge_info) × (has_valid_edge n' ≡ false))
        × IsNode t n'
        × IsNode t o'
  unfolding has_valid_edge
  move_out-entries w u = rw (move_out-eq w u) (
    refl,
    sym kept,
    together,
    edge,
    record { sized = w.sized; area = w.area; small = w.small; filled = omega (arith, w.filled) },
    record {
      sized = u.sized;
      area = rw same_length u.area;
      small = u.small;
      filled = rw same_length (omega (arith, u.filled));
    },
  )
    where
      block_length : length block ≡ moving
      block_length = omega (
        arith,
        length-take moving (drop (n.nentries - moving) n.slots),
        length-drop (n.nentries - moving) n.slots,
        w.filled,
      )

      kept : take (n.nentries - moving) (entries n) ≡ take (n.nentries - moving) n.slots
      kept = take-take_le (n.nentries - moving) n.nentries n.slots (omega arith)

      block_eq : block ≡ drop (n.nentries - moving) (entries n)
      block_eq =
          let e : n.nentries - (n.nentries - moving) ≡ moving = omega arith in
          rw (drop-take (n.nentries - moving) n.nentries n.slots, e)

      arrived : entries target_after ≡ block ++ entries o
      arrived = shift_slots block o.slots moving o.nentries block_length (omega (arith, u.filled))

      together : take (n.nentries - moving) n.slots ++ entries target_after ≡ entries n ++ entries o
      together =
          rw (arrived, ← kept, block_eq, ← append_assoc)
            (ap (λ xs. xs ++ entries o) (take-append-drop (n.nentries - moving) (entries n)))

      edge :
          has_valid_edge n ≡ true
          → (target_after.edge_info ≡ n.edge_info) × (has_valid_edge source_after ≡ false)
      edge h = ground arith

      same_length : length target_after.slots ≡ length o.slots
      same_length =
          length-memcpy 0 block (memmove moving 0 o.nentries o.slots)
            (omega (arith, block_length, u.filled, shifted))
          ∙ shifted
        where
          shifted : length (memmove moving 0 o.nentries o.slots) ≡ length o.slots
          shifted =
              length-memmove moving 0 o.nentries o.slots (omega (arith, u.filled))
                (omega (arith, u.filled))
