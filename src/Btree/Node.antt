-- ===== src/Btree/Node.antt =====
-- Nodes with entries of one size: `SimpleNode` of src/include/homestore/btree/detail/simple_node.hpp
-- over the header of `BtreeNode` in src/include/homestore/btree/detail/btree_node.hpp. The data area
-- is the list of its slots, one for each key and value, and `memmove` moves whole slots: a size in
-- bytes of the source, which is always a multiple of the size of an entry, is a number of slots here.
pub mod Entries
pub mod Insert
pub mod Remove
pub mod Move
pub mod Copy
use home_store.Prelude.{
  ℕ, zero, suc, ◌+◌, ◌-◌, ◌*◌, ◌/◌, ◌%◌, ◌^◌, ◌≤◌, ◌<◌, ◌≡◌, min, Bool, true, false, not, ◌&&◌, ltb,
  ◌==◌, if◌then◌else◌, Ordering, Option, none, some, List, [], ◌∷◌, ◌++◌, length, get_elem?, set,
  take, drop,
}
use mathlib.Core.Option

pub record LinkInfo : Type 0 where
  pub bnodeid : ℕ
  pub link_version : ℕ

abbrev pub empty_bnodeid : ℕ
empty_bnodeid = 2 ^ 64 - 1

-- The template parameters `K` and `V`: how keys compare, the sizes of a serialized key and value, and
-- the cast between the bytes of a value and a link, which interior nodes make.
pub record Traits (K V : Type 0) : Type 0 where
  pub cmp : K → K → Ordering
  pub key_size : ℕ
  pub value_size : ℕ
  pub as_link : V → LinkInfo
  pub of_link : LinkInfo → V

-- The fields of `persistent_hdr_t` that these functions read or write, and the data area.
pub record Node (K V : Type 0) : Type 0 where
  pub nentries : ℕ
  pub leaf : Bool
  pub node_gen : ℕ
  pub edge_info : LinkInfo
  pub node_data_size : ℕ
  pub slots : List (K × V)

-- uint32_t subtraction.
abbrev pub sub32 : ℕ → ℕ → ℕ
sub32 a b = (a + 2 ^ 32 - b) % 2 ^ 32

-- `memmove` of `cnt` slots from index `src` to index `dst` of the same array.
unfoldable pub memmove {ℓ} : {A : Type ℓ} → ℕ → ℕ → ℕ → List A → List A
memmove dst src cnt xs = take dst xs ++ (take cnt (drop src xs) ++ drop (dst + cnt) xs)

-- `memcpy` of a block of slots to index `dst`.
unfoldable pub memcpy {ℓ} : {A : Type ℓ} → ℕ → List A → List A → List A
memcpy dst block xs = take dst xs ++ (block ++ drop (dst + length block) xs)

module _ {K V : Type 0} where
  -- `nentries` has 30 bits and `node_gen` 64.
  abbrev pub add_entries : ℕ → Node K V → Node K V
  add_entries k n = record n { nentries = (n.nentries + k) % 2 ^ 30 }

  abbrev pub sub_entries : ℕ → Node K V → Node K V
  sub_entries k n = record n { nentries = (n.nentries + 2 ^ 30 - k % 2 ^ 30) % 2 ^ 30 }

  abbrev pub inc_gen : Node K V → Node K V
  inc_gen n = record n { node_gen = (n.node_gen + 1) % 2 ^ 64 }

  abbrev pub invalidate_edge : Node K V → Node K V
  invalidate_edge n = record n {
    edge_info = record { bnodeid = empty_bnodeid; link_version = n.edge_info.link_version };
  }

  unfoldable pub remove_all : Node K V → Node K V
  remove_all n = inc_gen (invalidate_edge (sub_entries n.nentries n))

  unfoldable pub has_valid_edge : Node K V → Bool
  has_valid_edge n = if n.leaf then false else not (n.edge_info.bnodeid == empty_bnodeid)

module _ {K V : Type 0} (t : Traits K V) where
  abbrev pub obj_size : ℕ
  obj_size = t.key_size + t.value_size

  unfoldable pub available_size : Node K V → ℕ
  available_size n = sub32 n.node_data_size (n.nentries * obj_size)

  unfoldable pub get_available_entries : Node K V → ℕ
  unfolding available_size
  get_available_entries n = available_size n / obj_size

  unfoldable pub num_entries_by_size : ℕ → ℕ → Node K V → ℕ
  num_entries_by_size start_idx size n = min (size / obj_size) (sub32 n.nentries start_idx)

  -- `none` is a failed release assertion: a value written past the entries of a leaf.
  unfoldable pub set_nth_value : ℕ → V → Node K V → Option (Node K V)
  set_nth_value ind v n =
      if ltb ind n.nentries
      then some (elim (get_elem? n.slots ind) [
        | none ↦ n
        | some (k, _) ↦ record n { slots = set n.slots ind (k, v) }
      ])
      else if n.leaf
      then none
      else some (record n { edge_info = t.as_link v })

  unfoldable pub set_nth_obj : ℕ → K → V → Node K V → Option (Node K V)
  unfolding set_nth_value
  set_nth_obj ind k v n =
      if ltb n.nentries ind
      then set_nth_value ind v n
      else some (record n { slots = set n.slots ind (k, v) })

  -- `none` is a read outside the data area.
  unfoldable pub get_nth_value : ℕ → Node K V → Option V
  get_nth_value ind n =
      if ind == n.nentries
      then some (t.of_link n.edge_info)
      else Option.map (λ e. e.1) (get_elem? n.slots ind)

  unfoldable pub insert : ℕ → K → V → Node K V → Option (Node K V)
  unfolding memmove set_nth_obj
  insert ind k v n =
      let sz = (sub32 n.nentries (ind + 1) + 1) % 2 ^ 32 in
      let moved = if sz == 0 then n else record n { slots = memmove (ind + 1) ind sz n.slots } in
      Option.map (λ m. inc_gen (add_entries 1 m)) (set_nth_obj ind k v moved)

  -- `update(ind, val)`.
  unfoldable pub update_value : ℕ → V → Node K V → Option (Node K V)
  unfolding set_nth_value
  update_value ind v n = Option.map inc_gen (set_nth_value ind v n)

  -- `update(ind, key, val)`.
  unfoldable pub update : ℕ → K → V → Node K V → Option (Node K V)
  unfolding set_nth_obj
  update ind k v n = Option.map inc_gen (
      if ind == n.nentries
      then some (record n { edge_info = t.as_link v })
      else set_nth_obj ind k v n)

  -- Both indices are inclusive; `ind_e` at the number of entries means the edge entry.
  unfoldable pub remove : ℕ → ℕ → Node K V → Option (Node K V)
  unfolding get_nth_value set_nth_value memmove
  remove ind_s ind_e n = Option.map inc_gen (
      if ind_e == n.nentries
      then elim (get_nth_value (sub32 ind_s 1) n) [
        | none ↦ none
        | some new_edge ↦
            Option.map (sub_entries ((sub32 n.nentries ind_s + 1) % 2 ^ 32))
              (set_nth_value n.nentries new_edge n)
      ]
      else (let sz = sub32 (sub32 n.nentries ind_e) 1 in
          let moved =
            if sz == 0 then n else record n { slots = memmove ind_s (ind_e + 1) sz n.slots } in
          some (sub_entries ((sub32 ind_e ind_s + 1) % 2 ^ 32) moved)))

  -- The result, this node and the other one after the move.
  unfoldable pub move_out_to_right_by_entries : ℕ → Node K V → Node K V → ℕ × Node K V × Node K V
  unfolding memmove memcpy get_available_entries has_valid_edge
  move_out_to_right_by_entries nentries n o =
      let k = min nentries (min n.nentries (get_available_entries o)) in
      let o1 = if k == 0 then o else record o {
        slots =
            memcpy 0 (take k (drop (sub32 n.nentries k) n.slots)) (memmove k 0 o.nentries o.slots);
      } in
      let o2 = add_entries k o1 in
      let n2 = sub_entries k n in
      if not n.leaf && has_valid_edge n
      then (k, inc_gen (invalidate_edge n2), inc_gen (record o2 { edge_info = n.edge_info }))
      else (k, inc_gen n2, inc_gen o2)

  unfoldable pub move_out_to_right_by_size : ℕ → Node K V → Node K V → ℕ × Node K V × Node K V
  unfolding move_out_to_right_by_entries
  move_out_to_right_by_size size n o =
      let (k, n', o') = move_out_to_right_by_entries (size / obj_size) n o in (obj_size * k, n', o')

  -- Without the limit on keys of pre-release builds.
  unfoldable pub copy_by_entries : ℕ → ℕ → Node K V → Node K V → ℕ × Node K V
  unfolding memcpy get_available_entries has_valid_edge
  copy_by_entries start_idx nentries o n =
      let k = min (min nentries (sub32 o.nentries start_idx)) (get_available_entries n) in
      let n1 =
        if k == 0
        then n
        else record n { slots = memcpy n.nentries (take k (drop start_idx o.slots)) n.slots } in
      let n2 = inc_gen (add_entries k n1) in
      if has_valid_edge o && (start_idx + k == o.nentries)
      then (k, record n2 { edge_info = o.edge_info })
      else (k, n2)

  unfoldable pub copy_by_size : ℕ → ℕ → Node K V → Node K V → ℕ × Node K V
  unfolding copy_by_entries num_entries_by_size
  copy_by_size start_idx size o n =
      copy_by_entries start_idx (num_entries_by_size start_idx size o) o n
