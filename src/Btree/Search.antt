-- ===== src/Btree/Search.antt =====
-- Looking keys up in a node: `bsearch`, `find` and `match_range` of `BtreeNode` and `get_any` of
-- `VariantNode`, in src/include/homestore/btree/detail. Indices start at 0; the lower end of the
-- binary search, an int that starts at -1, is kept as the number one above it.
pub mod Lands
pub mod Sorted
pub mod Range
pub mod Any
use home_store.Prelude.{
  ℕ, zero, suc, ◌+◌, ◌-◌, ◌/◌, Bool, true, false, not, ◌&&◌, ◌||◌, ltb, ◌==◌, if◌then◌else◌,
  Ordering, Option, none, some, get_elem?,
}
use mathlib.Core.Option
use home_store.Btree.Node.{Node, Traits, has_valid_edge, get_nth_value}

-- The loop of `bsearch`, from `start + 1 = lo`; `none` means that the fuel ran out.
unfoldable pub bsearch_loop : ℕ → (ℕ → Ordering) → ℕ → ℕ → Option (Bool × ℕ)
bsearch_loop zero x lo end = none
bsearch_loop (suc fuel) x lo end =
    let mid = lo + (end + 1 - lo) / 2 - 1 in
    elim (ltb lo end) [
      | true ↦ elim (x mid) [
        | Ordering.eq ↦ some (true, mid)
        | Ordering.gt ↦ bsearch_loop fuel x lo mid
        | Ordering.lt ↦ bsearch_loop fuel x (mid + 1) end
      ]
      | false ↦ some (false, end)
    ]

unfoldable pub bsearch : ℕ → (ℕ → Ordering) → Option (Bool × ℕ)
unfolding bsearch_loop
bsearch end x =
    let rest = bsearch_loop (end + 1) x 0 end in if ltb 0 end then rest else some (false, 0)

module _ {K V : Type 0} where
  unfoldable pub key_at : Node K V → ℕ → Option K
  key_at n i = Option.map (λ e. e.0) (get_elem? n.slots i)

module _ {K V : Type 0} (t : Traits K V) where
  -- How the key at an index stands to the key that is looked for. The search asks only inside the
  -- entries; elsewhere the answer is arbitrary.
  unfoldable pub compare_nth_key : Node K V → K → ℕ → Ordering
  unfolding key_at
  compare_nth_key n key i = elim (key_at n i) [ none ↦ Ordering.gt | some k ↦ t.cmp k key ]

  unfoldable pub bsearch_node : Node K V → K → Option (Bool × ℕ)
  unfolding bsearch compare_nth_key
  bsearch_node n key = bsearch n.nentries (compare_nth_key n key)

  -- `find`: whether the key was found, its index, and the value that is handed out, if any.
  unfoldable pub find : Node K V → K → Option (Bool × ℕ × Option V)
  unfolding bsearch_node get_nth_value has_valid_edge
  find n key =
      Option.map
        (λ r.
          if r.1 == n.nentries
          then (if not (has_valid_edge n) || n.leaf
              then (r.0, r.1, none)
              else (r.0, r.1, some (t.of_link n.edge_info)))
          else (r.0, r.1, get_nth_value t r.1 n))
        (bsearch_node n key)

pub data MultiMatch : Type 0 where
  do_not_care left_most right_most mid : MultiMatch

pub record KeyRange (K : Type 0) : Type 0 where
  pub start_key : K
  pub start_incl : Bool
  pub end_key : K
  pub end_incl : Bool
  pub multi_option : MultiMatch

module _ {K V : Type 0} (t : Traits K V) where
  -- Whether the range matches, with `start_idx` and `end_idx`. (`end_idx` is what it was before where
  -- the code returns false; 0 stands for it here.)
  unfoldable pub match_range : Node K V → KeyRange K → Option (Bool × ℕ × ℕ)
  unfolding has_valid_edge
  match_range n range = elim (bsearch_node t n range.start_key) [
    | none ↦ none
    | some (sfound, found_idx) ↦
        (let start_idx = if sfound && not range.start_incl then found_idx + 1 else found_idx in
          if start_idx == n.nentries
          then some (not n.leaf && has_valid_edge n, start_idx, start_idx)
          else (elim (bsearch_node t n range.end_key) [
            | none ↦ none
            | some (efound, end_idx) ↦
                if n.leaf || (end_idx == n.nentries && not (has_valid_edge n))
                then if not efound || not range.end_incl
                  then if end_idx == 0
                    then some (false, start_idx, end_idx)
                    else if ltb (end_idx - 1) start_idx
                    then some (false, start_idx, end_idx - 1)
                    else some (true, start_idx, end_idx - 1)
                  else if ltb end_idx start_idx
                  then some (false, start_idx, end_idx)
                  else some (true, start_idx, end_idx)
                else some (true, start_idx, end_idx)
          ]))
  ]

  -- `get_any` without a filter, up to the index that it returns. The outer `none` means that a search
  -- did not end, the inner one that nothing was found.
  unfoldable pub get_any : Node K V → KeyRange K → Option (Option ℕ)
  get_any n range = elim (bsearch_node t n range.start_key) [
    | none ↦ none
    | some (found, found_idx) ↦
        (let start_idx = if found && not range.start_incl then found_idx + 1 else found_idx in
          let sfound = found && range.start_incl in
          let first : Bool = elim range.multi_option [
            | MultiMatch.do_not_care ↦ true
            | MultiMatch.left_most ↦ true
            | _ ↦ false
          ] in
          if sfound && first
          then some (some start_idx)
          else if start_idx == n.nentries
          then some none
          else (elim (bsearch_node t n range.end_key) [
            | none ↦ none
            | some (at_end, end_found) ↦
                (let open_end = at_end && not range.end_incl in
                  let end_idx = if open_end then end_found - 1 else end_found in
                  let efound = at_end && range.end_incl in
                  if open_end && end_found == 0
                  then some none
                  else if ltb start_idx end_idx
                  then some (
                      some (elim range.multi_option [
                        | MultiMatch.right_most ↦ end_idx
                        | MultiMatch.mid ↦ (end_idx - start_idx) / 2
                        | _ ↦ start_idx
                      ]))
                  else if start_idx == end_idx && (sfound || efound)
                  then some (some start_idx)
                  else some none)
          ]))
  ]
