-- ===== src/Btree/Tests.antt =====
-- Runs of the nodes with numbers as keys and values.
use mathlib.Core.Option
use home_store.Prelude.{
  ℕ, zero, suc, ◌+◌, ◌-◌, ◌≤◌, ◌<◌, ◌≡◌, ◌↔◌, refl, Option, none, some, List, [], ◌∷◌, ◌++◌, take,
  drop, get_elem?, Bool, true, false, arith, ◌==◌, if◌then◌else◌,
}
use home_store.Prelude.Order.{compare_nat, compare_nat-IsOrder}
use home_store.Btree.Node.{
  Traits, Node, empty_bnodeid, insert, remove, move_out_to_right_by_entries, has_valid_edge,
}
use home_store.Btree.Node.Entries.{entries, IsNode}
use home_store.Btree.Node.Insert.{insert-entries}
use home_store.Btree.Node.Remove.{remove-entries}
use home_store.Btree.Node.Move.{move_out-entries}
use home_store.Btree.Search.{
  KeyRange, MultiMatch, key_at, compare_nth_key, bsearch_node, find, match_range, get_any,
}
use home_store.Btree.Search.Lands.{Lands}
use home_store.Btree.Search.Sorted.{IsSorted, find-Lands}
use home_store.Btree.Search.Range.{in_range, match_range-leaf}
use home_store.Btree.Search.Any.{get_any_right_most-overshoots, get_any_open_end-misses}
use home_store.Btree.Keyed.{PutType, Status, put}
use home_store.Btree.Ranged.{multi_remove}
use home_store.Btree.Ranged.Removed.{multi_remove-entries}
use home_store.Btree.Keyed.Put.{Outcome, put-Outcome}

abbrev numbers : Traits ℕ ℕ
numbers = record {
  cmp = compare_nat;
  key_size = 8;
  value_size = 8;
  as_link = λ v. record { bnodeid = v; link_version = 0 };
  of_link = λ l. l.bnodeid;
}

abbrev leaf_of : List (ℕ × ℕ) → ℕ → Node ℕ ℕ
leaf_of slots nentries = record {
  nentries = nentries;
  leaf = true;
  node_gen = 0;
  edge_info = record { bnodeid = empty_bnodeid; link_version = 0 };
  node_data_size = 80;
  slots = slots;
}

abbrev three : Node ℕ ℕ
three = leaf_of ((10, 1) ∷ (20, 2) ∷ (30, 3) ∷ (0, 0) ∷ (0, 0) ∷ []) 3

abbrev two : Node ℕ ℕ
two = leaf_of ((40, 4) ∷ (50, 5) ∷ (0, 0) ∷ (0, 0) ∷ (0, 0) ∷ []) 2

abbrev interior : Node ℕ ℕ
interior = record three { leaf = false; edge_info = record { bnodeid = 9; link_version = 0 } }

three-IsNode : IsNode numbers three
three-IsNode = record {
  sized = omega arith;
  area = refl;
  small = omega arith;
  filled = omega arith;
}

two-IsNode : IsNode numbers two
two-IsNode = record { sized = omega arith; area = refl; small = omega arith; filled = omega arith }

interior-IsNode : IsNode numbers interior
interior-IsNode = record {
  sized = omega arith;
  area = refl;
  small = omega arith;
  filled = omega arith;
}

three-IsSorted : IsSorted numbers three
unfolding key_at
three-IsSorted i zero a b h k e f = absurd (omega arith)
three-IsSorted zero (suc zero) a b h k e f = ground arith
three-IsSorted (suc i) (suc zero) a b h k e f = absurd (omega arith)
three-IsSorted zero (suc (suc zero)) a b h k e f = ground arith
three-IsSorted (suc zero) (suc (suc zero)) a b h k e f = ground arith
three-IsSorted (suc (suc i)) (suc (suc zero)) a b h k e f = absurd (omega arith)
three-IsSorted i (suc (suc (suc j))) a b h k e f = absurd (omega arith)

abbrev range_of : ℕ → Bool → ℕ → Bool → MultiMatch → KeyRange ℕ
range_of start start_incl end end_incl multi_option = record {
  start_key = start;
  start_incl = start_incl;
  end_key = end;
  end_incl = end_incl;
  multi_option = multi_option;
}

find_run : find numbers three 20 ≡ some (true, 1, some 2)
unfolding find bsearch_node
find_run = refl

insert-entries_example :
    (m : Node ℕ ℕ) × (insert numbers 1 15 9 three ≡ some m)
    × (entries m ≡ (10, 1) ∷ (15, 9) ∷ (20, 2) ∷ (30, 3) ∷ [])
    × IsNode numbers m
    × (m.leaf ≡ true)
    × (m.edge_info ≡ three.edge_info)
    × (m.node_data_size ≡ 80)
    × (m.nentries ≡ 4)
insert-entries_example =
    insert-entries numbers three 1 15 9 three-IsNode (omega arith) (omega arith)

remove-entries_example :
    (m : Node ℕ ℕ) × (remove numbers 0 1 three ≡ some m)
    × (entries m ≡ (30, 3) ∷ [])
    × IsNode numbers m
    × (m.edge_info ≡ three.edge_info)
remove-entries_example = remove-entries numbers three 0 1 three-IsNode (omega arith) (omega arith)

move_out-entries_example :
    let (k, n', o') = move_out_to_right_by_entries numbers 2 interior two in
    (k ≡ 2)
    × (entries n' ≡ take (3 - k) (entries interior))
    × (entries n' ++ entries o' ≡ entries interior ++ entries two)
    × (has_valid_edge interior ≡ true
        → (o'.edge_info ≡ interior.edge_info) × (has_valid_edge n' ≡ false))
    × IsNode numbers n'
    × IsNode numbers o'
move_out-entries_example = move_out-entries numbers 2 interior two interior-IsNode two-IsNode

find-Lands_example :
    (found : Bool) × (idx : ℕ) × (find numbers three 25
      ≡ some (
        found,
        idx,
        if idx == 3
            then (if has_valid_edge three then some empty_bnodeid else none)
            else Option.map (λ e. e.1) (get_elem? three.slots idx),
      ))
    × Lands (compare_nth_key numbers three 25) 3 found idx
find-Lands_example = find-Lands numbers compare_nat-IsOrder three (omega arith) 25 three-IsSorted

match_range-leaf_example :
    let range = range_of 10 false 30 true MultiMatch.do_not_care in
    (ok : Bool) × (start_idx : ℕ) × (end_idx : ℕ) × (match_range numbers three range
      ≡ some (ok, start_idx, end_idx))
    × (ok ≡ true
        → (start_idx ≤ end_idx)
          × (end_idx < 3)
          × ((i : ℕ)
              → i < 3
              → (in_range numbers three range i ≡ true) ↔ ((start_idx ≤ i) × (i ≤ end_idx))))
    × (ok ≡ false → (i : ℕ) → i < 3 → in_range numbers three range i ≡ false)
match_range-leaf_example =
    match_range-leaf numbers three (range_of 10 false 30 true MultiMatch.do_not_care)
      compare_nat-IsOrder (omega arith) refl three-IsSorted

get_any_right_most-overshoots_example :
    let range = range_of 10 true 25 true MultiMatch.right_most in
    (get_any numbers three range ≡ some (some 2)) × (2 < 3 → in_range numbers three range 2 ≡ false)
unfolding bsearch_node compare_nth_key
get_any_right_most-overshoots_example =
    get_any_right_most-overshoots numbers three (range_of 10 true 25 true MultiMatch.right_most)
      compare_nat-IsOrder (omega arith) three-IsSorted 0 2 true refl refl refl (omega arith)

get_any_open_end-misses_example :
    let range = range_of 10 false 30 false MultiMatch.do_not_care in
    (get_any numbers three range ≡ some none) × (in_range numbers three range 1 ≡ true)
unfolding bsearch_node compare_nth_key
get_any_open_end-misses_example =
    get_any_open_end-misses numbers three (range_of 10 false 30 false MultiMatch.do_not_care)
      compare_nat-IsOrder (omega arith) three-IsSorted 0 2 true refl refl refl refl refl

put-Outcome_example :
    (st : Status) × (existing : Option ℕ) × (m : Node ℕ ℕ) × (put numbers none 20 7 PutType.upsert
        three
      ≡ some (st, existing, m))
    × Outcome numbers three 20 7 PutType.upsert st existing m
put-Outcome_example =
    put-Outcome numbers compare_nat-IsOrder three 20 7 three-IsNode three-IsSorted (omega arith)
      PutType.upsert

multi_remove-entries_example :
    let range = range_of 10 false 30 true MultiMatch.do_not_care in
    (ret : ℕ) × (m : Node ℕ ℕ) × (start : ℕ) × (multi_remove numbers range none three
      ≡ some (ret, m))
    × (entries m ≡ take start (entries three) ++ drop (start + ret) (entries three))
    × ((i : ℕ)
        → i < 3
        → (in_range numbers three range i ≡ true) ↔ ((start ≤ i) × (i < start + ret)))
    × IsNode numbers m
multi_remove-entries_example =
    multi_remove-entries numbers (range_of 10 false 30 true MultiMatch.do_not_care) three
      compare_nat-IsOrder three-IsNode refl three-IsSorted
