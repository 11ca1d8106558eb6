-- ===== src/Btree/Ranged.antt =====
-- Operations of a leaf on a range of keys: `multi_remove` and `multi_put` of `VariantNode` in
-- src/include/homestore/btree/detail/variant_node.hpp, with the entry that an index without one gives
-- left out: reading past the slots is none.
pub mod Removed
use home_store.Prelude.{
  ℕ, zero, suc, ◌+◌, ◌-◌, ◌%◌, ◌^◌, Bool, true, false, ltb, leb, if◌then◌else◌, Option, none, some,
  get_elem?,
}
use mathlib.Core.Option
use home_store.Btree.Node.{Node, Traits, get_available_entries}
use home_store.Btree.Node
use home_store.Btree.Search.{KeyRange, match_range}
use home_store.Btree.Keyed.{PutType, Decision}

-- What `multi_put` returns.
pub data Outcome : Type 0 where
  success not_found has_more not_supported : Outcome

module _ {K V : Type 0} (t : Traits K V) where
  -- The loop of `multi_remove`: the number of rounds that are left, the index, what is to be returned,
  -- and the node.
  unfoldable pub remove_each : ℕ → Option (K → V → Bool) → ℕ → ℕ → Node K V → Option (ℕ × Node K V)
  remove_each zero filter idx ret n = some (ret, n)
  remove_each (suc left) none idx ret n = elim (Node.remove t idx idx n) [
    | none ↦ none
    | some m ↦ remove_each left none idx ret m
  ]
  remove_each (suc left) (some keep) idx ret n = elim (get_elem? n.slots idx) [
    | none ↦ none
    | some (k, v) ↦ (elim (keep k v) [
      | false ↦ remove_each left (some keep) (idx + 1) (ret - 1) n
      | true ↦ (elim (Node.remove t idx idx n) [
        | none ↦ none
        | some m ↦ remove_each left (some keep) idx ret m
      ])
    ])
  ]

  unfoldable pub multi_remove :
      KeyRange K → Option (K → V → Bool) → Node K V → Option (ℕ × Node K V)
  multi_remove keys filter n = elim (match_range t n keys) [
    | none ↦ none
    | some (false, _, _) ↦ some (0, n)
    | some (true, start_idx, end_idx) ↦
        (let count = end_idx - start_idx + 1 in remove_each count filter start_idx count n)
  ]

  -- `has_room_for_put`.
  unfoldable pub has_room_for_put : PutType → Node K V → Bool
  has_room_for_put PutType.update n = true
  has_room_for_put _ n = ltb 0 (get_available_entries t n)

  -- The loop of `multi_put`, on fuel, whose index is a uint32_t: a removal steps back. The key that is
  -- handed out when there is no room is left out.
  unfoldable pub update_each :
      ℕ
      → PutType
      → Option (K → V → V → Decision)
      → V
      → ℕ
      → ℕ
      → Node K V
      → Option (Outcome × Node K V)
  unfolding has_room_for_put
  update_each zero put_type filter v idx end_idx n = none
  update_each (suc fuel) put_type filter v idx end_idx n = elim (leb idx end_idx) [
    | false ↦ some (Outcome.success, n)
    | true ↦ (elim (has_room_for_put put_type n) [
      | false ↦ some (Outcome.has_more, n)
      | true ↦ (elim filter [
        | none ↦ (elim (Node.update_value t idx v n) [
          | none ↦ none
          | some m ↦ update_each fuel put_type none v ((idx + 1) % 2 ^ 32) end_idx m
        ])
        | some decide ↦ (elim (get_elem? n.slots idx) [
          | none ↦ none
          | some (k, old) ↦ (elim (decide k old v) [
            | Decision.keep ↦
                update_each fuel put_type (some decide) v ((idx + 1) % 2 ^ 32) end_idx n
            | Decision.replace ↦ (elim (Node.update_value t idx v n) [
              | none ↦ none
              | some m ↦ update_each fuel put_type (some decide) v ((idx + 1) % 2 ^ 32) end_idx m
            ])
            | Decision.remove ↦ (elim (Node.remove t idx idx n) [
              | none ↦ none
              | some m ↦ update_each fuel put_type (some decide) v idx end_idx m
            ])
          ])
        ])
      ])
    ])
  ]

  -- Every round of the loop either passes one index or removes one entry, so that one round more than
  -- there are indices and entries is enough.
  unfoldable pub multi_put :
      KeyRange K
      → V
      → PutType
      → Option (K → V → V → Decision)
      → Node K V
      → Option (Outcome × Node K V)
  multi_put keys v PutType.update filter n = elim (match_range t n keys) [
    | none ↦ none
    | some (false, _, _) ↦ some (Outcome.not_found, n)
    | some (true, start_idx, end_idx) ↦
        update_each (n.nentries + (end_idx - start_idx + 2)) PutType.update filter v start_idx
          end_idx n
  ]
  multi_put keys v _ filter n = some (Outcome.not_supported, n)
