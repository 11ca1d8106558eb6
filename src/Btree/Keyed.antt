-- ===== src/Btree/Keyed.antt =====
-- Operations of a node by key: `insert`, `remove_one` and `update_one` of `BtreeNode` and `put` of
-- `VariantNode`, in src/include/homestore/btree/detail.
pub mod EntryAt
pub mod Sorted
pub mod Holds
pub mod Replace
pub mod Put
use home_store.Prelude.{ℕ, ◌≡◌, Bool, true, false, not, ◌&&◌, if◌then◌else◌, Option, none, some}
use mathlib.Core.Option
use home_store.Btree.Node.{Node, Traits}
use home_store.Btree.Node
use home_store.Btree.Search.{key_at, find}

infixl 5 ◌>>=◌
abbrev ◌>>=◌ {ℓ κ} : {A : Type ℓ} {B : Type κ} → Option A → (A → Option B) → Option B
none >>= f = none
some a >>= f = f a

pub data PutType : Type 0 where
  insert update upsert : PutType

pub data Status : Type 0 where
  success already_exists not_found filtered_out : Status

-- `put_filter_decision`.
pub data Decision : Type 0 where
  keep replace remove : Decision

module _ {K V : Type 0} (t : Traits K V) where
  unfoldable pub insert_key : K → V → Node K V → Option (Node K V)
  insert_key key v n = do r ← find t n key; Node.insert t r.1 key v n

  -- Whether the key was found, the value that it had, and the node afterwards.
  unfoldable pub remove_one : K → Node K V → Option (Bool × Option V × Node K V)
  remove_one key n = do
    r ← find t n key
    if r.0
        then Option.map (λ m. (true, r.2, m)) (Node.remove t r.1 r.1 n)
        else some (false, none, n)

  unfoldable pub update_one : K → V → Node K V → Option (Bool × Option V × Node K V)
  update_one key v n = do
    r ← find t n key
    if r.0
        then Option.map (λ m. (true, r.2, m)) (Node.update_value t r.1 v n)
        else some (false, none, n)

  -- Whether the filter, if there is one, lets the found entry be replaced.
  abbrev pub lets_replace : Option (K → V → V → Decision) → Option K → Option V → V → Bool
  lets_replace (some filter) (some k) (some old) v = elim (filter k old v) [
    | Decision.replace ↦ true
    | _ ↦ false
  ]
  lets_replace _ _ _ v = true

  -- `put` once the key was searched for: `out` is the value that `find` hands out.
  unfoldable pub put_at :
      Bool
      → ℕ
      → Option V
      → Option (K → V → V → Decision)
      → K
      → V
      → PutType
      → Node K V
      → Option (Status × Option V × Node K V)
  put_at found idx out filter key v put_type n =
      let existing = if found then out else none in
      let done : Option (Node K V) → Option (Status × Option V × Node K V) =
        Option.map (λ m. (Status.success, existing, m)) in
      if found && not (lets_replace filter (key_at n idx) out v)
      then some (Status.filtered_out, existing, n)
      else (elim put_type [
        | PutType.insert ↦
            if found
            then some (Status.already_exists, existing, n)
            else done (Node.insert t idx key v n)
        | PutType.update ↦
            if not found
            then some (Status.not_found, existing, n)
            else done (Node.update t idx key v n)
        | PutType.upsert ↦
            done (if found then Node.update t idx key v n else Node.insert t idx key v n)
      ])

  -- The status, the existing value of the key if it was found, and the node afterwards.
  unfoldable pub put :
      Option (K → V → V → Decision)
      → K
      → V
      → PutType
      → Node K V
      → Option (Status × Option V × Node K V)
  unfolding put_at
  put filter key v put_type n = do r ← find t n key; put_at r.0 r.1 r.2 filter key v put_type n
