-- ===== src/Superblk.antt =====
-- A superblock of a component: `superblk< T >` of src/include/homestore/superblk_handler.hpp, with the
-- copy that the meta service holds of it (`add_sub_sb`, `update_sub_sb`, `remove_sub_sb`).
use home_store.Prelude.{Bool, true, false, if◌then◌else◌, Option, none, some}

-- `sb` is `m_sb` over its buffer, `none` for a null pointer; `meta_blk` says whether `m_meta_blk` is
-- set; `stored` is what the meta service holds, which a restart finds.
pub record Superblk {ℓ} (T : Type ℓ) : Type ℓ where
  pub sb : Option T
  pub meta_blk : Bool
  pub stored : Option T

module _ {ℓ} {T : Type ℓ} where
  -- `create` and the writes to the fields that follow it.
  unfoldable pub create : T → Superblk T → Superblk T
  create x s = record s { sb = some x }

  -- What the service found is what the buffer holds.
  unfoldable pub load : T → Superblk T → Superblk T
  load x s = record s { sb = some x; meta_blk = true }

  -- `none` is the use of a null buffer.
  unfoldable pub write : Superblk T → Option (Superblk T)
  write s = elim s.sb [
    | none ↦ none
    | some x ↦ some (record s { stored = some x; meta_blk = true })
  ]

  unfoldable pub destroy : Superblk T → Superblk T
  destroy s = record { sb = none; meta_blk = false; stored = if s.meta_blk then none else s.stored }

  unfoldable pub is_empty : Superblk T → Bool
  is_empty s = elim s.sb [ none ↦ true | some x ↦ false ]
