-- ===== src/Alloc/Bitmap.antt =====
-- The allocator that keeps its on-disk version as a bitmap: `BitmapBlkAllocator` of
-- src/lib/blkalloc/bitmap_blk_allocator.cpp. The bitmap is `sisl::Bitset`, a parameter. A checkpoint
-- flush runs in three steps, so that reservations can come in between.
pub mod Bits
pub mod Reserve
pub mod Flush
mod Tests
use home_store.Prelude.{
  ℕ, ◌+◌, ◌≤◌, ◌<◌, ◌≡◌, ◌↔◌, Bool, true, false, not, ◌&&◌, ◌||◌, leb, ltb, if◌then◌else◌, Option,
  none, some, List, [], ◌∷◌, ◌++◌,
}
use mathlib.Core.Option
use home_store.Blk.{BlkId, blk_count}
use home_store.Blk.Multi.{MultiBlkId, ChainBlkId, of_blkid, iterate}
use home_store.Alloc.{BlkAllocStatus}

pub record Bitset (B : Type 0) : Type 0 where
  pub all_reset : ℕ → B
  pub set_bits : ℕ → ℕ → B → B
  pub reset_bits : ℕ → ℕ → B → B
  pub is_bits_set : ℕ → ℕ → B → Bool
  pub is_bits_reset : ℕ → ℕ → B → Bool
  pub get_set_count : B → ℕ
  pub serialize : B → List ℕ
  pub deserialize : List ℕ → B

-- The bit is one of the `nblks` from `blk_num` on.
abbrev pub covers : ℕ → ℕ → ℕ → Bool
covers blk_num nblks i = leb blk_num i && ltb i (blk_num + nblks)

-- What the code relies on of a bitset, in terms of its single bits.
pub record IsBitset {B : Type 0} (ops : Bitset B) (bit : ℕ → B → Bool) : Type 0 where
  pub all_reset_bit : (n i : ℕ) → bit i (ops.all_reset n) ≡ false
  pub set_bit : (n k i : ℕ) (b : B) → bit i (ops.set_bits n k b) ≡ covers n k i || bit i b
  pub reset_bit : (n k i : ℕ) (b : B) → bit i (ops.reset_bits n k b) ≡ not (covers n k i) && bit i b
  pub set_iff :
      (n k : ℕ) (b : B)
      → (ops.is_bits_set n k b ≡ true) ↔ ((i : ℕ) → covers n k i ≡ true → bit i b ≡ true)
  pub reset_iff :
      (n k : ℕ) (b : B)
      → (ops.is_bits_reset n k b ≡ true) ↔ ((i : ℕ) → covers n k i ≡ true → bit i b ≡ false)
  pub round_trip : (b : B) → ops.deserialize (ops.serialize b) ≡ b

-- A `BlkId const&`, which may be to a `MultiBlkId`.
pub data BlkRef : Type 0 where
  one : BlkId → BlkRef
  multi : MultiBlkId → BlkRef

-- `alloc_blkid_list` is `m_alloc_blkid_list`, `none` for a null pointer; `stored` is what the meta
-- service holds, and `meta_blk_cookie` says whether the cookie is set. `initializing` is
-- `hs()->is_initializing()`.
pub record BitmapBlkAllocator (B : Type 0) : Type 0 where
  pub num_blks : ℕ
  pub chunk_id : ℕ
  pub is_persistent : Bool
  pub disk_bm : B
  pub alloced_blk_count : ℕ
  pub is_disk_bm_dirty : Bool
  pub alloc_blkid_list : Option (List MultiBlkId)
  pub meta_blk_cookie : Bool
  pub stored : Option (List ℕ)
  pub initializing : Bool

module _ {B : Type 0} (ops : Bitset B) where
  -- Up to the `load` of the allocator that derives from it.
  unfoldable pub on_meta_blk_found : List ℕ → BitmapBlkAllocator B → BitmapBlkAllocator B
  on_meta_blk_found buf a =
      let bm = ops.deserialize buf in
      record a { meta_blk_cookie = true; disk_bm = bm; alloced_blk_count = ops.get_set_count bm }

  unfoldable pub is_blk_alloced_on_disk : BlkId → BitmapBlkAllocator B → Bool
  unfolding blk_count
  is_blk_alloced_on_disk b a =
      if not a.is_persistent then true else ops.is_bits_set b.blk_num (blk_count b) a.disk_bm

  -- `none` is the release assertion that the bits were reset, which holds only after start-up.
  unfoldable pub set_on_disk_bm : Bool → BlkId → B → Option B
  unfolding blk_count
  set_on_disk_bm initializing b bm =
      if not initializing && not (ops.is_bits_reset b.blk_num (blk_count b) bm)
      then none
      else some (ops.set_bits b.blk_num (blk_count b) bm)

  unfoldable pub set_pieces : Bool → BlkRef → B → Option B
  set_pieces initializing (one b) bm = set_on_disk_bm initializing b bm
  set_pieces initializing (multi m) bm =
      iterate (λ s b. elim s [ none ↦ none | some x ↦ set_on_disk_bm initializing b x ]) m (some bm)

  -- What the list keeps of a reference: the conversion from `BlkId const&`, which sees no further
  -- piece. The array that it does not initialise is an argument.
  unfoldable pub pushed : List ChainBlkId → BlkRef → MultiBlkId
  pushed garbage (one b) = of_blkid garbage b
  pushed garbage (multi m) = of_blkid garbage m.base

  unfoldable pub reserve_on_disk :
      List ChainBlkId
      → BlkRef
      → BitmapBlkAllocator B
      → Option (BlkAllocStatus × BitmapBlkAllocator B)
  reserve_on_disk garbage bid a =
      if not a.is_persistent then some (BlkAllocStatus.success, a) else (elim a.alloc_blkid_list [
        | some list ↦ some (
          BlkAllocStatus.success,
          record a { alloc_blkid_list = some (list ++ pushed garbage bid ∷ []) },
        )
        | none ↦
            Option.map
              (λ bm. (BlkAllocStatus.success, record a { disk_bm = bm; is_disk_bm_dirty = true }))
              (set_pieces a.initializing bid a.disk_bm)
      ])

  unfoldable pub free_on_disk : BlkRef → BitmapBlkAllocator B → BitmapBlkAllocator B
  unfolding blk_count
  free_on_disk (one b) a = record a { disk_bm = ops.reset_bits b.blk_num (blk_count b) a.disk_bm }
  free_on_disk (multi m) a = record a {
    disk_bm = iterate (λ s b. ops.reset_bits b.blk_num (blk_count b) s) m a.disk_bm;
  }

  -- The buffer, or `none` for the release assertion that no flush is running.
  unfoldable pub acquire_underlying_buffer :
      BitmapBlkAllocator B → Option (List ℕ × BitmapBlkAllocator B)
  acquire_underlying_buffer a = elim a.alloc_blkid_list [
    | some list ↦ none
    | none ↦ some (ops.serialize a.disk_bm, record a { alloc_blkid_list = some [] })
  ]

  -- The loop over the list that was taken off.
  unfoldable pub reserve_all :
      List ChainBlkId → List MultiBlkId → BitmapBlkAllocator B → Option (BitmapBlkAllocator B)
  reserve_all garbage [] a = some a
  reserve_all garbage (m ∷ ms) a = elim (reserve_on_disk garbage (multi m) a) [
    | none ↦ none
    | some (_, b) ↦ reserve_all garbage ms b
  ]

  -- `none` is also the use of the list when there is none.
  unfoldable pub release_underlying_buffer :
      List ChainBlkId → BitmapBlkAllocator B → Option (BitmapBlkAllocator B)
  release_underlying_buffer garbage a = elim a.alloc_blkid_list [
    | none ↦ none
    | some list ↦ reserve_all garbage list (record a { alloc_blkid_list = none })
  ]

  -- `add_sub_sb` or `update_sub_sb`, and the clean flag.
  unfoldable pub write_bitmap : List ℕ → BitmapBlkAllocator B → BitmapBlkAllocator B
  write_bitmap buf a = record a {
    stored = some buf;
    meta_blk_cookie = true;
    is_disk_bm_dirty = false;
  }

  -- Reservations that come in while the buffer is held.
  unfoldable pub arrive :
      List ChainBlkId → List BlkRef → BitmapBlkAllocator B → Option (BitmapBlkAllocator B)
  arrive garbage [] a = some a
  arrive garbage (r ∷ rs) a = elim (reserve_on_disk garbage r a) [
    | none ↦ none
    | some (_, b) ↦ arrive garbage rs b
  ]

  -- `cp_flush`, with the reservations that other threads make after the buffer was acquired and before
  -- the dirty flag is cleared, and between that and its release.
  unfoldable pub cp_flush :
      List ChainBlkId
      → List BlkRef
      → List BlkRef
      → BitmapBlkAllocator B
      → Option (BitmapBlkAllocator B)
  cp_flush garbage early late a =
      if not a.is_persistent || not a.is_disk_bm_dirty
      then some a
      else (elim (acquire_underlying_buffer a) [
        | none ↦ none
        | some (buf, held) ↦ (elim (arrive garbage early held) [
          | none ↦ none
          | some b ↦ (elim (arrive garbage late (write_bitmap buf b)) [
            | none ↦ none
            | some c ↦ release_underlying_buffer garbage c
          ])
        ])
      ])

  unfoldable pub reset : BitmapBlkAllocator B → BitmapBlkAllocator B
  reset a = if a.meta_blk_cookie then record a { stored = none; meta_blk_cookie = false } else a
