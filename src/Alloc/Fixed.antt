-- ===== src/Alloc/Fixed.antt =====
-- The allocator of single blocks: `FixedBlkAllocator` of src/lib/blkalloc/fixed_blk_allocator.cpp over
-- the bitmap that it derives from. The queue of free blocks is `folly::MPMCQueue`: first in, first out,
-- with as many places as there are blocks. A portion is a run of as many blocks as fit one lock.
pub mod Queue
mod Tests
use home_store.Prelude.{
  ℕ, zero, suc, ◌+◌, ◌-◌, ◌/◌, Bool, true, false, not, ◌&&◌, ◌||◌, ltb, ◌==◌, if◌then◌else◌, Option,
  none, some, List, [], ◌∷◌, ◌++◌, length,
}
use home_store.Blk.{BlkId, make_blkid}
use home_store.Alloc.{BlkAllocStatus}
use home_store.Alloc.Bitmap.{Bitset, BitmapBlkAllocator, BlkRef, free_on_disk}

pub data State : Type 0 where
  recovering active : State

abbrev pub is_recovering : State → Bool
is_recovering State.recovering = true
is_recovering State.active = false

pub record FixedBlkAllocator (B : Type 0) : Type 0 where
  pub bitmap : BitmapBlkAllocator B
  pub blks_per_portion : ℕ
  pub state : State
  pub reserved_blks : List ℕ
  pub free_blk_q : List ℕ

-- `find` and `erase` of the set of reserved blocks.
abbrev pub is_member : ℕ → List ℕ → Bool
is_member b [] = false
is_member b (c ∷ cs) = b == c || is_member b cs

abbrev pub erase : ℕ → List ℕ → List ℕ
erase b [] = []
erase b (c ∷ cs) = if b == c then erase b cs else c ∷ erase b cs

-- Its `insert`.
abbrev pub insert_new : ℕ → List ℕ → List ℕ
insert_new b bs = if is_member b bs then bs else b ∷ bs

module _ {B : Type 0} (ops : Bitset B) where
  abbrev pub total_blks : FixedBlkAllocator B → ℕ
  total_blks a = a.bitmap.num_blks

  -- `write` of a full queue fails, which only a debug assertion looks at.
  abbrev pub write : ℕ → FixedBlkAllocator B → FixedBlkAllocator B
  write b a =
      if ltb (length a.free_blk_q) (total_blks a)
      then record a { free_blk_q = a.free_blk_q ++ b ∷ [] }
      else a

  unfoldable pub available_blks : FixedBlkAllocator B → ℕ
  available_blks a = length a.free_blk_q

  unfoldable pub get_used_blks : FixedBlkAllocator B → ℕ
  unfolding available_blks
  get_used_blks a = total_blks a - available_blks a

  -- The loop over the blocks of one portion, on fuel: the block after it, and the allocator.
  unfoldable pub init_portion : ℕ → ℕ → ℕ → FixedBlkAllocator B → ℕ × FixedBlkAllocator B
  init_portion zero portion blk_num a = (blk_num, a)
  init_portion (suc fuel) portion blk_num a =
      let pushed =
        if not a.bitmap.is_persistent || ops.is_bits_reset blk_num 1 a.bitmap.disk_bm
        then write blk_num a
        else a in
      let rest = init_portion fuel portion (blk_num + 1) pushed in
      if ltb blk_num (total_blks a)
      then if blk_num / a.blks_per_portion == portion then rest else (blk_num, a)
      else (blk_num, a)

  -- The loop over the portions, on fuel; a round per block is enough for either loop.
  unfoldable pub load_from : ℕ → ℕ → FixedBlkAllocator B → FixedBlkAllocator B
  load_from zero blk_num a = a
  load_from (suc fuel) blk_num a =
      let (next, b) = init_portion (total_blks a + 1) (blk_num / a.blks_per_portion) blk_num a in
      let rest = load_from fuel next b in if ltb blk_num (total_blks a) then rest else a

  unfoldable pub load : FixedBlkAllocator B → FixedBlkAllocator B
  load a = load_from (total_blks a + 1) 0 a

  -- The loop of `alloc` over the queue: the block, what is left of it, and the reserved blocks.
  unfoldable pub take_free : Bool → List ℕ → List ℕ → Option ℕ × List ℕ × List ℕ
  take_free booting reserved [] = (none, [], reserved)
  take_free booting reserved (b ∷ q) =
      let retry = take_free booting (erase b reserved) q in
      if booting && is_member b reserved then retry else (some b, q, reserved)

  unfoldable pub alloc : FixedBlkAllocator B → BlkAllocStatus × Option BlkId × FixedBlkAllocator B
  alloc a =
      let (got, q, reserved) = take_free (is_recovering a.state) a.reserved_blks a.free_blk_q in
      let b = record a { free_blk_q = q; reserved_blks = reserved } in
      elim got [
        | none ↦ (BlkAllocStatus.space_full, none, b)
        | some blk_num ↦ (BlkAllocStatus.success, some (make_blkid blk_num 1 a.bitmap.chunk_id), b)
      ]

  unfoldable pub reserve_on_cache :
      BlkId → FixedBlkAllocator B → BlkAllocStatus × FixedBlkAllocator B
  reserve_on_cache b a =
      if is_recovering a.state
      then (
        BlkAllocStatus.success,
        record a { reserved_blks = insert_new b.blk_num a.reserved_blks },
      )
      else (BlkAllocStatus.success, a)

  -- The loop of `recovery_completed`: `count` rounds, each of which takes a block off the queue and puts
  -- it back at the end if it is not reserved.
  unfoldable pub requeue : ℕ → List ℕ → FixedBlkAllocator B → FixedBlkAllocator B
  requeue zero reserved a = a
  requeue (suc count) reserved a = elim a.free_blk_q [
    | [] ↦ a
    | b ∷ q ↦ requeue count reserved (
        if is_member b reserved
        then record a { free_blk_q = q }
        else write b (record a { free_blk_q = q }))
  ]

  unfoldable pub recovery_completed : FixedBlkAllocator B → FixedBlkAllocator B
  unfolding available_blks
  recovery_completed a = elim a.reserved_blks [
    | [] ↦ record a { state = State.active }
    | b ∷ bs ↦ record (requeue (available_blks a) a.reserved_blks a) {
      reserved_blks = [];
      state = State.active;
    }
  ]

  unfoldable pub free : BlkId → FixedBlkAllocator B → FixedBlkAllocator B
  free b a =
      let pushed = write b.blk_num a in
      let unreserved =
        if is_recovering a.state
        then record pushed { reserved_blks = erase b.blk_num a.reserved_blks }
        else pushed in
      if a.bitmap.is_persistent
      then record unreserved { bitmap = free_on_disk ops (BlkRef.one b) a.bitmap }
      else unreserved
