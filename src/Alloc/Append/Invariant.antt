-- ===== src/Alloc/Append/Invariant.antt =====
-- What every operation keeps true of the allocator.
use home_store.Prelude.{ℕ, ◌+◌, ◌-◌, ◌^◌, ◌≤◌, ◌≡◌, Option, some, arith}
use home_store.Blk.{BlkId, blk_count}
use home_store.Superblk.{write}
use home_store.Alloc.Append.{
  AppendBlkSb, AppendBlkAllocator, make, available_blks, get_used_blks, reserve_on_disk,
  reserve_on_cache, cp_flush, free,
}

-- Offsets are in order and within the chunk, whose block numbers fit into 31 bits.
pub record IsValid (a : AppendBlkAllocator) : Type 0 where
  pub small : a.num_blks ≤ 2 ^ 31
  pub committed : a.commit_offset ≤ a.last_append_offset
  pub within : a.last_append_offset ≤ a.num_blks

pub make-IsValid :
    (num_blks id : ℕ) (stored : Option AppendBlkSb)
    → num_blks ≤ 2 ^ 31
    → IsValid (make num_blks id stored)
unfolding make
make-IsValid num_blks id stored h = ground arith

pub reserve_on_disk-IsValid :
    (b : BlkId) (a : AppendBlkAllocator)
    → b.blk_num + blk_count b ≤ a.last_append_offset
    → IsValid a
    → IsValid (reserve_on_disk b a).1
unfolding reserve_on_disk
reserve_on_disk-IsValid b a h v = ground arith

pub reserve_on_cache-IsValid :
    (b : BlkId) (a : AppendBlkAllocator)
    → b.blk_num + blk_count b ≤ a.num_blks
    → IsValid a
    → IsValid (reserve_on_cache b a).1
unfolding reserve_on_cache
reserve_on_cache-IsValid b a h v = ground arith

pub free-IsValid : (b : BlkId) (a : AppendBlkAllocator) → IsValid a → IsValid (free b a)
unfolding free
free-IsValid b a v = record { small = v.small; committed = v.committed; within = v.within }

-- A flush leaves every offset as it is.
pub cp_flush-same :
    (a c : AppendBlkAllocator)
    → cp_flush a ≡ some c
    → (c.num_blks ≡ a.num_blks)
      × (c.last_append_offset ≡ a.last_append_offset)
      × (c.commit_offset ≡ a.commit_offset)
unfolding cp_flush write
cp_flush-same a c e = ground arith

pub cp_flush-IsValid : (a c : AppendBlkAllocator) → cp_flush a ≡ some c → IsValid a → IsValid c
cp_flush-IsValid a c e v =
    let (n, l, o) = cp_flush-same a c e in
    record {
      small = omega (arith, n, v.small);
      committed = omega (arith, l, o, v.committed);
      within = omega (arith, n, l, v.within);
    }

pub available_blks-eq :
    (a : AppendBlkAllocator) → IsValid a → available_blks a ≡ a.num_blks - a.last_append_offset
unfolding available_blks get_used_blks
available_blks-eq a v = omega (arith, v.small, v.within)
