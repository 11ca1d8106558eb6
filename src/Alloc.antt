-- ===== src/Alloc.antt =====
-- The block allocators of src/lib/blkalloc, one for each chunk of a device.
pub mod Append
pub mod Bitmap
pub mod Fixed
mod Tests
use home_store.Prelude.{ℕ, Option}

-- `VENUM(BlkAllocStatus)` of src/include/homestore/blk.h.
pub data BlkAllocStatus : Type 0 where
  blk_alloc_none success failed req_more space_full invalid_dev partial invalid_thread invalid_input
        too_many_pieces :
      BlkAllocStatus

-- `max_blks_per_blkid()`.
abbrev pub max_blks_per_blkid : ℕ
max_blks_per_blkid = 65535
