-- ===== src/Alloc/Append.antt =====
-- The allocator that only appends: `AppendBlkAllocator` of src/lib/blkalloc/append_blk_allocator.cpp.
-- Each operation is one step: `fetch_add` is atomic, and the loops around `compare_exchange_weak` end
-- with the larger of two numbers.
pub mod Invariant
pub mod Alloc
pub mod Runs
pub mod Recovery
use home_store.Prelude.{
  ℕ, ◌+◌, ◌-◌, ◌%◌, ◌^◌, Bool, true, false, ltb, leb, if◌then◌else◌, Option, none, some,
}
use home_store.Blk.{BlkId, make_blkid, blk_count}
use home_store.Superblk.{Superblk, create, load, write, destroy}
use home_store.Alloc.{BlkAllocStatus, max_blks_per_blkid}

-- `append_blk_sb_t`.
pub record AppendBlkSb : Type 0 where
  pub magic : ℕ
  pub version : ℕ
  pub allocator_id : ℕ
  pub freeable_nblks : ℕ
  pub commit_offset : ℕ

abbrev pub append_blkalloc_sb_magic : ℕ
append_blkalloc_sb_magic = 3503345707

abbrev pub append_blkalloc_sb_version : ℕ
append_blkalloc_sb_version = 1

pub record AppendBlkAllocator : Type 0 where
  pub num_blks : ℕ
  pub chunk_id : ℕ
  pub last_append_offset : ℕ
  pub freeable_nblks : ℕ
  pub commit_offset : ℕ
  pub is_dirty : Bool
  pub sb : Superblk AppendBlkSb

-- The constructor; the counters start at 0 with and without `need_format`. The argument `stored` is
-- what the meta service holds under the allocator's name.
unfoldable pub make : ℕ → ℕ → Option AppendBlkSb → AppendBlkAllocator
unfolding create
make num_blks id stored = record {
  num_blks = num_blks;
  chunk_id = id;
  last_append_offset = 0;
  freeable_nblks = 0;
  commit_offset = 0;
  is_dirty = false;
  sb =
      create
        (record {
          magic = append_blkalloc_sb_magic;
          version = append_blkalloc_sb_version;
          allocator_id = id;
          freeable_nblks = 0;
          commit_offset = 0;
        })
        (record { sb = none; meta_blk = false; stored = stored });
}

-- Without the release assertions on magic and version, which what was written by `make` meets.
unfoldable pub on_meta_blk_found : AppendBlkSb → AppendBlkAllocator → AppendBlkAllocator
unfolding load
on_meta_blk_found found a = record a {
  sb = load found a.sb;
  last_append_offset = found.commit_offset;
  commit_offset = found.commit_offset;
  freeable_nblks = found.freeable_nblks;
}

unfoldable pub get_used_blks : AppendBlkAllocator → ℕ
get_used_blks a = a.last_append_offset

unfoldable pub available_blks : AppendBlkAllocator → ℕ
unfolding get_used_blks
available_blks a = (a.num_blks + 2 ^ 32 - get_used_blks a) % 2 ^ 32

unfoldable pub get_defrag_nblks : AppendBlkAllocator → ℕ
get_defrag_nblks a = a.freeable_nblks

-- What `reserved_blks`, if it is given, leaves of the available blocks.
abbrev pub without_reserved : Option ℕ → ℕ → ℕ
without_reserved none avail = avail
without_reserved (some reserved) avail = if ltb reserved avail then avail - reserved else 0

-- The status, the block id if one was written, and the allocator afterwards.
unfoldable pub alloc :
    ℕ → Option ℕ → AppendBlkAllocator → BlkAllocStatus × Option BlkId × AppendBlkAllocator
unfolding available_blks
alloc nblks reserved_blks a =
    if ltb (without_reserved reserved_blks (available_blks a)) nblks
    then (BlkAllocStatus.space_full, none, a)
    else if ltb max_blks_per_blkid nblks
    then (BlkAllocStatus.failed, none, a)
    else (
      BlkAllocStatus.success,
      some (make_blkid a.last_append_offset nblks a.chunk_id),
      record a { last_append_offset = (a.last_append_offset + nblks) % 2 ^ 32 },
    )

unfoldable pub alloc_contiguous :
    AppendBlkAllocator → BlkAllocStatus × Option BlkId × AppendBlkAllocator
unfolding alloc
alloc_contiguous a = alloc 1 none a

unfoldable pub reserve_on_disk : BlkId → AppendBlkAllocator → BlkAllocStatus × AppendBlkAllocator
unfolding blk_count
reserve_on_disk b a =
    let new_offset = b.blk_num + blk_count b in
    if leb new_offset a.commit_offset
    then (BlkAllocStatus.success, a)
    else (BlkAllocStatus.success, record a { commit_offset = new_offset; is_dirty = true })

unfoldable pub reserve_on_cache : BlkId → AppendBlkAllocator → BlkAllocStatus × AppendBlkAllocator
unfolding blk_count
reserve_on_cache b a =
    let new_offset = b.blk_num + blk_count b in
    if leb new_offset a.last_append_offset
    then (BlkAllocStatus.success, a)
    else (BlkAllocStatus.success, record a { last_append_offset = new_offset })

-- `none` is the use of the superblock after `reset` has destroyed it.
unfoldable pub cp_flush : AppendBlkAllocator → Option AppendBlkAllocator
unfolding write
cp_flush a =
    if a.is_dirty
    then (elim a.sb.sb [
      | none ↦ none
      | some x ↦
          (elim (write (record a.sb {
            sb =
                some
                  (record x { commit_offset = a.commit_offset; freeable_nblks = a.freeable_nblks });
          })) [ none ↦ none | some s ↦ some (record a { is_dirty = false; sb = s }) ])
    ])
    else some a

unfoldable pub free : BlkId → AppendBlkAllocator → AppendBlkAllocator
unfolding blk_count
free b a = record a { freeable_nblks = (a.freeable_nblks + blk_count b) % 2 ^ 32; is_dirty = true }

unfoldable pub is_blk_alloced : BlkId → AppendBlkAllocator → Bool
unfolding get_used_blks
is_blk_alloced b a = ltb b.blk_num (get_used_blks a)

unfoldable pub reset : AppendBlkAllocator → AppendBlkAllocator
unfolding destroy
reset a = record a { is_dirty = false; sb = destroy a.sb }

unfoldable pub is_blk_alloced_on_disk : BlkId → AppendBlkAllocator → Bool
is_blk_alloced_on_disk b a = elim a.sb.sb [ none ↦ false | some x ↦ ltb b.blk_num x.commit_offset ]
