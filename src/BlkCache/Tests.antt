-- ===== src/BlkCache/Tests.antt =====
-- The cache of free blocks of src/lib/blkalloc/blk_cache_queue.cpp at concrete inputs.
use home_store.Prelude.{ℕ, ◌≡◌, refl, some, false, List, [], ◌∷◌, arith}
use home_store.BlkCache.{BlkCacheEntry, LevelQueue, Slab, push, pop, try_free_blks, find_slab}
use home_store.BlkCache.Slabs.{sizes, ArePowers}
use home_store.BlkCache.Alloc.{AllocStatus, success, AllocReq, AllocResp, try_alloc_in_slab}
use home_store.BlkCache.Alloc.Pops.{CacheFit}
use home_store.BlkCache.Alloc.Allocs.{Allocated, try_alloc_in_slab-Allocated}
use home_store.BlkCache.Free.{Freed, try_free_blks-Freed}

abbrev entry : ℕ → ℕ → BlkCacheEntry
entry blk_num nblks = record { blk_num = blk_num; nblks = nblks; temp = 0 }

abbrev queue : ℕ → LevelQueue
queue limit = record { limit = limit; entries = [] }

-- Slabs of 1, 2 and 4 blocks; the second has no room.
abbrev three_slabs : List Slab
three_slabs =
    record { slab_size = 1; levels = queue 2 ∷ [] }
    ∷ record { slab_size = 2; levels = queue 0 ∷ queue 0 ∷ [] }
    ∷ record { slab_size = 4; levels = queue 0 ∷ queue 2 ∷ [] }
    ∷ []

three_slabs-ArePowers : ArePowers 0 (sizes three_slabs)
three_slabs-ArePowers = (refl, (refl, (refl, tt)))

try_free_blks-Freed_example :
    (n : ℕ) × (x : List BlkCacheEntry) × (t : List Slab) × (try_free_blks
        (entry 10 7)
        []
        three_slabs
      ≡ some (n, x, t))
    × Freed (entry 10 7) [] three_slabs n x t
try_free_blks-Freed_example =
    try_free_blks-Freed (entry 10 7) [] three_slabs (omega arith) (omega arith)
      three_slabs-ArePowers (omega arith)

-- Seven blocks go into the slabs of 4 and 1, and the two between are in excess.
freed_seven :
    try_free_blks (entry 10 7) [] three_slabs
    ≡ some (
      2,
      entry 14 2 ∷ [],
      record { slab_size = 1; levels = record { limit = 2; entries = entry 16 1 ∷ [] } ∷ [] }
          ∷ record { slab_size = 2; levels = queue 0 ∷ queue 0 ∷ [] }
          ∷ record {
            slab_size = 4;
            levels = queue 0 ∷ record { limit = 2; entries = entry 10 4 ∷ [] } ∷ [];
          }
          ∷ [],
    )
unfolding try_free_blks push
freed_seven = refl

-- The level that a pop returns is the one that it was asked for.
popped_elsewhere :
    pop 0 false (queue 2 ∷ record { limit = 2; entries = entry 10 4 ∷ [] } ∷ [])
    ≡ some (0, entry 10 4, queue 2 ∷ queue 2 ∷ [])
unfolding pop
popped_elsewhere = refl

slabs_of_five : find_slab 5 ≡ 3
slabs_of_five = refl

-- Slabs of 1, 2 and 4 blocks, with two entries in the last.
abbrev filled_slabs : List Slab
filled_slabs =
    record { slab_size = 1; levels = queue 2 ∷ [] }
    ∷ record { slab_size = 2; levels = queue 2 ∷ [] }
    ∷ record {
      slab_size = 4;
      levels =
          record { limit = 2; entries = entry 0 4 ∷ [] }
          ∷ record { limit = 2; entries = entry 8 4 ∷ [] }
          ∷ [];
    }
    ∷ []

filled_slabs-ArePowers : ArePowers 0 (sizes filled_slabs)
filled_slabs-ArePowers = (refl, (refl, (refl, tt)))

filled_slabs-CacheFit : CacheFit filled_slabs
filled_slabs-CacheFit =
    ((tt, tt), ((tt, tt), (((refl, omega arith, tt), ((refl, omega arith, tt), tt)), tt)))

abbrev five_blks : AllocReq
five_blks = record { nblks = 5; preferred_level = 0; is_contiguous = false }

abbrev no_blks : AllocResp
no_blks = record {
  nblks_alloced = 0;
  nblks_zombied = 0;
  need_refill = false;
  out_blks = [];
  excess_blks = [];
}

try_alloc_in_slab-Allocated_example :
    (st : AllocStatus) × (r : AllocResp) × (t : List Slab) × (try_alloc_in_slab 2 five_blks no_blks
        filled_slabs
      ≡ some (st, r, t))
    × Allocated 4 five_blks no_blks filled_slabs st r t
try_alloc_in_slab-Allocated_example =
    try_alloc_in_slab-Allocated 2 4 five_blks no_blks filled_slabs filled_slabs-ArePowers
      filled_slabs-CacheFit refl refl (omega arith) (omega arith)

-- Two entries are taken, and the last three blocks go back.
allocated_five :
    try_alloc_in_slab 2 five_blks no_blks filled_slabs
    ≡ some (
      success,
      record {
        nblks_alloced = 5;
        nblks_zombied = 0;
        need_refill = false;
        out_blks = entry 0 4 ∷ entry 8 1 ∷ [];
        excess_blks = [];
      },
      record { slab_size = 1; levels = record { limit = 2; entries = entry 11 1 ∷ [] } ∷ [] }
          ∷ record { slab_size = 2; levels = record { limit = 2; entries = entry 9 2 ∷ [] } ∷ [] }
          ∷ record { slab_size = 4; levels = queue 2 ∷ queue 2 ∷ [] }
          ∷ [],
    )
unfolding try_alloc_in_slab try_free_blks push pop
allocated_five = refl
