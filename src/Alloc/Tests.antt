-- ===== src/Alloc/Tests.antt =====
-- Runs of the allocators.
use home_store.Prelude.{ℕ, ◌+◌, ◌≤◌, ◌<◌, ◌≡◌, refl, Option, none, some, [], ◌∷◌, true, arith}
use home_store.Blk.{BlkId, make_blkid}
use home_store.Alloc.{BlkAllocStatus}
use home_store.Alloc.Append.{
  AppendBlkAllocator, make, alloc, reserve_on_disk, cp_flush, is_blk_alloced, available_blks,
}
use home_store.Alloc.Append.Invariant.{IsValid, make-IsValid}
use home_store.Alloc.Append.Alloc.{Answers, alloc-Answers}
use home_store.Alloc.Append.Runs.{Steps, Steps-disjoint}
use home_store.Alloc.Append.Recovery.{
  InSync, restart, boot, Flushed, cp_flush-Flushed, restart-after_commit,
}

abbrev chunk : AppendBlkAllocator
chunk = make 100 3 none

chunk-IsValid : IsValid chunk
chunk-IsValid = make-IsValid 100 3 none (omega arith)

abbrev after_ten : AppendBlkAllocator
after_ten = (alloc 10 none chunk).2

full_run : alloc 10 (some 95) chunk ≡ (BlkAllocStatus.space_full, none, chunk)
unfolding alloc make available_blks
full_run = refl

alloc-Answers_example : Answers 10 (some 20) chunk (alloc 10 (some 20) chunk)
alloc-Answers_example = alloc-Answers 10 (some 20) chunk chunk-IsValid (omega arith)

abbrev ten_blks : BlkId
ten_blks = make_blkid 0 10 3

abbrev five_blks : BlkId
five_blks = make_blkid 10 5 3

two_allocs : Steps chunk (ten_blks ∷ five_blks ∷ []) (alloc 5 none after_ten).2
unfolding alloc make available_blks
two_allocs =
    Steps.allocated 10 none ten_blks (omega arith) refl
      (Steps.allocated 5 none five_blks (omega arith) refl Steps.stop)

Steps-disjoint_example : (0 ≤ 0) × (0 + 10 ≤ 10) × (10 + 5 ≤ 100)
unfolding make
Steps-disjoint_example =
    Steps-disjoint two_allocs chunk-IsValid 0 1 ten_blks five_blks (omega arith) refl refl

after_ten-IsValid : IsValid after_ten
unfolding alloc make available_blks
after_ten-IsValid = record { small = omega arith; committed = omega arith; within = omega arith }

after_ten-InSync : InSync after_ten
unfolding alloc make available_blks restart boot
after_ten-InSync = record { live = (_, refl); clean = λ e. (refl, refl) }

cp_flush-Flushed_example :
    (c : AppendBlkAllocator) × (cp_flush after_ten ≡ some c) × Flushed after_ten c
cp_flush-Flushed_example = cp_flush-Flushed after_ten after_ten-InSync

restart-after_commit_example :
    (c : AppendBlkAllocator) × (cp_flush (reserve_on_disk ten_blks after_ten).1 ≡ some c)
    × IsValid (restart c)
    × ((i : ℕ) → i < 10 → is_blk_alloced (record ten_blks { blk_num = 0 + i }) (restart c) ≡ true)
    × ((nblks : ℕ) (reserved : Option ℕ) (d : BlkId) (e : AppendBlkAllocator)
        → 0 < nblks
        → alloc nblks reserved (restart c) ≡ (BlkAllocStatus.success, some d, e)
        → 0 + 10 ≤ d.blk_num)
unfolding alloc make available_blks
restart-after_commit_example =
    restart-after_commit after_ten ten_blks after_ten-InSync after_ten-IsValid (omega arith)
