-- ===== src/Blk/Order.antt =====
-- `BlkId::compare` as an order on block ids.
use home_store.Prelude.{◌≡◌, ◌↔◌, Ordering, arith}
use home_store.Blk.{BlkId, blk_count, compare}

-- The order in which ids stand, by chunk, then block number, then count.
abbrev pub swap : Ordering → Ordering
swap Ordering.lt = Ordering.gt
swap Ordering.eq = Ordering.eq
swap Ordering.gt = Ordering.lt

-- Comparing in the other order gives the opposite answer.
pub compare-swap : (a b : BlkId) → compare b a ≡ swap (compare a b)
unfolding compare
compare-swap a b = ground arith

-- Two ids compare as equal exactly when chunk, block number and count agree; the multi bit is not
-- looked at.
pub compare-eq_iff :
    (a b : BlkId)
    → (compare a b ≡ Ordering.eq)
      ↔ ((a.chunk_num ≡ b.chunk_num) × (a.blk_num ≡ b.blk_num) × (blk_count a ≡ blk_count b))
unfolding compare
compare-eq_iff a b = (ground arith, ground arith)

-- An id that is below one that is below a third is below the third.
pub compare_trans :
    (a b c : BlkId)
    → compare a b ≡ Ordering.lt
    → compare b c ≡ Ordering.lt
    → compare a c ≡ Ordering.lt
unfolding compare
compare_trans a b c h k = ground arith
