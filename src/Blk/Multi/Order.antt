-- ===== src/Blk/Multi/Order.antt =====
-- `MultiBlkId::compare` over an interval set whose order is a strict one.
use home_store.Prelude.{◌≡◌, true, false, arith}
use home_store.Blk.Order.{swap, compare-swap}
use home_store.Blk.Multi.{MultiBlkId, IntervalSet, interval_set, compare}

-- Comparing in the other order gives the opposite answer, if the order of interval sets (boost's)
-- is asymmetric.
pub multi_compare-swap :
    (icl : IntervalSet)
    → ((s t : icl.Carrier) → icl.less s t ≡ true → icl.less t s ≡ false)
    → (a b : MultiBlkId) → compare icl b a ≡ swap (compare icl a b)
unfolding compare
multi_compare-swap icl asym a b = ground (
  arith,
  compare-swap a.base b.base,
  asym (interval_set icl a) (interval_set icl b),
  asym (interval_set icl b) (interval_set icl a),
)
