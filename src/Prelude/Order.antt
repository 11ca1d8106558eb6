-- ===== src/Prelude/Order.antt =====
-- Comparison functions into `lt`, `eq`, `gt` (a C++ `compare` that returns an int below, at or
-- above 0), and what makes one a total order.
use home_store.Prelude.{ℕ, ◌≡◌, Ordering, ltb, if◌then◌else◌, arith}

abbrev pub flip : Ordering → Ordering
flip Ordering.lt = Ordering.gt
flip Ordering.eq = Ordering.eq
flip Ordering.gt = Ordering.lt

pub record IsOrder {ℓ} {K : Type ℓ} (cmp : K → K → Ordering) : Type ℓ where
  pub flips : (a b : K) → cmp b a ≡ flip (cmp a b)
  pub trans : (a b c : K) → cmp a b ≡ Ordering.lt → cmp b c ≡ Ordering.lt → cmp a c ≡ Ordering.lt
  pub same : (a b c : K) → cmp a b ≡ Ordering.eq → cmp a c ≡ cmp b c

module _ {ℓ} {K : Type ℓ} {cmp : K → K → Ordering} (o : IsOrder cmp) where
  pub lt_of_gt : (a b : K) → cmp a b ≡ Ordering.gt → cmp b a ≡ Ordering.lt
  lt_of_gt a b h = ground (arith, o.flips a b)

  pub gt_of_lt : (a b : K) → cmp a b ≡ Ordering.lt → cmp b a ≡ Ordering.gt
  gt_of_lt a b h = ground (arith, o.flips a b)

  pub eq_of_eq : (a b : K) → cmp a b ≡ Ordering.eq → cmp b a ≡ Ordering.eq
  eq_of_eq a b h = ground (arith, o.flips a b)

  -- What lies above a key that is at or above `k` lies above `k`.
  pub gt_of_above :
      (a b k : K) → cmp a b ≡ Ordering.lt → (cmp a k ≡ Ordering.lt → ⊥) → cmp b k ≡ Ordering.gt
  gt_of_above a b k h n =
      ground
        (arith, o.flips a k, o.flips a b, o.flips b k, o.trans k a b, o.same a k b, o.flips k b)

abbrev pub compare_nat : ℕ → ℕ → Ordering
compare_nat a b = if ltb a b then Ordering.lt else if ltb b a then Ordering.gt else Ordering.eq

pub compare_nat-IsOrder : IsOrder compare_nat
compare_nat-IsOrder = record {
  flips = λ a b. ground arith;
  trans = λ a b c h k. ground arith;
  same = λ a b c h. ground arith;
}
