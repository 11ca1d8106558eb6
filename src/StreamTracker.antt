-- ===== src/StreamTracker.antt =====
-- The stream tracker of the sisl library, which src/lib/logstore/log_store.cpp keeps its records in: a
-- window of slots by number, as an interface.
use home_store.Prelude.{
  ℕ, suc, ◌+◌, ◌≤◌, ◌<◌, ◌≡◌, ◌≢◌, Bool, true, false, ◌||◌, ◌==◌, Option, some, get_elem?, length,
  List, [], ◌∷◌,
}

-- What the status of a slot says.
pub record SlotStatus : Type 0 where
  pub is_out_of_range : Bool
  pub is_hole : Bool
  pub is_completed : Bool

-- `first` is the lowest number that is not truncated; `at` is none where the library throws.
pub record StreamTracker (T : Type 0) (R : Type 0) : Type 0 where
  -- Without slots, above a number.
  pub new : ℕ → R
  pub at : ℕ → R → Option T
  pub first : R → ℕ
  pub status : ℕ → R → SlotStatus
  pub create : ℕ → R → R
  pub update : ℕ → (T → T) → R → R
  pub create_and_complete : ℕ → T → R → R
  pub truncate : ℕ → R → R
  pub rollback : ℕ → R → R

-- What the code relies on.
pub record IsStreamTracker {T R : Type 0} (ops : StreamTracker T R) : Type 0 where
  pub new_first : (n : ℕ) → ops.first (ops.new n) ≤ suc n
  pub create_first : (n : ℕ) (r : R) → ops.first (ops.create n r) ≡ ops.first r
  pub create_other : (n m : ℕ) (r : R) → m ≢ n → ops.at m (ops.create n r) ≡ ops.at m r
  pub update_first : (n : ℕ) (f : T → T) (r : R) → ops.first (ops.update n f r) ≡ ops.first r
  pub update_other :
      (n m : ℕ) (f : T → T) (r : R) → m ≢ n → ops.at m (ops.update n f r) ≡ ops.at m r
  pub update_at :
      (n : ℕ) (f : T → T) (r : R)
      → ops.first r ≤ n
      → (x : T) × (ops.at n (ops.update n f r) ≡ some (f x))
  pub complete_first :
      (n : ℕ) (x : T) (r : R) → ops.first (ops.create_and_complete n x r) ≡ ops.first r
  pub complete_other :
      (n m : ℕ) (x : T) (r : R) → m ≢ n → ops.at m (ops.create_and_complete n x r) ≡ ops.at m r
  pub complete_at :
      (n : ℕ) (x : T) (r : R) → ops.first r ≤ n → ops.at n (ops.create_and_complete n x r) ≡ some x
  pub truncate_first : (n : ℕ) (r : R) → ops.first r ≤ suc n → ops.first (ops.truncate n r) ≤ suc n
  pub truncate_above : (n m : ℕ) (r : R) → n < m → ops.at m (ops.truncate n r) ≡ ops.at m r
  pub rollback_first : (n : ℕ) (r : R) → ops.first (ops.rollback n r) ≡ ops.first r
  pub rollback_below : (n m : ℕ) (r : R) → m ≤ n → ops.at m (ops.rollback n r) ≡ ops.at m r

-- Its scans over the slots that are in use and that are completed.
pub record Scans (T : Type 0) (R : Type 0) : Type 0 where
  pub active : ℕ → R → Bool
  pub completed : ℕ → R → Bool
  -- The last of the contiguous ones from a number on.
  pub active_upto : ℕ → R → ℕ
  pub completed_upto : ℕ → R → ℕ
  pub foreach_all_completed : ℕ → R → List (ℕ × T)

abbrev pub enumerated {ℓ} : {A : Type ℓ} → ℕ → List A → List (ℕ × A)
enumerated n [] = []
enumerated n (x ∷ xs) = (n, x) ∷ enumerated (suc n) xs

pub record AreScans {T R : Type 0} (ops : StreamTracker T R) (scans : Scans T R) : Type 0 where
  pub new_start : (n : ℕ) → ops.first (ops.new n) ≡ suc n
  pub truncate_start : (n : ℕ) (r : R) → ops.first r ≤ suc n → ops.first (ops.truncate n r) ≡ suc n
  pub new_active : (n m : ℕ) → scans.active m (ops.new n) ≡ false
  pub new_completed : (n m : ℕ) → scans.completed m (ops.new n) ≡ false
  pub create_active :
      (n m : ℕ) (r : R)
      → ops.first r ≤ n
      → scans.active m (ops.create n r) ≡ (m == n || scans.active m r)
  pub create_completed :
      (n m : ℕ) (r : R) → scans.completed m (ops.create n r) ≡ scans.completed m r
  pub update_active :
      (n m : ℕ) (f : T → T) (r : R)
      → scans.active n r ≡ true
      → scans.active m (ops.update n f r) ≡ scans.active m r
  pub update_completed :
      (n m : ℕ) (f : T → T) (r : R)
      → scans.active n r ≡ true
      → scans.completed m (ops.update n f r) ≡ (m == n || scans.completed m r)
  pub truncate_active :
      (n m : ℕ) (r : R) → n < m → scans.active m (ops.truncate n r) ≡ scans.active m r
  pub truncate_completed :
      (n m : ℕ) (r : R) → n < m → scans.completed m (ops.truncate n r) ≡ scans.completed m r
  pub complete_active :
      (n m : ℕ) (x : T) (r : R)
      → m ≢ n
      → scans.active m (ops.create_and_complete n x r) ≡ scans.active m r
  pub complete_completed :
      (n m : ℕ) (x : T) (r : R)
      → m ≢ n
      → scans.completed m (ops.create_and_complete n x r) ≡ scans.completed m r
  pub rollback_active :
      (n m : ℕ) (r : R) → m ≤ n → scans.active m (ops.rollback n r) ≡ scans.active m r
  pub rollback_completed :
      (n m : ℕ) (r : R) → m ≤ n → scans.completed m (ops.rollback n r) ≡ scans.completed m r
  pub rollback_inactive : (n m : ℕ) (r : R) → n < m → scans.active m (ops.rollback n r) ≡ false
  pub rollback_uncompleted :
      (n m : ℕ) (r : R) → n < m → scans.completed m (ops.rollback n r) ≡ false
  -- What the status of a number that is not truncated says.
  pub status_range :
      (n : ℕ) (r : R) → scans.active n r ≡ true → (ops.status n r).is_out_of_range ≡ false
  pub status_used : (n : ℕ) (r : R) → scans.active n r ≡ true → (ops.status n r).is_hole ≡ false
  pub status_unused :
      (n : ℕ) (r : R)
      → scans.active n r ≡ false
      → ((ops.status n r).is_out_of_range || (ops.status n r).is_hole) ≡ true
  pub status_completed :
      (n : ℕ) (r : R)
      → scans.active n r ≡ true
      → (ops.status n r).is_completed ≡ scans.completed n r
  -- From `n`, or from the first number, up to `m`.
  pub active_upto_last :
      (n m : ℕ) (r : R)
      → n ≤ suc m
      → ops.first r ≤ suc m
      → ((k : ℕ) → n ≤ k → ops.first r ≤ k → k ≤ m → scans.active k r ≡ true)
      → scans.active (suc m) r ≡ false
      → scans.active_upto n r ≡ m
  pub completed_upto_last :
      (n m : ℕ) (r : R)
      → n ≤ suc m
      → ops.first r ≤ suc m
      → ((k : ℕ) → n ≤ k → ops.first r ≤ k → k ≤ m → scans.completed k r ≡ true)
      → scans.completed (suc m) r ≡ false
      → scans.completed_upto n r ≡ m
  pub foreach_visits :
      (n : ℕ) (xs : List T) (r : R)
      → ops.first r ≤ n
      → ((i : ℕ) (x : T) → get_elem? xs i ≡ some x → (ops.at (n + i) r ≡ some x))
      → ((k : ℕ) → n ≤ k → k < n + length xs → scans.completed k r ≡ true)
      → ((k : ℕ) → n + length xs ≤ k → scans.completed k r ≡ false)
      → scans.foreach_all_completed n r ≡ enumerated n xs
