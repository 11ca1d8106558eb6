-- ===== src/HomeLogStore/Device/Window.antt =====
-- A stream tracker: a window of slots, of which those below `top` are in use or free.
use home_store.Prelude.{
  ℕ, zero, suc, ◌+◌, ◌-◌, ◌≤◌, ◌<◌, ◌≡◌, refl, ap, ◌∙◌, max, Bool, true, false, not, ◌&&◌, ◌||◌,
  ltb, leb, ◌==◌, if◌then◌else◌, dec_le, some, none, get_elem?, List, [], ◌∷◌, length, arith,
}
use home_store.StreamTracker.{StreamTracker, IsStreamTracker, Scans, AreScans, enumerated}
use home_store.HomeLogStore.{LogstoreRecord}

pub record Window : Type 0 where
  pub low : ℕ
  pub top : ℕ
  pub item : ℕ → LogstoreRecord
  pub used : ℕ → Bool
  pub whole : ℕ → Bool

abbrev nothing : LogstoreRecord
nothing = record {
  dev_key = record { idx = 0; dev_offset = 0 };
  trunc_key = record { idx = 0; dev_offset = 0 };
}

abbrev pub in_use : ℕ → Window → Bool
in_use n r = ltb n r.top && r.used n

abbrev pub is_whole : ℕ → Window → Bool
is_whole n r = ltb n r.top && r.whole n

abbrev pub window : StreamTracker LogstoreRecord Window
window = record {
  new = λ n. record {
    low = suc n;
    top = 0;
    item = λ m. nothing;
    used = λ m. false;
    whole = λ m. false;
  };
  at = λ n r. if ltb n r.low then none else some (r.item n);
  first = λ r. r.low;
  status = λ n r. record {
    is_out_of_range = leb r.top n;
    is_hole = not (r.used n);
    is_completed = r.whole n;
  };
  create = λ n r. record r {
    top = max r.top (suc n);
    used = λ m. m == n || in_use m r;
    whole = λ m. is_whole m r;
  };
  update = λ n f r. record r {
    item = λ m. if m == n then f (r.item n) else r.item m;
    whole = λ m. m == n || r.whole m;
  };
  create_and_complete = λ n x r. record r {
    top = max r.top (suc n);
    item = λ m. if m == n then x else r.item m;
    used = λ m. m == n || in_use m r;
    whole = λ m. m == n || is_whole m r;
  };
  truncate = λ n r. record r { low = max r.low (suc n) };
  rollback = λ n r. record r { top = if ltb (suc n) r.top then suc n else r.top };
}

-- The end of the contiguous slots from one on.
unfoldable pub upto : (ℕ → Bool) → ℕ → ℕ → ℕ
upto test zero k = k - 1
upto test (suc fuel) k = if test k then upto test fuel (suc k) else k - 1

unfoldable pub collect : Window → ℕ → ℕ → List (ℕ × LogstoreRecord)
collect r zero k = []
collect r (suc fuel) k =
    let rest = collect r fuel (suc k) in if is_whole k r then (k, r.item k) ∷ rest else rest

abbrev pub window_scans : Scans LogstoreRecord Window
window_scans = record {
  active = in_use;
  completed = is_whole;
  active_upto = λ n r. upto (λ k. in_use k r) (suc r.top) (max n r.low);
  completed_upto = λ n r. upto (λ k. is_whole k r) (suc r.top) (max n r.low);
  foreach_all_completed = λ n r. collect r (r.top - n) n;
}

pub window-IsStreamTracker : IsStreamTracker window
window-IsStreamTracker = record {
  new_first = λ n. omega arith;
  create_first = λ n r. refl;
  create_other = λ n m r h. refl;
  update_first = λ n f r. refl;
  update_other = λ n m f r h. ground arith;
  update_at = λ n f r h. (r.item n, ground arith);
  complete_first = λ n x r. refl;
  complete_other = λ n m x r h. ground arith;
  complete_at = λ n x r h. ground arith;
  truncate_first = λ n r h. omega arith;
  truncate_above = λ n m r h. ground arith;
  rollback_first = λ n r. refl;
  rollback_below = λ n m r h. refl;
}

upto-last :
    (test : ℕ → Bool) (m fuel k : ℕ)
    → k ≤ suc m
    → suc m - k < fuel
    → ((j : ℕ) → k ≤ j → j ≤ m → test j ≡ true)
    → test (suc m) ≡ false
    → upto test fuel k ≡ m
unfolding upto
upto-last test m zero k h f all last = absurd (omega arith)
upto-last test m (suc fuel) k h f all last = elim (dec_le k m) [
  | yes le ↦
      let here = all k (omega arith) (ground arith) in
      let rest =
        upto-last test m fuel (suc k) (omega arith) (omega arith) (λ j a b. all j (omega arith) b)
          last in
      ground arith
  | no nle ↦
      let end : k ≡ suc m = ground arith in
      let here : test k ≡ false = ap test end ∙ last in ground arith
]

below_top : (b : Bool) (n m : ℕ) → (ltb n m && b) ≡ true → n < m
below_top b n m h = ground arith

collect-enumerated :
    (r : Window) (fuel k : ℕ) (xs : List LogstoreRecord)
    → length xs ≤ fuel
    → ((i : ℕ) (x : LogstoreRecord) → get_elem? xs i ≡ some x → r.item (k + i) ≡ x)
    → ((j : ℕ) → k ≤ j → j < k + length xs → is_whole j r ≡ true)
    → ((j : ℕ) → k + length xs ≤ j → is_whole j r ≡ false)
    → collect r fuel k ≡ enumerated k xs
unfolding collect
collect-enumerated r zero k [] f at ins out = refl
collect-enumerated r zero k (x ∷ xs) f at ins out = absurd (omega arith)
collect-enumerated r (suc fuel) k [] f at ins out =
    let here = out k (omega arith) in
    let rest =
      collect-enumerated r fuel (suc k) [] (omega arith) (λ i x e. absurd (cc))
        (λ j a b. absurd (omega arith)) (λ j a. out j (omega arith)) in
    ap (λ b. if b then (k, r.item k) ∷ collect r fuel (suc k) else collect r fuel (suc k)) here
    ∙ rest
collect-enumerated r (suc fuel) k (x ∷ xs) f at ins out =
    let here = ins k (omega arith) (omega arith) in
    let rest =
      collect-enumerated r fuel (suc k) xs (omega arith)
        (λ i y e. ap r.item (omega arith) ∙ at (suc i) y e)
        (λ j a b. ins j (omega arith) (omega arith)) (λ j a. out j (omega arith)) in
    let same : r.item k ≡ x = ap r.item (omega arith) ∙ at 0 x refl in
    ap (λ b. if b then (k, r.item k) ∷ collect r fuel (suc k) else collect r fuel (suc k)) here
    ∙ ap (λ y. (k, y) ∷ collect r fuel (suc k)) same
    ∙ ap (λ l. (k, x) ∷ l) rest

item_at : (r : Window) (n : ℕ) (x : LogstoreRecord) → window.at n r ≡ some x → r.item n ≡ x
item_at r n x h = ground arith

-- As many as fit below the top.
fits_below :
    (r : Window) (n : ℕ) (len : ℕ)
    → ((k : ℕ) → n ≤ k → k < n + len → is_whole k r ≡ true)
    → len ≤ r.top - n
fits_below r n zero h = omega arith
fits_below r n (suc len) h =
    let lt =
      below_top (r.whole (n + len)) (n + len) r.top (h (n + len) (omega arith) (omega arith)) in
    omega arith

upto_room :
    (test : ℕ → Bool) (r : Window) (k m : ℕ)
    → k ≤ suc m
    → ((j : ℕ) → test j ≡ true → j < r.top)
    → ((j : ℕ) → k ≤ j → j ≤ m → test j ≡ true)
    → suc m - k < suc r.top
upto_room test r k m h lt all = elim (dec_le k m) [
  | yes le ↦ omega (arith, lt m (all m (ground arith) (omega arith)))
  | no nle ↦ ground arith
]

pub window-AreScans : AreScans window window_scans
window-AreScans = record {
  new_start = λ n. refl;
  truncate_start = λ n r h. omega arith;
  new_active = λ n m. ground arith;
  new_completed = λ n m. ground arith;
  create_active = λ n m r h. ground arith;
  create_completed = λ n m r. ground arith;
  update_active = λ n m f r h. refl;
  update_completed = λ n m f r h. ground arith;
  truncate_active = λ n m r h. refl;
  truncate_completed = λ n m r h. refl;
  complete_active = λ n m x r h. ground arith;
  complete_completed = λ n m x r h. ground arith;
  rollback_active = λ n m r h. ground arith;
  rollback_completed = λ n m r h. ground arith;
  rollback_inactive = λ n m r h. ground arith;
  rollback_uncompleted = λ n m r h. ground arith;
  status_range = λ n r h. ground arith;
  status_used = λ n r h. ground arith;
  status_unused = λ n r h. ground arith;
  status_completed = λ n r h. ground arith;
  active_upto_last = λ n m r h low all last.
      upto-last (λ k. in_use k r) m (suc r.top) (max n r.low) (omega arith)
        (upto_room (λ k. in_use k r) r (max n r.low) m (omega arith)
          (λ j e. below_top (r.used j) j r.top e) (λ j a b. all j (omega arith) (omega arith) b))
        (λ j a b. all j (omega arith) (omega arith) b) last;
  completed_upto_last = λ n m r h low all last.
      upto-last (λ k. is_whole k r) m (suc r.top) (max n r.low) (omega arith)
        (upto_room (λ k. is_whole k r) r (max n r.low) m (omega arith)
          (λ j e. below_top (r.whole j) j r.top e) (λ j a b. all j (omega arith) (omega arith) b))
        (λ j a b. all j (omega arith) (omega arith) b) last;
  foreach_visits = λ n xs r h at ins out.
      collect-enumerated r (r.top - n) n xs (fits_below r n (length xs) ins)
        (λ i x e. item_at r (n + i) x (at i x e)) ins out;
}
