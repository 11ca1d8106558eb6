-- ===== src/Alloc/Bitmap/Tests.antt =====
-- A bitset as the list of the bits that are set, and runs of the bitmap allocator over it.
use home_store.Prelude.{
  ℕ, zero, suc, ◌≡◌, ◌≢◌, ℕ_discrete, ◌↔◌, refl, ap, ◌∙◌, Bool, true, false, not, ◌&&◌, ◌||◌, ◌==◌,
  if◌then◌else◌, none, some, List, [], ◌∷◌, ◌++◌, arith, length, map,
}
use home_store.Blk.{BlkId, Fits, make_blkid}
use home_store.Blk.Multi.{ChainBlkId, MultiBlkId, of_blkid}
use home_store.Blk.Multi.Pieces.{IsWellFormed}
use home_store.Alloc.Bitmap.{Bitset, IsBitset, covers, BlkRef, BitmapBlkAllocator, cp_flush, pushed}
use home_store.Alloc.Bitmap.Bits.{covered, Free}
use home_store.Alloc.Bitmap.Reserve.{FreeEach}
use home_store.Alloc.Bitmap.Flush.{cp_flush-bits, FirstFit, first_blk}

abbrev is_in : ℕ → List ℕ → Bool
is_in i [] = false
is_in i (x ∷ xs) = i == x || is_in i xs

abbrev count_from : ℕ → ℕ → List ℕ
count_from n zero = []
count_from n (suc k) = n ∷ count_from (suc n) k

abbrev without : ℕ → ℕ → List ℕ → List ℕ
without n k [] = []
without n k (x ∷ xs) = if covers n k x then without n k xs else x ∷ without n k xs

abbrev all_in : ℕ → ℕ → List ℕ → Bool
all_in n zero xs = true
all_in n (suc k) xs = is_in n xs && all_in (suc n) k xs

abbrev none_in : ℕ → ℕ → List ℕ → Bool
none_in n zero xs = true
none_in n (suc k) xs = not (is_in n xs) && none_in (suc n) k xs

abbrev list_bitset : Bitset (List ℕ)
list_bitset = record {
  all_reset = λ n. [];
  set_bits = λ n k b. count_from n k ++ b;
  reset_bits = without;
  is_bits_set = all_in;
  is_bits_reset = none_in;
  get_set_count = length;
  serialize = λ b. b;
  deserialize = λ b. b;
}

is_in-append : (i : ℕ) (xs ys : List ℕ) → is_in i (xs ++ ys) ≡ is_in i xs || is_in i ys
is_in-append i [] ys = refl
is_in-append i (x ∷ xs) ys =
    let rest : is_in i (xs ++ ys) ≡ is_in i xs || is_in i ys = is_in-append i xs ys in ground arith

is_in-count_from : (n k i : ℕ) → is_in i (count_from n k) ≡ covers n k i
is_in-count_from n zero i = ground arith
is_in-count_from n (suc k) i =
    let rest : is_in i (count_from (suc n) k) ≡ covers (suc n) k i = is_in-count_from (suc n) k i in
    ground arith

is_in-without : (n k i : ℕ) (b : List ℕ) → is_in i (without n k b) ≡ not (covers n k i) && is_in i b
is_in-without n k i [] = ground arith
is_in-without n k i (x ∷ xs) =
    let rest : is_in i (without n k xs) ≡ not (covers n k i) && is_in i xs =
      is_in-without n k i xs in
    ground arith

widens : (n k i : ℕ) → covers (suc n) k i ≡ true → covers n (suc k) i ≡ true
widens n k i c = ground arith

starts_with : (n k : ℕ) → covers n (suc k) n ≡ true
starts_with n k = ground arith

narrows : (n k i : ℕ) → i ≢ n → covers n (suc k) i ≡ true → covers (suc n) k i ≡ true
narrows n k i ne c = ground arith

all_in_iff :
    (n k : ℕ) (b : List ℕ)
    → (all_in n k b ≡ true) ↔ ((i : ℕ) → covers n k i ≡ true → is_in i b ≡ true)
all_in_iff n zero b = (λ e i c. ground arith, λ f. refl)
all_in_iff n (suc k) b = (
  λ e i c. elim (ℕ_discrete i n) [
    | yes same ↦ rw same (ground arith)
    | no other ↦ (all_in_iff (suc n) k b).0 (ground arith) i (narrows n k i other c)
  ],
  λ f.
      let first : is_in n b ≡ true = f n (starts_with n k) in
      let rest : all_in (suc n) k b ≡ true =
        (all_in_iff (suc n) k b).1 (λ i c. f i (widens n k i c)) in
      ground arith,
)

none_in_iff :
    (n k : ℕ) (b : List ℕ)
    → (none_in n k b ≡ true) ↔ ((i : ℕ) → covers n k i ≡ true → is_in i b ≡ false)
none_in_iff n zero b = (λ e i c. ground arith, λ f. refl)
none_in_iff n (suc k) b = (
  λ e i c. elim (ℕ_discrete i n) [
    | yes same ↦ rw same (ground arith)
    | no other ↦ (none_in_iff (suc n) k b).0 (ground arith) i (narrows n k i other c)
  ],
  λ f.
      let first : is_in n b ≡ false = f n (starts_with n k) in
      let rest : none_in (suc n) k b ≡ true =
        (none_in_iff (suc n) k b).1 (λ i c. f i (widens n k i c)) in
      ground arith,
)

list_bitset-IsBitset : IsBitset list_bitset is_in
list_bitset-IsBitset = record {
  all_reset_bit = λ n i. refl;
  set_bit = λ n k i b.
      is_in-append i (count_from n k) b ∙ ap (λ x. x || is_in i b) (is_in-count_from n k i);
  reset_bit = is_in-without;
  set_iff = all_in_iff;
  reset_iff = none_in_iff;
  round_trip = λ b. refl;
}

abbrev idle : BitmapBlkAllocator (List ℕ)
idle = record {
  num_blks = 100;
  chunk_id = 3;
  is_persistent = true;
  disk_bm = 7 ∷ [];
  alloced_blk_count = 1;
  is_disk_bm_dirty = true;
  alloc_blkid_list = none;
  meta_blk_cookie = false;
  stored = none;
  initializing = true;
}

abbrev garbage : List ChainBlkId
garbage = let x : ChainBlkId = record { blk_num = 0; nblks = 0 } in x ∷ x ∷ x ∷ x ∷ x ∷ []

abbrev blks : BlkRef
blks = BlkRef.one (make_blkid 10 4 3)

booting-Free :
    (bs : List BlkId) (bm : List ℕ) → Free list_bitset is_in list_bitset-IsBitset true bs bm
unfolding Free
booting-Free [] bm = tt
booting-Free (b ∷ bs) bm = (λ e. absurd cc, booting-Free bs (count_from b.blk_num b.nblks ++ bm))

-- A value of two pieces, of which the flush keeps the first.
abbrev two_pieces : MultiBlkId
two_pieces = record {
  base = record { is_multi = true; blk_num = 20; nblks = 1; chunk_num = 3 };
  n_addln_piece = 1;
  addln_pieces =
      let x : ChainBlkId = record { blk_num = 0; nblks = 0 } in
      record { blk_num = 30; nblks = 2 } ∷ x ∷ x ∷ x ∷ x ∷ [];
}

pushed-IsWellFormed :
    (r : BlkRef) → Fits (first_blk r) → IsWellFormed (pushed list_bitset garbage r)
unfolding pushed of_blkid
pushed-IsWellFormed (BlkRef.one b) f = record {
  fits = record {
    blk_num_fits = f.blk_num_fits;
    nblks_fits = f.nblks_fits;
    chunk_fits = f.chunk_fits;
  };
  multi = refl;
  array = refl;
  room = omega arith;
  chain = tt;
  first = λ e. refl;
}
pushed-IsWellFormed (BlkRef.multi m) f = record {
  fits = record {
    blk_num_fits = f.blk_num_fits;
    nblks_fits = f.nblks_fits;
    chunk_fits = f.chunk_fits;
  };
  multi = refl;
  array = refl;
  room = omega arith;
  chain = tt;
  first = λ e. refl;
}

booting-FreeEach :
    (rs : List BlkRef) (bm : List ℕ)
    → FirstFit rs
    → FreeEach list_bitset is_in list_bitset-IsBitset garbage true
        (map (pushed list_bitset garbage) rs)
        bm
unfolding FreeEach
booting-FreeEach [] bm fits = tt
booting-FreeEach (r ∷ rs) bm (f, fits) =
    (pushed-IsWellFormed r f, booting-Free _ bm, λ c e. booting-FreeEach rs c fits)

cp_flush-bits_example :
    (c : BitmapBlkAllocator (List ℕ)) × (cp_flush list_bitset garbage
        (blks ∷ [])
        (BlkRef.multi two_pieces ∷ [])
        idle
      ≡ some c)
    × (c.stored ≡ some (7 ∷ []))
    × (c.alloc_blkid_list ≡ none)
    × ((i : ℕ)
        → is_in i c.disk_bm
          ≡ covered (make_blkid 10 4 3 ∷ two_pieces.base ∷ []) i || is_in i (7 ∷ []))
cp_flush-bits_example =
    let fits : FirstFit (blks ∷ BlkRef.multi two_pieces ∷ []) = (
      record { blk_num_fits = omega arith; nblks_fits = omega arith; chunk_fits = omega arith },
      (
        record { blk_num_fits = omega arith; nblks_fits = omega arith; chunk_fits = omega arith },
        tt,
      ),
    ) in
    cp_flush-bits list_bitset garbage is_in list_bitset-IsBitset (blks ∷ [])
      (BlkRef.multi two_pieces ∷ []) idle refl refl refl fits
      (booting-FreeEach (blks ∷ BlkRef.multi two_pieces ∷ []) (7 ∷ []) fits)
