-- ===== src/Alloc/Fixed/Tests.antt =====
-- Runs of the fixed allocator, on a chunk whose bitmap is not persistent.
use home_store.Prelude.{ℕ, ◌≡◌, refl, true, false, none, List, [], ◌∷◌, arith, length}
use home_store.Alloc.Bitmap.{Bitset}
use home_store.Alloc.Fixed.{
  State, FixedBlkAllocator, recovery_completed, alloc, load, load_from, init_portion,
}
use home_store.Alloc.Fixed.Queue.{IsDistinct, Answer, recovery_completed-queue, alloc-allocatable}

abbrev no_bitset : Bitset (List ℕ)
no_bitset = record {
  all_reset = λ n. [];
  set_bits = λ n k b. b;
  reset_bits = λ n k b. b;
  is_bits_set = λ n k b. true;
  is_bits_reset = λ n k b. true;
  get_set_count = length;
  serialize = λ b. b;
  deserialize = λ b. b;
}

abbrev recovered : FixedBlkAllocator (List ℕ)
recovered = record {
  bitmap = record {
    num_blks = 4;
    chunk_id = 3;
    is_persistent = false;
    disk_bm = [];
    alloced_blk_count = 0;
    is_disk_bm_dirty = false;
    alloc_blkid_list = none;
    meta_blk_cookie = false;
    stored = none;
    initializing = true;
  };
  blks_per_portion = 2;
  state = State.recovering;
  reserved_blks = 0 ∷ 2 ∷ [];
  free_blk_q = 0 ∷ 1 ∷ 2 ∷ 3 ∷ [];
}

load_run : (load no_bitset (record recovered { free_blk_q = [] })).free_blk_q ≡ 0 ∷ 1 ∷ 2 ∷ 3 ∷ []
unfolding load load_from init_portion
load_run = refl

recovery_completed-queue_example :
    ((recovery_completed no_bitset recovered).free_blk_q ≡ 1 ∷ 3 ∷ [])
    × ((recovery_completed no_bitset recovered).state ≡ State.active)
    × ((recovery_completed no_bitset recovered).reserved_blks ≡ [])
recovery_completed-queue_example = recovery_completed-queue no_bitset recovered (omega arith)

recovered-IsDistinct : IsDistinct recovered.free_blk_q
unfolding IsDistinct
recovered-IsDistinct = (refl, (refl, (refl, (refl, tt))))

alloc-allocatable_example : Answer no_bitset recovered (alloc no_bitset recovered)
alloc-allocatable_example = alloc-allocatable no_bitset recovered refl recovered-IsDistinct
