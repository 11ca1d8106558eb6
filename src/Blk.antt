-- ===== src/Blk.antt =====
-- Block ids of one piece: `BlkId` of src/include/homestore/blk.h and src/lib/blkalloc/blk.cpp.
-- The struct is 64 bits: from the lowest, 1 bit `m_is_multi`, 31 bits `m_blk_num`, 16 bits
-- `m_nblks`, 16 bits `m_chunk_num`. Fields are numbers in the range of their width.
pub mod Order
pub mod Integer
pub mod Multi
mod Tests
use home_store.Prelude.{
  ℕ, ◌+◌, ◌*◌, ◌/◌, ◌%◌, ◌^◌, ◌<◌, Bool, true, false, ltb, ◌==◌, if◌then◌else◌, Ordering, List,
  le_bytes, of_le_bytes,
}

pub record BlkId : Type 0 where
  pub is_multi : Bool
  pub blk_num : ℕ
  pub nblks : ℕ
  pub chunk_num : ℕ

-- What the widths of the bit fields promise.
pub record Fits (b : BlkId) : Type 0 where
  pub blk_num_fits : b.blk_num < 2 ^ 31
  pub nblks_fits : b.nblks < 2 ^ 16
  pub chunk_fits : b.chunk_num < 2 ^ 16

-- The default constructor of `serialized`.
abbrev pub empty_blkid : BlkId
empty_blkid = record { is_multi = false; blk_num = 0; nblks = 0; chunk_num = 0 }

-- `serialized{is_multi, blk_num, nblks, cnum}`: the 32-bit argument `blk_num` loses its top bit.
abbrev pub serialized : Bool → ℕ → ℕ → ℕ → BlkId
serialized multi blk_num nblks chunk_num = record {
  is_multi = multi;
  blk_num = blk_num % 2 ^ 31;
  nblks = nblks;
  chunk_num = chunk_num;
}

abbrev pub make_blkid : ℕ → ℕ → ℕ → BlkId
make_blkid blk_num nblks chunk_num = serialized false blk_num nblks chunk_num

unfoldable pub blk_count : BlkId → ℕ
blk_count b = b.nblks

unfoldable pub is_valid : BlkId → Bool
unfolding blk_count
is_valid b = ltb 0 (blk_count b)

unfoldable pub invalidate : BlkId → BlkId
invalidate b = record b { nblks = 0 }

abbrev pub bit : Bool → ℕ
bit true = 1
bit false = 0

unfoldable pub to_integer : BlkId → ℕ
to_integer b = bit b.is_multi + 2 * b.blk_num + 2 ^ 32 * b.nblks + 2 ^ 48 * b.chunk_num

-- `BlkId(uint64_t)`, which asserts in debug builds that the multi bit is clear.
unfoldable pub of_integer : ℕ → BlkId
of_integer n = record {
  is_multi = n % 2 == 1;
  blk_num = n / 2 % 2 ^ 31;
  nblks = n / 2 ^ 32 % 2 ^ 16;
  chunk_num = n / 2 ^ 48 % 2 ^ 16;
}

abbrev pub blkid_size : ℕ
blkid_size = 8

-- The bytes of the struct in memory, and the struct that they are read as.
unfoldable pub serialize : BlkId → List ℕ
unfolding to_integer
serialize b = le_bytes blkid_size (to_integer b)

unfoldable pub deserialize : List ℕ → BlkId
unfolding of_integer
deserialize bytes = of_integer (of_le_bytes bytes)

-- `lt`, `eq` and `gt` stand for the results -1, 0 and 1.
unfoldable pub compare : BlkId → BlkId → Ordering
unfolding blk_count
compare one two =
    if ltb one.chunk_num two.chunk_num
    then Ordering.lt
    else if ltb two.chunk_num one.chunk_num
    then Ordering.gt
    else if ltb one.blk_num two.blk_num
    then Ordering.lt
    else if ltb two.blk_num one.blk_num
    then Ordering.gt
    else if ltb (blk_count one) (blk_count two)
    then Ordering.lt
    else if ltb (blk_count two) (blk_count one)
    then Ordering.gt
    else Ordering.eq
