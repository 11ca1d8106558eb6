-- ===== src/Blk/Multi.antt =====
-- Block ids of up to six pieces of one chunk: `MultiBlkId` of src/include/homestore/blk.h and
-- src/lib/blkalloc/blk.cpp.
pub mod Pieces
pub mod Add
pub mod Serial
pub mod Order
use home_store.Prelude.{
  ℕ, zero, suc, ◌+◌, ◌-◌, ◌*◌, ◌%◌, ◌^◌, ◌≤◌, ◌<◌, ◌≡◌, Bool, true, false, ◌&&◌, ltb, leb, ◌==◌,
  if◌then◌else◌, Ordering, Option, none, some, List, [], ◌∷◌, ◌++◌, length, get_elem?, set, take,
  drop, replicate, le_bytes, of_le_bytes,
}
use mathlib.Core.Option
use home_store.Blk.{BlkId, empty_blkid, serialized, make_blkid, blkid_size}
use home_store.Blk

pub record ChainBlkId : Type 0 where
  pub blk_num : ℕ
  pub nblks : ℕ

-- `std::array< chain_blkid, max_addln_pieces >` is a list of that length.
pub record MultiBlkId : Type 0 where
  pub base : BlkId
  pub open base use *
  pub n_addln_piece : ℕ
  pub addln_pieces : List ChainBlkId

abbrev pub max_addln_pieces : ℕ
max_addln_pieces = 5

abbrev pub max_pieces : ℕ
max_pieces = max_addln_pieces + 1

abbrev pub chain_size : ℕ
chain_size = 6

-- `MultiBlkId(BlkId const&)`; the array is not initialised, so its content is an argument.
unfoldable pub of_blkid : List ChainBlkId → BlkId → MultiBlkId
of_blkid garbage b = record {
  base = record b { is_multi = true };
  n_addln_piece = 0;
  addln_pieces = garbage;
}

-- `none` is a failed release assertion: a piece of another chunk, or no room.
unfoldable pub add : ℕ → ℕ → ℕ → MultiBlkId → Option MultiBlkId
unfolding Blk.is_valid
add blk_num nblks chunk_num m =
    if Blk.is_valid m.base
    then if m.chunk_num == chunk_num
      then if ltb m.n_addln_piece max_addln_pieces
        then some (record m {
          addln_pieces =
              set m.addln_pieces m.n_addln_piece (record { blk_num = blk_num; nblks = nblks });
          n_addln_piece = m.n_addln_piece + 1;
        })
        else none
      else none
    else some (record m { base = serialized true blk_num nblks chunk_num })

unfoldable pub num_pieces : MultiBlkId → ℕ
unfolding Blk.is_valid
num_pieces m = if Blk.is_valid m.base then m.n_addln_piece + 1 else 0

unfoldable pub has_room : MultiBlkId → Bool
has_room m = ltb m.n_addln_piece max_addln_pieces

abbrev pub chain_blkid : ℕ → ChainBlkId → BlkId
chain_blkid chunk_num c = make_blkid c.blk_num c.nblks chunk_num

-- `iterator::next`, which returns the next piece and the new `next_blk_`.
unfoldable pub next : MultiBlkId → ℕ → Option BlkId × ℕ
unfolding Blk.is_valid Blk.blk_count num_pieces
next m next_blk =
    if next_blk == 0
    then (
      if Blk.is_valid m.base
          then some (make_blkid m.blk_num (Blk.blk_count m.base) m.chunk_num)
          else none,
      next_blk + 1,
    )
    else if ltb next_blk (num_pieces m)
    then (
      Option.map (chain_blkid m.chunk_num) (get_elem? m.addln_pieces (next_blk - 1)),
      next_blk + 1,
    )
    else (none, next_blk)

-- `while (auto b = it.next()) { s = f(s, b) }`.
unfoldable pub walk {ℓ} : {S : Type ℓ} → ℕ → (S → BlkId → S) → MultiBlkId → ℕ → S → S
walk zero f m i s = s
walk (suc fuel) f m i s =
    let (piece, j) = next m i in elim piece [ none ↦ s | some b ↦ walk fuel f m j (f s b) ]

-- One round more than there can be pieces.
abbrev pub iterate {ℓ} : {S : Type ℓ} → (S → BlkId → S) → MultiBlkId → S → S
iterate f m s = walk (max_pieces + 1) f m 0 s

-- A sum of `uint16_t`, which wraps.
unfoldable pub blk_count : MultiBlkId → ℕ
unfolding walk next Blk.blk_count
blk_count m = iterate (λ nblks b. (nblks + Blk.blk_count b) % 2 ^ 16) m 0

unfoldable pub to_single_blkid : MultiBlkId → BlkId
unfolding blk_count
to_single_blkid m = make_blkid m.blk_num (blk_count m) m.chunk_num

unfoldable pub serialized_size : MultiBlkId → ℕ
serialized_size m =
    if m.n_addln_piece == 0 then blkid_size else blkid_size + (2 + m.n_addln_piece * chain_size)

unfoldable pub expected_serialized_size : ℕ → ℕ
expected_serialized_size num_pieces =
    if ltb 1 num_pieces then blkid_size + (2 + (num_pieces - 1) * chain_size) else blkid_size

abbrev pub chain_bytes : List ChainBlkId → List ℕ
chain_bytes [] = []
chain_bytes (c ∷ cs) = le_bytes 4 c.blk_num ++ (le_bytes 2 c.nblks ++ chain_bytes cs)

-- The packed struct in memory.
abbrev pub struct_bytes : MultiBlkId → List ℕ
struct_bytes m = Blk.serialize m.base ++ (le_bytes 2 m.n_addln_piece ++ chain_bytes m.addln_pieces)

unfoldable pub serialize : MultiBlkId → List ℕ
unfolding serialized_size Blk.serialize
serialize m = take (serialized_size m) (struct_bytes m)

-- The first `n` elements of an array of `chain_blkid` that stands in memory.
abbrev pub read_chain : ℕ → List ℕ → List ChainBlkId
read_chain zero bytes = []
read_chain (suc n) bytes =
    record { blk_num = of_le_bytes (take 4 bytes); nblks = of_le_bytes (take 2 (drop 4 bytes)) }
    ∷ read_chain n (drop chain_size bytes)

-- The pieces beyond those copied stay what they were in the target `m`.
unfoldable pub deserialize : List ℕ → MultiBlkId → MultiBlkId
unfolding Blk.deserialize
deserialize bytes m =
    let s : BlkId = Blk.deserialize (take blkid_size bytes) in
    let n : ℕ = of_le_bytes (take 2 (drop blkid_size bytes)) in
    if length bytes == blkid_size then record m { base = s; n_addln_piece = 0 } else record m {
      base = s;
      n_addln_piece = n;
      addln_pieces = read_chain n (drop (blkid_size + 2) bytes) ++ drop n m.addln_pieces;
    }

-- What boost's `interval_set< uint64_t >` gives: `insert` adds the half-open interval of its two
-- bounds.
pub record IntervalSet : Type 1 where
  pub Carrier : Type 0
  pub empty : Carrier
  pub insert : ℕ → ℕ → Carrier → Carrier
  pub less : Carrier → Carrier → Bool

module _ (icl : IntervalSet) where
  pub interval_set : MultiBlkId → icl.Carrier
  interval_set m = iterate (λ s b. icl.insert b.blk_num (b.blk_num + Blk.blk_count b) s) m icl.empty

  unfoldable pub compare : MultiBlkId → MultiBlkId → Ordering
  unfolding Blk.compare num_pieces
  compare left right =
      if ltb left.chunk_num right.chunk_num
      then Ordering.lt
      else if ltb right.chunk_num left.chunk_num
      then Ordering.gt
      else if num_pieces left == 1 && num_pieces right == 1
      then Blk.compare left.base right.base
      else if icl.less (interval_set left) (interval_set right)
      then Ordering.lt
      else if icl.less (interval_set right) (interval_set left)
      then Ordering.gt
      else Ordering.eq
