-- ===== src/Blk/Tests.antt =====
-- Runs of the block id functions, and the theorems at concrete ids.
use home_store.Prelude.{ℕ, ◌+◌, ◌-◌, ◌*◌, ◌^◌, ◌≡◌, refl, true, ltb, [], ◌∷◌, arith}
use mathlib.Core.List.{foldl}
use home_store.Blk.{
  BlkId, make_blkid, Fits, compare, to_integer, of_integer, serialize, deserialize,
}
use home_store.Blk
use home_store.Blk.Multi.{
  MultiBlkId, ChainBlkId, IntervalSet, iterate, walk, next, num_pieces, add, blk_count, has_room,
}
use home_store.Blk.Multi
use home_store.Blk.Multi.Pieces.{IsWellFormed, pieces, iterate-pieces}
use home_store.Blk.Multi.Serial.{deserialize-serialize_multi}

abbrev no_chain : ChainBlkId
no_chain = record { blk_num = 0; nblks = 0 }

abbrev one_blkid : BlkId
one_blkid = make_blkid 10 4 2

abbrev two_pieces : MultiBlkId
two_pieces = record {
  base = record { is_multi = true; blk_num = 10; nblks = 4; chunk_num = 2 };
  n_addln_piece = 1;
  addln_pieces =
      record { blk_num = 30; nblks = 2 } ∷ no_chain ∷ no_chain ∷ no_chain ∷ no_chain ∷ [];
}

abbrev stale : MultiBlkId
stale = record two_pieces {
  n_addln_piece = 2;
  addln_pieces =
      record { blk_num = 7; nblks = 7 }
      ∷ record { blk_num = 8; nblks = 8 }
      ∷ no_chain
      ∷ no_chain
      ∷ no_chain
      ∷ [];
}

one_blkid-Fits : Fits one_blkid
one_blkid-Fits = omega arith

two_pieces-IsWellFormed : IsWellFormed two_pieces
unfolding Blk.is_valid
two_pieces-IsWellFormed = ground arith

-- The packed form of block 10, count 4, chunk 2.
to_integer_run : to_integer one_blkid ≡ 20 + 4 * 2 ^ 32 + 2 * 2 ^ 48
unfolding to_integer
to_integer_run = refl

serialize_run :
    Multi.serialize two_pieces
    ≡ 21 ∷ 0 ∷ 0 ∷ 0 ∷ 4 ∷ 0 ∷ 2 ∷ 0 ∷ 1 ∷ 0 ∷ 30 ∷ 0 ∷ 0 ∷ 0 ∷ 2 ∷ 0 ∷ []
unfolding Multi.serialize
serialize_run = refl

-- The top bit of a 32-bit block number is lost.
make_blkid_run : make_blkid (2 ^ 31 + 5) 1 0 ≡ make_blkid 5 1 0
make_blkid_run = refl

blk_count_run : blk_count two_pieces ≡ 6
unfolding blk_count
blk_count_run = refl

iterate-pieces_example :
    iterate (λ acc b. acc + b.blk_num) two_pieces 0
    ≡ foldl (λ acc b. acc + b.blk_num) 0 (pieces two_pieces)
iterate-pieces_example =
    iterate-pieces (λ acc b. acc + b.blk_num) two_pieces 0 two_pieces-IsWellFormed

abbrev three_pieces : MultiBlkId
three_pieces = record two_pieces {
  n_addln_piece = 2;
  addln_pieces =
      record { blk_num = 30; nblks = 2 }
      ∷ record { blk_num = 50; nblks = 1 }
      ∷ no_chain
      ∷ no_chain
      ∷ no_chain
      ∷ [];
}

deserialize-serialize_multi_example :
    let r = Multi.deserialize (Multi.serialize two_pieces) stale in
    (r.base ≡ two_pieces.base)
    × (r.n_addln_piece ≡ two_pieces.n_addln_piece)
    × (pieces r ≡ pieces two_pieces)
deserialize-serialize_multi_example =
    deserialize-serialize_multi two_pieces stale two_pieces-IsWellFormed

-- Interval sets as the number of the blocks in them.
abbrev counted : IntervalSet
counted = record { Carrier = ℕ; empty = 0; insert = λ lo hi s. s + (hi - lo); less = ltb }
