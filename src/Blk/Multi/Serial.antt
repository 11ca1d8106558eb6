-- ===== src/Blk/Multi/Serial.antt =====
-- The byte form of a `MultiBlkId`: its size, and what reading it back gives.
use home_store.Prelude.{
  ℕ, zero, suc, ◌*◌, ◌≤◌, ◌≡◌, ◌≢◌, refl, sym, ℕ_discrete, List, [], ◌∷◌, ◌++◌, length, take, drop,
  arith, le_bytes, length-le_bytes, of_le_bytes-le_bytes, length-append, take-prefix, length-take,
}
use home_store.Blk.{BlkId, Fits, blkid_size}
use home_store.Blk
use home_store.Blk.Integer.{deserialize-serialize}
use home_store.Blk.Multi.{
  ChainBlkId, MultiBlkId, chain_size, serialized_size, chain_bytes, serialize, read_chain,
  deserialize,
}
use home_store.Blk.Multi.Pieces.{IsWellFormed, ChainFits, pieces}

length-chain_bytes : (cs : List ChainBlkId) → length (chain_bytes cs) ≡ length cs * chain_size
length-chain_bytes [] = refl
length-chain_bytes (c ∷ cs) = omega (
  arith,
  length-append (le_bytes 4 c.blk_num) (le_bytes 2 c.nblks ++ chain_bytes cs),
  length-append (le_bytes 2 c.nblks) (chain_bytes cs),
  length-chain_bytes cs,
)

take-chain_bytes :
    (n : ℕ) (cs : List ChainBlkId)
    → n ≤ length cs
    → take (n * chain_size) (chain_bytes cs) ≡ chain_bytes (take n cs)
take-chain_bytes zero cs h = refl
take-chain_bytes (suc n) [] h = absurd (omega arith)
take-chain_bytes (suc n) (c ∷ cs) h =
    let e : suc n * chain_size ≡ suc (suc (suc (suc (suc (suc (n * chain_size)))))) = omega arith in
    rw (e, take-chain_bytes n cs (omega arith))

read_chain-chain_bytes :
    (cs : List ChainBlkId) → ChainFits cs → read_chain (length cs) (chain_bytes cs) ≡ cs
read_chain-chain_bytes [] f = refl
read_chain-chain_bytes (c ∷ cs) f = ground (
  arith,
  of_le_bytes-le_bytes 4 c.blk_num,
  of_le_bytes-le_bytes 2 c.nblks,
  read_chain-chain_bytes cs f.2,
)

abbrev head_bytes : MultiBlkId → List ℕ
head_bytes m = Blk.serialize m.base

length-head_bytes : (m : MultiBlkId) → length (head_bytes m) ≡ blkid_size
unfolding Blk.serialize
length-head_bytes m = length-le_bytes blkid_size (Blk.to_integer m.base)

-- With no additional piece only the first eight bytes are stored.
serialize_single : (m : MultiBlkId) → m.n_addln_piece ≡ 0 → serialize m ≡ head_bytes m
unfolding serialize serialized_size
serialize_single m e = ground arith

serialize_chain :
    (m : MultiBlkId)
    → m.n_addln_piece ≢ 0
    → m.n_addln_piece ≤ length m.addln_pieces
    → serialize m
      ≡ head_bytes m
        ++ (le_bytes 2 m.n_addln_piece ++ chain_bytes (take m.n_addln_piece m.addln_pieces))
unfolding serialize serialized_size
serialize_chain m ne h =
    let size : serialized_size m
        ≡ suc (suc (suc (suc (suc (suc (suc (suc (suc (suc (m.n_addln_piece * chain_size)))))))))) =
      ground arith in
    rw (size, take-chain_bytes m.n_addln_piece m.addln_pieces h)

deserialize_single :
    (m t : MultiBlkId)
    → IsWellFormed m
    → m.n_addln_piece ≡ 0
    → deserialize (serialize m) t ≡ record t { base = m.base; n_addln_piece = 0 }
unfolding deserialize Blk.serialize
deserialize_single m t w e = rw (serialize_single m e, deserialize-serialize m.base w.fits)

deserialize_chain :
    (m t : MultiBlkId) (cs : List ChainBlkId)
    → IsWellFormed m
    → m.n_addln_piece ≢ 0
    → take m.n_addln_piece m.addln_pieces ≡ cs
    → length cs ≡ m.n_addln_piece
    → deserialize (serialize m) t ≡ record {
      base = m.base;
      n_addln_piece = m.n_addln_piece;
      addln_pieces = cs ++ drop m.n_addln_piece t.addln_pieces;
    }
unfolding deserialize Blk.serialize
deserialize_chain m t cs w ne e l = ground (
  arith,
  serialize_chain m ne (omega (arith, w.array, w.room)),
  deserialize-serialize m.base w.fits,
  of_le_bytes-le_bytes 2 m.n_addln_piece,
  read_chain-chain_bytes cs,
  length-chain_bytes cs,
)

-- Whatever the target held before, reading back the bytes of a well-formed value gives its first
-- piece, its number of additional pieces and those pieces.
pub deserialize-serialize_multi :
    (m t : MultiBlkId)
    → IsWellFormed m
    → let r = deserialize (serialize m) t in
      (r.base ≡ m.base) × (r.n_addln_piece ≡ m.n_addln_piece) × (pieces r ≡ pieces m)
deserialize-serialize_multi m t w = elim (ℕ_discrete m.n_addln_piece 0) [
  | yes e ↦ rw (deserialize_single m t w e) (refl, sym e, rw e)
  | no ne ↦
      rw (deserialize_chain m t kept w ne refl kept_length)
        (refl, refl, rw (take-prefix kept (drop m.n_addln_piece t.addln_pieces) _ kept_length))
]
  where
    kept : List ChainBlkId
    kept = take m.n_addln_piece m.addln_pieces

    kept_length : length kept ≡ m.n_addln_piece
    kept_length = omega (arith, length-take m.n_addln_piece m.addln_pieces, w.array, w.room)
