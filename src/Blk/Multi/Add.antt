-- ===== src/Blk/Multi/Add.antt =====
-- `MultiBlkId::add`: when it is refused, and which piece it adds.
use home_store.Prelude.{
  ℕ, zero, suc, ◌+◌, ◌^◌, ◌<◌, ◌≡◌, ◌≢◌, ◌↔◌, ◌⊎◌, refl, ap, true, false, none, some, List, [], ◌∷◌,
  ◌++◌, map, length, take, set, arith, length-set,
}
use home_store.Blk.{BlkId, Fits, make_blkid}
use home_store.Blk
use home_store.Blk.Multi.{ChainBlkId, MultiBlkId, chain_blkid, has_room, add}
use home_store.Blk.Multi.Pieces.{IsWellFormed, ChainFits, pieces}

take-set {ℓ} :
    {A : Type ℓ} (xs : List A) (i : ℕ) (v : A)
    → i < length xs
    → take (i + 1) (set xs i v) ≡ take i xs ++ v ∷ []
take-set [] i v h = absurd (omega arith)
take-set (x ∷ xs) zero v h = refl
take-set (x ∷ xs) (suc i) v h =
    let e : suc i + 1 ≡ suc (i + 1) = omega arith in
    rw e (ap (◌∷◌ x) (take-set xs i v (omega arith)))

ChainFits-append :
    (xs : List ChainBlkId) (c : ChainBlkId)
    → ChainFits xs
    → c.blk_num < 2 ^ 31
    → c.nblks < 2 ^ 16
    → ChainFits (xs ++ c ∷ [])
ChainFits-append [] c h p q = (p, q, tt)
ChainFits-append (x ∷ xs) c h p q = (h.0, h.1, ChainFits-append xs c h.2 p q)

map-snoc {ℓ κ} :
    {A : Type ℓ} {B : Type κ} (f : A → B) (xs : List A) (a : A)
    → map f (xs ++ a ∷ []) ≡ map f xs ++ f a ∷ []
map-snoc f [] a = refl
map-snoc f (x ∷ xs) a = ap (◌∷◌ (f x)) (map-snoc f xs a)

module _ (blk_num nblks chunk_num : ℕ) (m : MultiBlkId) where
  -- Adding fails (the process aborts) exactly when the value holds a first piece and the new piece
  -- is of another chunk or all five additional places are taken.
  pub add-none_iff :
      (add blk_num nblks chunk_num m ≡ none)
      ↔ ((Blk.is_valid m.base ≡ true) × ((m.chunk_num ≢ chunk_num) ⊎ (has_room m ≡ false)))
  unfolding add has_room
  add-none_iff = (ground arith, ground arith)

  -- A piece that is added is the last of the pieces, and the value stays well formed. The piece
  -- is in range and not empty.
  pub add-pieces :
      {m' : MultiBlkId}
      → IsWellFormed m
      → blk_num < 2 ^ 31
      → 0 < nblks
      → nblks < 2 ^ 16
      → chunk_num < 2 ^ 16
      → add blk_num nblks chunk_num m ≡ some m'
      → IsWellFormed m' × (pieces m' ≡ pieces m ++ make_blkid blk_num nblks chunk_num ∷ [])
  unfolding add
  add-pieces w hb p hn hc e = ground (
    arith,
    take-set m.addln_pieces m.n_addln_piece (record { blk_num = blk_num; nblks = nblks }),
    length-set m.addln_pieces m.n_addln_piece (record { blk_num = blk_num; nblks = nblks }),
    ChainFits-append (take m.n_addln_piece m.addln_pieces)
        (record { blk_num = blk_num; nblks = nblks }),
    map-snoc (chain_blkid m.chunk_num) (take m.n_addln_piece m.addln_pieces)
        (record { blk_num = blk_num; nblks = nblks }),
  )
