-- ===== src/Blk/Multi/Pieces.antt =====
-- What the iterator of a `MultiBlkId` visits.
use home_store.Prelude.{
  ℕ, zero, suc, ◌+◌, ◌-◌, ◌%◌, ◌^◌, ◌≤◌, ◌<◌, ◌≡◌, refl, ap, ◌∙◌, true, false, if◌then◌else◌,
  Bool-cases, inl, inr, none, some, List, [], ◌∷◌, map, length, take, drop, get_elem?, arith,
}
use mathlib.Core.List.{foldl}
use home_store.Blk.{BlkId, Fits, make_blkid}
use home_store.Blk
use home_store.Blk.Multi.{
  ChainBlkId, MultiBlkId, max_addln_pieces, chain_blkid, next, walk, iterate, blk_count,
}

abbrev pub ChainFits : List ChainBlkId → Type 0
ChainFits [] = Unit {0}
ChainFits (c ∷ cs) = (c.blk_num < 2 ^ 31) × (c.nblks < 2 ^ 16) × ChainFits cs

-- A well-formed value: the flag says what it is, the fields are in range, and pieces beyond the
-- first stand only behind a first piece.
pub record IsWellFormed (m : MultiBlkId) : Type 0 where
  pub fits : Fits m.base
  pub multi : m.is_multi ≡ true
  pub array : length m.addln_pieces ≡ max_addln_pieces
  pub room : m.n_addln_piece ≤ max_addln_pieces
  pub chain : ChainFits (take m.n_addln_piece m.addln_pieces)
  pub first : Blk.is_valid m.base ≡ false → m.n_addln_piece ≡ 0

-- The pieces that a value stands for, in order.
abbrev pub pieces : MultiBlkId → List BlkId
pieces m =
    if Blk.is_valid m.base
    then make_blkid m.blk_num m.nblks m.chunk_num
      ∷ map (chain_blkid m.chunk_num) (take m.n_addln_piece m.addln_pieces)
    else []

take-drop-step {ℓ} :
    {A : Type ℓ} (xs : List A) (i k : ℕ)
    → i < length xs
    → (x : A) × (get_elem? xs i ≡ some x)
      × (take (suc k) (drop i xs) ≡ x ∷ take k (drop (suc i) xs))
take-drop-step [] i k h = absurd (omega arith)
take-drop-step (x ∷ xs) zero k h = (x, refl, refl)
take-drop-step (x ∷ xs) (suc i) k h = take-drop-step xs i k (omega arith)

next-end : (m : MultiBlkId) (i : ℕ) → 0 < i → m.n_addln_piece < i → next m i ≡ (none, i)
unfolding next
next-end m i p h = ground arith

next-chain :
    (m : MultiBlkId) (i : ℕ) (c : ChainBlkId)
    → Blk.is_valid m.base ≡ true
    → i < m.n_addln_piece
    → get_elem? m.addln_pieces i ≡ some c
    → next m (suc i) ≡ (some (chain_blkid m.chunk_num c), suc (suc i))
unfolding next
next-chain m i c v h e = let e' : suc i - 1 ≡ i = omega arith in rw (e', e) (ground arith)

module _ {ℓ} {S : Type ℓ} (f : S → BlkId → S) (m : MultiBlkId) where
  walk_step :
      (fuel i j : ℕ) (s : S) {b : BlkId}
      → next m i ≡ (some b, j)
      → walk (suc fuel) f m i s ≡ walk fuel f m j (f s b)
  unfolding walk
  walk_step fuel i j s e = ground arith

  -- From index `i + 1` on, the iterator visits the additional pieces from `i` on.
  walk-chain :
      (fuel i k : ℕ) (s : S)
      → Blk.is_valid m.base ≡ true
      → m.n_addln_piece ≤ length m.addln_pieces
      → i + k ≡ m.n_addln_piece
      → k < fuel
      → walk fuel f m (suc i) s
        ≡ foldl f s (map (chain_blkid m.chunk_num) (take k (drop i m.addln_pieces)))
  unfolding walk
  walk-chain zero i k s v a e h = absurd (omega arith)
  walk-chain (suc fuel) i zero s v a e h = ground (arith, next-end m (suc i))
  walk-chain (suc fuel) i (suc k) s v a e h =
      let (c, at_i, split) = take-drop-step m.addln_pieces i k (omega arith) in
      rw (walk_step fuel (suc i) (suc (suc i)) s (next-chain m i c v (omega arith) at_i), split)
        (walk-chain fuel (suc i) k (f s (chain_blkid m.chunk_num c)) v a (omega arith)
          (omega arith))

  -- The loop `while (auto b = it.next())` over a well-formed value visits exactly its pieces, in
  -- order, and its seven rounds are enough.
  pub iterate-pieces : (s : S) → IsWellFormed m → iterate f m s ≡ foldl f s (pieces m)
  unfolding walk next
  iterate-pieces s w = elim (Bool-cases (Blk.is_valid m.base)) [
    | inl v ↦
        ground
          (arith, walk-chain 6 0 m.n_addln_piece (f s (make_blkid m.blk_num m.nblks m.chunk_num)) v)
    | inr v ↦ ground arith
  ]

abbrev pub total : List BlkId → ℕ
total [] = 0
total (b ∷ bs) = Blk.blk_count b + total bs

foldl-count :
    (bs : List BlkId) (n : ℕ)
    → foldl (λ n b. (n + Blk.blk_count b) % 2 ^ 16) (n % 2 ^ 16) bs ≡ (n + total bs) % 2 ^ 16
foldl-count [] n = ap (λ k. k % 2 ^ 16) (omega arith)
foldl-count (b ∷ bs) n =
    ap (λ k. foldl (λ n b. (n + Blk.blk_count b) % 2 ^ 16) k bs) (omega arith)
    ∙ foldl-count bs (n + Blk.blk_count b)
    ∙ ap (λ k. k % 2 ^ 16) (omega arith)

-- `blk_count` of a well-formed value is the sum of the counts of its pieces, modulo 2 ^ 16: it is
-- the true sum when that is below 65536.
pub blk_count-total : (m : MultiBlkId) → IsWellFormed m → blk_count m ≡ total (pieces m) % 2 ^ 16
unfolding blk_count
blk_count-total m w =
    iterate-pieces _ m 0 w ∙ foldl-count (pieces m) 0 ∙ ap (λ k. k % 2 ^ 16) (omega arith)
