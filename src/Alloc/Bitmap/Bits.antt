-- ===== src/Alloc/Bitmap/Bits.antt =====
-- Which bits a block id sets.
use home_store.Prelude.{
  ℕ, ◌≡◌, refl, ap, ◌∙◌, Bool, true, false, ◌||◌, Option, none, some, List, [], ◌∷◌, arith,
}
use mathlib.Core.List.{foldl}
use home_store.Blk.{BlkId, blk_count}
use home_store.Blk.Multi.Pieces.{IsWellFormed, pieces, iterate-pieces}
use home_store.Alloc.Bitmap.{Bitset, IsBitset, covers, BlkRef, set_on_disk_bm, set_pieces}

-- The blocks that a reference stands for.
abbrev pub blks_of : BlkRef → List BlkId
blks_of (BlkRef.one b) = b ∷ []
blks_of (BlkRef.multi m) = pieces m

abbrev pub IsRef : BlkRef → Type 0
IsRef (BlkRef.one b) = Unit {0}
IsRef (BlkRef.multi m) = IsWellFormed m

abbrev pub covered : List BlkId → ℕ → Bool
covered [] i = false
covered (b ∷ bs) i = covered bs i || covers b.blk_num b.nblks i

module _ {B : Type 0} (ops : Bitset B) (bit : ℕ → B → Bool) (laws : IsBitset ops bit) where
  -- The blocks can be set one after another with no bit set twice, unless that is not looked at.
  unfoldable pub Free : Bool → List BlkId → B → Type 0
  Free initializing [] bm = Unit {0}
  Free initializing (b ∷ bs) bm =
      (initializing ≡ false → (i : ℕ) → covers b.blk_num b.nblks i ≡ true → bit i bm ≡ false)
      × Free initializing bs (ops.set_bits b.blk_num b.nblks bm)

  abbrev set_next : Bool → Option B → BlkId → Option B
  set_next initializing s b = elim s [ none ↦ none | some x ↦ set_on_disk_bm ops initializing b x ]

  set_one :
      (initializing : Bool) (b : BlkId) (bm : B)
      → (initializing ≡ false → (i : ℕ) → covers b.blk_num b.nblks i ≡ true → bit i bm ≡ false)
      → set_on_disk_bm ops initializing b bm ≡ some (ops.set_bits b.blk_num b.nblks bm)
  unfolding set_on_disk_bm blk_count
  set_one true b bm free = refl
  set_one false b bm free =
      let clear : ops.is_bits_reset b.blk_num b.nblks bm ≡ true =
        (laws.reset_iff b.blk_num b.nblks bm).1 (free refl) in
      rw clear refl

  set_list :
      (initializing : Bool) (bs : List BlkId) (bm : B)
      → Free initializing bs bm
      → (c : B) × (foldl (set_next initializing) (some bm) bs ≡ some c)
        × ((i : ℕ) → bit i c ≡ covered bs i || bit i bm)
  unfolding Free
  set_list initializing [] bm free = (bm, refl, λ i. refl)
  set_list initializing (b ∷ bs) bm (free, rest) =
      let (c, e, bits) = set_list initializing bs (ops.set_bits b.blk_num b.nblks bm) rest in
      (
        c,
        ap (λ s. foldl (set_next initializing) s bs) (set_one initializing b bm free) ∙ e,
        λ i.
            bits i
            ∙ ap (λ x. covered bs i || x) (laws.set_bit b.blk_num b.nblks i bm)
            ∙ ground arith,
      )

  -- Setting the blocks of a reference sets their bits and no other.
  pub set_pieces-bits :
      (initializing : Bool) (r : BlkRef) (bm : B)
      → IsRef r
      → Free initializing (blks_of r) bm
      → (c : B) × (set_pieces ops initializing r bm ≡ some c)
        × ((i : ℕ) → bit i c ≡ covered (blks_of r) i || bit i bm)
  unfolding set_pieces
  set_pieces-bits initializing (BlkRef.one b) bm w free = set_list initializing (b ∷ []) bm free
  set_pieces-bits initializing (BlkRef.multi m) bm w free =
      let (c, e, bits) = set_list initializing (pieces m) bm free in
      (c, iterate-pieces (set_next initializing) m (some bm) w ∙ e, bits)
