-- ===== src/Alloc/Bitmap/Flush.antt =====
-- What a checkpoint flush writes, and what becomes of the reservations that come in meanwhile.
use home_store.Prelude.{
  ℕ, ◌≡◌, refl, sym, ap, ◌∙◌, Bool, true, ◌||◌, none, some, List, [], ◌∷◌, ◌++◌, map, ◌%◌, ◌^◌,
  arith,
}
use home_store.Blk.{BlkId, Fits, blk_count}
use home_store.Blk
use home_store.Blk.Multi.{MultiBlkId, ChainBlkId, of_blkid}
use home_store.Blk.Multi.Pieces.{pieces}
use home_store.Alloc.Bitmap.{
  Bitset, IsBitset, BlkRef, BitmapBlkAllocator, pushed, cp_flush, covers, arrive,
  acquire_underlying_buffer, write_bitmap, release_underlying_buffer,
}
use home_store.Prelude.{ap₂, map-append}
use home_store.Alloc.Bitmap.Bits.{covered}
use home_store.Alloc.Bitmap.Reserve.{FreeEach, covered_each, arrive-eq, reserve_all-bits}

-- The first piece that a reference has.
abbrev pub first_blk : BlkRef → BlkId
first_blk (BlkRef.one b) = b
first_blk (BlkRef.multi m) = m.base

abbrev pub FirstFit : List BlkRef → Type 0
FirstFit [] = Unit {0}
FirstFit (r ∷ rs) = Fits (first_blk r) × FirstFit rs

module _ {B : Type 0} (ops : Bitset B) (garbage : List ChainBlkId) where
  of_blkid-covers :
      (b : BlkId) (i : ℕ)
      → Fits b
      → covered (pieces (of_blkid garbage b)) i ≡ covers b.blk_num b.nblks i
  unfolding of_blkid Blk.is_valid blk_count
  of_blkid-covers b i fits =
      let small : b.blk_num % 2 ^ 31 ≡ b.blk_num = omega (arith, fits.blk_num_fits) in ground arith

  pushed-covers :
      (r : BlkRef) (i : ℕ)
      → Fits (first_blk r)
      → covered (pieces (pushed ops garbage r)) i
        ≡ covers (first_blk r).blk_num (first_blk r).nblks i
  unfolding pushed
  pushed-covers (BlkRef.one b) i fits = of_blkid-covers b i fits
  pushed-covers (BlkRef.multi m) i fits = of_blkid-covers m.base i fits

  cp_flush-step :
      (early late : List BlkRef) (a : BitmapBlkAllocator B) {buf : List ℕ}
      {held b c : BitmapBlkAllocator B}
      → a.is_persistent ≡ true
      → a.is_disk_bm_dirty ≡ true
      → acquire_underlying_buffer ops a ≡ some (buf, held)
      → arrive ops garbage early held ≡ some b
      → arrive ops garbage late (write_bitmap ops buf b) ≡ some c
      → cp_flush ops garbage early late a ≡ release_underlying_buffer ops garbage c
  unfolding cp_flush
  cp_flush-step early late a p d e f g = ground arith

  acquire-eq :
      (a : BitmapBlkAllocator B)
      → a.alloc_blkid_list ≡ none
      → acquire_underlying_buffer ops a
        ≡ some (ops.serialize a.disk_bm, record a { alloc_blkid_list = some [] })
  unfolding acquire_underlying_buffer
  acquire-eq a l = ground arith

  module _ (bit : ℕ → B → Bool) (laws : IsBitset ops bit) where
    -- What was waiting covers the first pieces.
    covered_each-first :
        (rs : List BlkRef) (i : ℕ)
        → FirstFit rs
        → covered_each ops bit laws garbage (map (pushed ops garbage) rs) i
          ≡ covered (map first_blk rs) i
    covered_each-first [] i fits = refl
    covered_each-first (r ∷ rs) i (fits, rest) =
        ap₂ (λ x y. x || y) (covered_each-first rs i rest) (pushed-covers r i fits)

    release-bits :
        (ms : List MultiBlkId) (a : BitmapBlkAllocator B)
        → a.is_persistent ≡ true
        → FreeEach ops bit laws garbage a.initializing ms a.disk_bm
        → (c : BitmapBlkAllocator B) × (release_underlying_buffer ops garbage
              (record a { alloc_blkid_list = some ms })
            ≡ some c)
          × (c.stored ≡ a.stored)
          × (c.alloc_blkid_list ≡ none)
          × ((i : ℕ) → bit i c.disk_bm ≡ covered_each ops bit laws garbage ms i || bit i a.disk_bm)
    unfolding release_underlying_buffer
    release-bits ms a p free =
        reserve_all-bits ops bit laws garbage ms (record a { alloc_blkid_list = none }) p refl free

    -- A flush of a dirty bitmap ends and stores the bitmap as it was when the flush began. Of each
    -- reservation that came in meanwhile it sets the blocks of the first piece, and nothing else; the
    -- bitmap keeps every bit that was set. The waiting pieces fit the widths of their fields and can be
    -- set one after another.
    pub cp_flush-bits :
        (early late : List BlkRef) (a : BitmapBlkAllocator B)
        → a.is_persistent ≡ true
        → a.is_disk_bm_dirty ≡ true
        → a.alloc_blkid_list ≡ none
        → FirstFit (early ++ late)
        → FreeEach ops bit laws garbage a.initializing
            (map (pushed ops garbage) (early ++ late))
            a.disk_bm
        → (c : BitmapBlkAllocator B) × (cp_flush ops garbage early late a ≡ some c)
          × (c.stored ≡ some (ops.serialize a.disk_bm))
          × (c.alloc_blkid_list ≡ none)
          × ((i : ℕ)
              → bit i c.disk_bm ≡ covered (map first_blk (early ++ late)) i || bit i a.disk_bm)
    unfolding write_bitmap
    cp_flush-bits early late a p d l fits free =
        let ms : List MultiBlkId = map (pushed ops garbage) (early ++ late) in
        let w : BitmapBlkAllocator B = write_bitmap ops (ops.serialize a.disk_bm) a in
        let (c, e, stored, list, bits) = release-bits ms w p free in
        (
          c,
          cp_flush-step early late a p d (acquire-eq a l)
                (arrive-eq ops bit laws garbage early [] a p)
                (arrive-eq ops bit laws garbage late (map (pushed ops garbage) early) w p
                  ∙ ap (λ x. some (record w { alloc_blkid_list = some x }))
                      (sym (map-append (pushed ops garbage) early late)))
              ∙ e,
          stored,
          list,
          λ i. bits i ∙ ap (λ x. x || bit i a.disk_bm) (covered_each-first (early ++ late) i fits),
        )
