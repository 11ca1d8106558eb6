-- ===== src/Alloc/Bitmap/Reserve.antt =====
-- What a reservation on disk leaves.
use home_store.Prelude.{
  ℕ, ◌≡◌, refl, sym, ap, ◌∙◌, Bool, true, false, ◌||◌, none, some, List, [], ◌∷◌, ◌++◌, map,
  append_assoc, arith, append-nil,
}
use home_store.Blk.Multi.{MultiBlkId, ChainBlkId}
use home_store.Blk.Multi.Pieces.{IsWellFormed, pieces}
use home_store.Alloc.{BlkAllocStatus}
use home_store.Alloc.Bitmap.{
  Bitset, IsBitset, BlkRef, BitmapBlkAllocator, set_pieces, reserve_on_disk, reserve_all, arrive,
  pushed,
}
use home_store.Alloc.Bitmap.Bits.{blks_of, IsRef, covered, Free, set_pieces-bits}

module _ {B : Type 0} (ops : Bitset B) (bit : ℕ → B → Bool) (laws : IsBitset ops bit)
    (garbage : List ChainBlkId) where
  reserve-eq :
      (r : BlkRef) (a : BitmapBlkAllocator B) (c : B)
      → a.is_persistent ≡ true
      → a.alloc_blkid_list ≡ none
      → set_pieces ops a.initializing r a.disk_bm ≡ some c
      → reserve_on_disk ops garbage r a
        ≡ some (BlkAllocStatus.success, record a { disk_bm = c; is_disk_bm_dirty = true })
  unfolding reserve_on_disk
  reserve-eq r a c p l e = ground arith

  -- While no flush runs, a reservation of blocks that are free on disk sets their bits and no other,
  -- and makes the bitmap dirty. During start-up the blocks may be set already.
  pub reserve_on_disk-bits :
      (r : BlkRef) (a : BitmapBlkAllocator B)
      → a.is_persistent ≡ true
      → a.alloc_blkid_list ≡ none
      → IsRef r
      → Free ops bit laws a.initializing (blks_of r) a.disk_bm
      → (c : BitmapBlkAllocator B) × (reserve_on_disk ops garbage r a
          ≡ some (BlkAllocStatus.success, c))
        × (c.is_disk_bm_dirty ≡ true)
        × ((i : ℕ) → bit i c.disk_bm ≡ covered (blks_of r) i || bit i a.disk_bm)
  reserve_on_disk-bits r a p l w free =
      let (c, e, bits) = set_pieces-bits ops bit laws a.initializing r a.disk_bm w free in
      (record a { disk_bm = c; is_disk_bm_dirty = true }, reserve-eq r a c p l e, refl, bits)

  reserve-waits :
      (r : BlkRef) (list : List MultiBlkId) (a : BitmapBlkAllocator B)
      → a.is_persistent ≡ true
      → reserve_on_disk ops garbage r (record a { alloc_blkid_list = some list })
        ≡ some (
          BlkAllocStatus.success,
          record a { alloc_blkid_list = some (list ++ pushed ops garbage r ∷ []) },
        )
  unfolding reserve_on_disk
  reserve-waits r list a p = ground arith

  arrive-step :
      (r : BlkRef) (rs : List BlkRef) (a : BitmapBlkAllocator B) {st : BlkAllocStatus}
      {b : BitmapBlkAllocator B}
      → reserve_on_disk ops garbage r a ≡ some (st, b)
      → arrive ops garbage (r ∷ rs) a ≡ arrive ops garbage rs b
  unfolding arrive
  arrive-step r rs a e = ground arith

  reserve_all-step :
      (m : MultiBlkId) (ms : List MultiBlkId) (a : BitmapBlkAllocator B) {st : BlkAllocStatus}
      {b : BitmapBlkAllocator B}
      → reserve_on_disk ops garbage (BlkRef.multi m) a ≡ some (st, b)
      → reserve_all ops garbage (m ∷ ms) a ≡ reserve_all ops garbage ms b
  unfolding reserve_all
  reserve_all-step m ms a e = ground arith

  -- While a flush runs, reservations only wait in the list.
  pub arrive-eq :
      (rs : List BlkRef) (list : List MultiBlkId) (a : BitmapBlkAllocator B)
      → a.is_persistent ≡ true
      → arrive ops garbage rs (record a { alloc_blkid_list = some list })
        ≡ some (record a { alloc_blkid_list = some (list ++ map (pushed ops garbage) rs) })
  unfolding arrive
  arrive-eq [] list a p =
      ap (λ l. some (record a { alloc_blkid_list = some l })) (sym (append-nil list))
  arrive-eq (r ∷ rs) list a p =
      arrive-step r rs (record a { alloc_blkid_list = some list }) (reserve-waits r list a p)
      ∙ (arrive-eq rs (list ++ pushed ops garbage r ∷ []) a p
          ∙ ap (λ l. some (record a { alloc_blkid_list = some l }))
              (append_assoc list (pushed ops garbage r ∷ []) (map (pushed ops garbage) rs)))

  -- The waiting blocks are well formed and can be set one after another.
  unfoldable pub FreeEach : Bool → List MultiBlkId → B → Type 0
  FreeEach initializing [] bm = Unit {0}
  FreeEach initializing (m ∷ ms) bm =
      IsWellFormed m
      × Free ops bit laws initializing (pieces m) bm
      × ((c : B)
          → set_pieces ops initializing (BlkRef.multi m) bm ≡ some c
          → FreeEach initializing ms c)

  abbrev pub covered_each : List MultiBlkId → ℕ → Bool
  covered_each [] i = false
  covered_each (m ∷ ms) i = covered_each ms i || covered (pieces m) i

  pub reserve_all-bits :
      (ms : List MultiBlkId) (a : BitmapBlkAllocator B)
      → a.is_persistent ≡ true
      → a.alloc_blkid_list ≡ none
      → FreeEach a.initializing ms a.disk_bm
      → (c : BitmapBlkAllocator B) × (reserve_all ops garbage ms a ≡ some c)
        × (c.stored ≡ a.stored)
        × (c.alloc_blkid_list ≡ none)
        × ((i : ℕ) → bit i c.disk_bm ≡ covered_each ms i || bit i a.disk_bm)
  unfolding reserve_all FreeEach
  reserve_all-bits [] a p l free = (a, refl, refl, l, λ i. refl)
  reserve_all-bits (m ∷ ms) a p l (w, free, rest) =
      let (c, e, bits) =
        set_pieces-bits ops bit laws a.initializing (BlkRef.multi m) a.disk_bm w free in
      let (d, f, stored, list, more) =
        reserve_all-bits ms (record a { disk_bm = c; is_disk_bm_dirty = true }) p l (rest c e) in
      (
        d,
        reserve_all-step m ms a (reserve-eq (BlkRef.multi m) a c p l e) ∙ f,
        stored,
        list,
        λ i. more i ∙ ap (λ x. covered_each ms i || x) (bits i) ∙ ground arith,
      )
