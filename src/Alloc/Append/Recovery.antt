-- ===== src/Alloc/Append/Recovery.antt =====
-- What a restart finds of an allocator.
use home_store.Prelude.{
  ℕ, ◌+◌, ◌^◌, ◌≤◌, ◌<◌, ◌≡◌, refl, ◌∙◌, true, false, Bool-cases, leb, lt→ltb, inl, inr, Option,
  none, some, arith,
}
use home_store.Blk.{BlkId, blk_count}
use home_store.Superblk.{create, load, write, destroy}
use home_store.Alloc.{BlkAllocStatus}
use home_store.Alloc.Append.{
  AppendBlkSb, AppendBlkAllocator, make, on_meta_blk_found, alloc, reserve_on_disk, cp_flush, free,
  reset, get_used_blks, available_blks, is_blk_alloced, is_blk_alloced_on_disk, get_defrag_nblks,
}
use home_store.Alloc.Append.Invariant.{IsValid, reserve_on_disk-IsValid}
use home_store.Alloc.Append.Alloc.{Appended, alloc-Appended}

-- A new allocator for the chunk, which gets the superblock that the meta service holds.
unfoldable pub boot : ℕ → ℕ → Option AppendBlkSb → AppendBlkAllocator
boot num_blks id none = make num_blks id none
boot num_blks id (some x) = on_meta_blk_found x (make num_blks id (some x))

unfoldable pub restart : AppendBlkAllocator → AppendBlkAllocator
restart a = boot a.num_blks a.chunk_id a.sb.stored

-- The superblock is there, and unless the allocator is dirty a restart finds what it has committed.
pub record InSync (a : AppendBlkAllocator) : Type 0 where
  pub live : (x : AppendBlkSb) × (a.sb.sb ≡ some x)
  pub clean :
      a.is_dirty ≡ false
      → ((restart a).commit_offset ≡ a.commit_offset)
        × ((restart a).freeable_nblks ≡ a.freeable_nblks)

boot-start :
    (n id : ℕ) (x : Option AppendBlkSb)
    → (boot n id x).last_append_offset ≡ (boot n id x).commit_offset
unfolding boot make on_meta_blk_found
boot-start n id none = refl
boot-start n id (some x) = refl

boot-num_blks : (n id : ℕ) (x : Option AppendBlkSb) → (boot n id x).num_blks ≡ n
unfolding boot make on_meta_blk_found
boot-num_blks n id none = refl
boot-num_blks n id (some x) = refl

boot-InSync : (n id : ℕ) (x : Option AppendBlkSb) → InSync (boot n id x)
unfolding restart boot make on_meta_blk_found create load
boot-InSync n id none = record { live = (_, refl); clean = λ e. (refl, refl) }
boot-InSync n id (some x) = record { live = (_, refl); clean = λ e. (refl, refl) }

pub restart-InSync : (a : AppendBlkAllocator) → InSync (restart a)
unfolding restart
restart-InSync a = boot-InSync a.num_blks a.chunk_id a.sb.stored

pub reserve_on_disk-InSync :
    (b : BlkId) (a : AppendBlkAllocator) → InSync a → InSync (reserve_on_disk b a).1
unfolding reserve_on_disk
reserve_on_disk-InSync b a s = elim (Bool-cases (leb (b.blk_num + blk_count b) a.commit_offset)) [
  | inl e ↦ rw e s
  | inr e ↦ rw e (record { live = s.live; clean = λ p. absurd cc })
]

pub free-InSync : (b : BlkId) (a : AppendBlkAllocator) → InSync a → InSync (free b a)
unfolding free
free-InSync b a s = record { live = s.live; clean = λ e. absurd cc }

-- What is reserved on disk is committed.
commits :
    (b : BlkId) (a : AppendBlkAllocator)
    → b.blk_num + b.nblks ≤ (reserve_on_disk b a).1.commit_offset
unfolding reserve_on_disk blk_count
commits b a = ground arith

-- What a flush leaves, and what a restart then finds.
pub record Flushed (a c : AppendBlkAllocator) : Type 0 where
  pub synced : InSync c
  pub offset : get_used_blks (restart c) ≡ a.commit_offset
  pub committed : (restart c).commit_offset ≡ a.commit_offset
  pub total : (restart c).num_blks ≡ a.num_blks
  pub freeable : get_defrag_nblks (restart c) ≡ a.freeable_nblks

module _ (a : AppendBlkAllocator) where
  abbrev kept : AppendBlkSb → AppendBlkSb
  kept x = record x { commit_offset = a.commit_offset; freeable_nblks = a.freeable_nblks }

  abbrev written : AppendBlkSb → AppendBlkAllocator
  written x = record a {
    is_dirty = false;
    sb = record { sb = some (kept x); meta_blk = true; stored = some (kept x) };
  }

  written-eq :
      (x : AppendBlkSb) → a.is_dirty ≡ true → a.sb.sb ≡ some x → cp_flush a ≡ some (written x)
  unfolding cp_flush write
  written-eq x d e = rw (d, e) refl

  written-Flushed : (x : AppendBlkSb) → Flushed a (written x)
  unfolding boot make on_meta_blk_found restart get_used_blks get_defrag_nblks
  written-Flushed x = record {
    synced = record { live = (kept x, refl); clean = λ e. (refl, refl) };
    offset = refl;
    committed = refl;
    total = refl;
    freeable = refl;
  }

  clean-Flushed : InSync a → a.is_dirty ≡ false → Flushed a a
  unfolding restart get_used_blks get_defrag_nblks
  clean-Flushed s clean =
      let (offset, freeable) = s.clean clean in
      record {
        synced = s;
        offset = boot-start a.num_blks a.chunk_id a.sb.stored ∙ offset;
        committed = offset;
        total = boot-num_blks a.num_blks a.chunk_id a.sb.stored;
        freeable = freeable;
      }

  -- On an allocator that is in step with its superblock, a flush ends, the allocator is in step again,
  -- and a restart then starts from what was committed before the flush.
  pub cp_flush-Flushed : InSync a → (c : AppendBlkAllocator) × (cp_flush a ≡ some c) × Flushed a c
  unfolding cp_flush
  cp_flush-Flushed s = elim (Bool-cases a.is_dirty) [
    | inl dirty ↦ let (x, e) = s.live in (written x, written-eq x dirty e, written-Flushed x)
    | inr clean ↦ (a, rw clean refl, clean-Flushed s clean)
  ]

-- Blocks that were allocated and reserved on disk before a flush survive a restart after it: the
-- restarted allocator is valid, counts each of them as allocated, and hands none of them out.
pub restart-after_commit :
    (a : AppendBlkAllocator) (b : BlkId)
    → InSync a
    → IsValid a
    → b.blk_num + b.nblks ≤ a.last_append_offset
    → (c : AppendBlkAllocator) × (cp_flush (reserve_on_disk b a).1 ≡ some c)
      × IsValid (restart c)
      × ((i : ℕ)
          → i < b.nblks
          → is_blk_alloced (record b { blk_num = b.blk_num + i }) (restart c) ≡ true)
      × ((nblks : ℕ) (reserved : Option ℕ) (d : BlkId) (e : AppendBlkAllocator)
          → 0 < nblks
          → alloc nblks reserved (restart c) ≡ (BlkAllocStatus.success, some d, e)
          → b.blk_num + b.nblks ≤ d.blk_num)
unfolding is_blk_alloced get_used_blks blk_count
restart-after_commit a b s v h =
    let (c, e, f) = cp_flush-Flushed (reserve_on_disk b a).1 (reserve_on_disk-InSync b a s) in
    let v' : IsValid (reserve_on_disk b a).1 = reserve_on_disk-IsValid b a h v in
    let above : b.blk_num + b.nblks ≤ (reserve_on_disk b a).1.commit_offset = commits b a in
    let small : (reserve_on_disk b a).1.num_blks ≤ 2 ^ 31 = v'.small in
    let at : (restart c).last_append_offset ≡ (reserve_on_disk b a).1.commit_offset = f.offset in
    let valid : IsValid (restart c) = record {
      small = omega (arith, f.total, v'.small);
      committed = omega (arith, f.committed, at);
      within = omega (arith, at, f.total, v'.committed, v'.within);
    } in
    (
      c,
      e,
      valid,
      λ i p. lt→ltb (b.blk_num + i) (restart c).last_append_offset (omega arith),
      λ nblks reserved d g p q.
          let r : Appended (restart c) nblks d g =
            alloc-Appended nblks reserved (restart c) g d valid p q in
          omega (arith, r.start),
    )

-- After `reset` no block counts as allocated on disk and the service holds nothing, but the append
-- offset stays, so blocks below it still count as allocated and are not available.
pub reset-offsets :
    (a : AppendBlkAllocator) (b : BlkId)
    → (is_blk_alloced_on_disk b (reset a) ≡ false)
      × (a.sb.meta_blk ≡ true → (reset a).sb.stored ≡ none)
      × (is_blk_alloced b (reset a) ≡ is_blk_alloced b a)
      × (available_blks (reset a) ≡ available_blks a)
unfolding is_blk_alloced_on_disk is_blk_alloced available_blks get_used_blks reset destroy
reset-offsets a b = (refl, λ e. rw e refl, refl, refl)
