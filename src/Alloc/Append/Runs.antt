-- ===== src/Alloc/Append/Runs.antt =====
-- Any sequence of operations on an allocator.
use home_store.Prelude.{
  ℕ, zero, suc, ◌+◌, ◌≤◌, ◌<◌, ◌≡◌, refl, ◌∙◌, Option, some, List, [], ◌∷◌, get_elem?, arith,
}
use home_store.Blk.{BlkId, blk_count}
use home_store.Alloc.{BlkAllocStatus}
use home_store.Alloc.Append.{
  AppendBlkAllocator, alloc, reserve_on_disk, reserve_on_cache, cp_flush, free,
}
use home_store.Alloc.Append.Invariant.{
  IsValid, reserve_on_disk-IsValid, reserve_on_cache-IsValid, free-IsValid, cp_flush-same,
  cp_flush-IsValid,
}
use home_store.Alloc.Append.Alloc.{Appended, alloc-Appended}

-- From the first allocator to the second one, with the blocks that were handed out, in order. A block
-- is reserved on disk only below the append offset, and in the cache only within the chunk.
pub data Steps : AppendBlkAllocator → List BlkId → AppendBlkAllocator → Type 0 where
  stop : {a : AppendBlkAllocator} → Steps a [] a
  allocated :
      {a a' c : AppendBlkAllocator} {bs : List BlkId} (nblks : ℕ) (reserved : Option ℕ) (b : BlkId)
      → 0 < nblks
      → alloc nblks reserved a ≡ (BlkAllocStatus.success, some b, a')
      → Steps a' bs c
      → Steps a (b ∷ bs) c
  reserved_on_disk :
      {a c : AppendBlkAllocator} {bs : List BlkId} (b : BlkId)
      → b.blk_num + blk_count b ≤ a.last_append_offset
      → Steps (reserve_on_disk b a).1 bs c
      → Steps a bs c
  reserved_on_cache :
      {a c : AppendBlkAllocator} {bs : List BlkId} (b : BlkId)
      → b.blk_num + blk_count b ≤ a.num_blks
      → Steps (reserve_on_cache b a).1 bs c
      → Steps a bs c
  freed :
      {a c : AppendBlkAllocator} {bs : List BlkId} (b : BlkId)
      → Steps (free b a) bs c
      → Steps a bs c
  flushed :
      {a a' c : AppendBlkAllocator} {bs : List BlkId}
      → cp_flush a ≡ some a'
      → Steps a' bs c
      → Steps a bs c

-- Blocks one after another, from the first number to the second.
pub data Stacked : ℕ → List BlkId → ℕ → Type 0 where
  none_left : {lo hi : ℕ} → lo ≤ hi → Stacked lo [] hi
  on_top :
      {lo hi : ℕ} {bs : List BlkId} (b : BlkId)
      → lo ≤ b.blk_num
      → Stacked (b.blk_num + b.nblks) bs hi
      → Stacked lo (b ∷ bs) hi

lower : {lo lo' hi : ℕ} {bs : List BlkId} → lo ≤ lo' → Stacked lo' bs hi → Stacked lo bs hi
lower h (none_left p) = none_left (omega arith)
lower h (on_top b p s) = on_top b (omega arith) s

reserve_on_disk-same :
    (b : BlkId) (a : AppendBlkAllocator)
    → ((reserve_on_disk b a).1.num_blks ≡ a.num_blks)
      × ((reserve_on_disk b a).1.last_append_offset ≡ a.last_append_offset)
unfolding reserve_on_disk
reserve_on_disk-same b a = ground arith

reserve_on_cache-grows :
    (b : BlkId) (a : AppendBlkAllocator)
    → ((reserve_on_cache b a).1.num_blks ≡ a.num_blks)
      × (a.last_append_offset ≤ (reserve_on_cache b a).1.last_append_offset)
unfolding reserve_on_cache
reserve_on_cache-grows b a = ground arith

-- What a run keeps: the size and the order of the offsets, with the blocks between them.
pub record Ran (a : AppendBlkAllocator) (bs : List BlkId) (c : AppendBlkAllocator) : Type 0 where
  pub valid : IsValid c
  pub total : c.num_blks ≡ a.num_blks
  pub stacked : Stacked a.last_append_offset bs c.last_append_offset

pub Steps-Ran : {a c : AppendBlkAllocator} {bs : List BlkId} → Steps a bs c → IsValid a → Ran a bs c
unfolding free
Steps-Ran stop v = record { valid = v; total = refl; stacked = none_left (omega arith) }
Steps-Ran {a} {c} (allocated {a' = a'} {bs = bs} nblks reserved b h e s) v =
    let p : Appended a nblks b a' = alloc-Appended nblks reserved a a' b v h e in
    let r : Ran a' bs c = Steps-Ran s p.valid in
    let end : b.blk_num + b.nblks ≡ a'.last_append_offset =
      omega (arith, p.start, p.size, p.next) in
    record {
      valid = r.valid;
      total = r.total ∙ p.total;
      stacked = on_top b (omega (arith, p.start)) (rw end r.stacked);
    }
Steps-Ran {a} {c} {bs} (reserved_on_disk b h s) v =
    let r : Ran (reserve_on_disk b a).1 bs c = Steps-Ran s (reserve_on_disk-IsValid b a h v) in
    let (same, at) = reserve_on_disk-same b a in
    record { valid = r.valid; total = r.total ∙ same; stacked = rw (← at) r.stacked }
Steps-Ran {a} {c} {bs} (reserved_on_cache b h s) v =
    let r : Ran (reserve_on_cache b a).1 bs c = Steps-Ran s (reserve_on_cache-IsValid b a h v) in
    let (same, above) = reserve_on_cache-grows b a in
    record { valid = r.valid; total = r.total ∙ same; stacked = lower above r.stacked }
Steps-Ran {a} {c} {bs} (freed b s) v =
    let r : Ran (free b a) bs c = Steps-Ran s (free-IsValid b a v) in
    record { valid = r.valid; total = r.total; stacked = r.stacked }
Steps-Ran {a} {c} {bs} (flushed {a' = a'} e s) v =
    let r : Ran a' bs c = Steps-Ran s (cp_flush-IsValid a a' e v) in
    let (same, at, _) = cp_flush-same a a' e in
    record { valid = r.valid; total = r.total ∙ same; stacked = rw (← at) r.stacked }

ends : {lo hi : ℕ} {bs : List BlkId} → Stacked lo bs hi → lo ≤ hi
ends (none_left p) = p
ends (on_top c p s) = omega (arith, ends s)

starts :
    {lo hi : ℕ} {bs : List BlkId}
    → Stacked lo bs hi
    → (j : ℕ) (b : BlkId) → get_elem? bs j ≡ some b
    → (lo ≤ b.blk_num) × (b.blk_num + b.nblks ≤ hi)
starts (none_left p) j b e = absurd cc
starts (on_top c p s) zero b e = let same : c ≡ b = cc in rw (← same) (p, ends s)
starts (on_top c p s) (suc j) b e = let (q, r) = starts s j b e in (omega arith, r)

apart :
    {lo hi : ℕ} {bs : List BlkId}
    → Stacked lo bs hi
    → (i j : ℕ) (b c : BlkId) → i < j
    → get_elem? bs i ≡ some b
    → get_elem? bs j ≡ some c
    → b.blk_num + b.nblks ≤ c.blk_num
apart (none_left p) i j b c h e f = absurd cc
apart (on_top x p s) i zero b c h e f = absurd (omega arith)
apart (on_top x p s) zero (suc j) b c h e f =
    let same : x ≡ b = cc in let (q, _) = starts s j c f in rw (← same) q
apart (on_top x p s) (suc i) (suc j) b c h e f = apart s i j b c (omega arith) e f

-- However an allocator that was valid is used, a block id that it hands out ends before every later
-- one starts, and lies within the chunk and from where the allocator appended at first.
pub Steps-disjoint :
    {a d : AppendBlkAllocator} {bs : List BlkId}
    → Steps a bs d
    → IsValid a
    → (i j : ℕ) (b c : BlkId) → i < j
    → get_elem? bs i ≡ some b
    → get_elem? bs j ≡ some c
    → (a.last_append_offset ≤ b.blk_num)
      × (b.blk_num + b.nblks ≤ c.blk_num)
      × (c.blk_num + c.nblks ≤ a.num_blks)
Steps-disjoint s v i j b c h e f =
    let r = Steps-Ran s v in
    let (low, _) = starts r.stacked i b e in
    let (_, high) = starts r.stacked j c f in
    (low, apart r.stacked i j b c h e f, omega (arith, high, r.total, r.valid.within))
