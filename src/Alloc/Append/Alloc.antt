-- ===== src/Alloc/Append/Alloc.antt =====
-- What an allocation answers.
use home_store.Prelude.{
  ℕ, ◌+◌, ◌-◌, ◌%◌, ◌^◌, ◌≤◌, ◌<◌, ◌≡◌, true, false, Option, none, some, arith, ltb, dec_lt,
}
use home_store.Blk.{BlkId}
use home_store.Alloc.{BlkAllocStatus, max_blks_per_blkid}
use home_store.Alloc.Append.{AppendBlkAllocator, alloc, available_blks, without_reserved}
use home_store.Alloc.Append.Invariant.{IsValid, available_blks-eq}

-- The blocks that may be handed out.
abbrev pub allocatable : Option ℕ → AppendBlkAllocator → ℕ
allocatable none a = a.num_blks - a.last_append_offset
allocatable (some reserved) a = a.num_blks - a.last_append_offset - reserved

-- Exactly one of the three answers, with what each says.
pub data Answers (nblks : ℕ) (reserved : Option ℕ) (a : AppendBlkAllocator)
    : BlkAllocStatus × Option BlkId × AppendBlkAllocator → Type 0 where
  full :
      allocatable reserved a < nblks → Answers nblks reserved a (BlkAllocStatus.space_full, none, a)
  too_large :
      nblks ≤ allocatable reserved a
      → max_blks_per_blkid < nblks
      → Answers nblks reserved a (BlkAllocStatus.failed, none, a)
  appended :
      nblks ≤ allocatable reserved a
      → nblks ≤ max_blks_per_blkid
      → Answers nblks reserved a (
        BlkAllocStatus.success,
        some (record {
          is_multi = false;
          blk_num = a.last_append_offset;
          nblks = nblks;
          chunk_num = a.chunk_id;
        }),
        record a { last_append_offset = a.last_append_offset + nblks },
      )

without_reserved-eq :
    (reserved : Option ℕ) (a : AppendBlkAllocator)
    → IsValid a
    → without_reserved reserved (available_blks a) ≡ allocatable reserved a
without_reserved-eq none a v = available_blks-eq a v
without_reserved-eq (some r) a v = rw (available_blks-eq a v) (ground arith)

allocatable-le :
    (reserved : Option ℕ) (a : AppendBlkAllocator)
    → allocatable reserved a ≤ a.num_blks - a.last_append_offset
allocatable-le none a = omega arith
allocatable-le (some r) a = omega arith

-- On a valid allocator, an allocation of at least one block is refused and changes nothing if fewer
-- blocks are free, less the reserved ones; is failed if it is more than one block id can name; and
-- else gets exactly the blocks at the append offset, which moves past them.
pub alloc-Answers :
    (nblks : ℕ) (reserved : Option ℕ) (a : AppendBlkAllocator)
    → IsValid a
    → 0 < nblks
    → Answers nblks reserved a (alloc nblks reserved a)
unfolding alloc
alloc-Answers nblks reserved a v h =
    rw (without_reserved-eq reserved a v) (elim (dec_lt (allocatable reserved a) nblks) [
      | yes short ↦
          let e : ltb (allocatable reserved a) nblks ≡ true = ground arith in rw e (full short)
      | no enough ↦
          let e : ltb (allocatable reserved a) nblks ≡ false = ground arith in
          elim (dec_lt max_blks_per_blkid nblks) [
            | yes large ↦
                let f : ltb max_blks_per_blkid nblks ≡ true = ground arith in
                rw (e, f) (too_large (omega arith) large)
            | no fits ↦
                let f : ltb max_blks_per_blkid nblks ≡ false = ground arith in
                let start : a.last_append_offset % 2 ^ 31 ≡ a.last_append_offset =
                  omega (arith, v.small, allocatable-le reserved a) in
                let next : (a.last_append_offset + nblks) % 2 ^ 32 ≡ a.last_append_offset + nblks =
                  omega (arith, v.small, allocatable-le reserved a) in
                rw (e, f, start, next) (appended (omega arith) (omega arith))
          ]
    ])

-- An allocation that succeeds, in numbers.
pub record Appended (a : AppendBlkAllocator) (nblks : ℕ) (b : BlkId) (c : AppendBlkAllocator)
    : Type 0 where
  pub start : b.blk_num ≡ a.last_append_offset
  pub size : b.nblks ≡ nblks
  pub next : c.last_append_offset ≡ a.last_append_offset + nblks
  pub total : c.num_blks ≡ a.num_blks
  pub valid : IsValid c

Appended-of :
    (nblks : ℕ) (reserved : Option ℕ) (a : AppendBlkAllocator)
    → IsValid a
    → {r : BlkAllocStatus × Option BlkId × AppendBlkAllocator} → Answers nblks reserved a r
    → (b : BlkId) (c : AppendBlkAllocator) → r ≡ (BlkAllocStatus.success, some b, c)
    → Appended a nblks b c
Appended-of nblks reserved a v (full p) b c e = absurd cc
Appended-of nblks reserved a v (too_large p q) b c e = absurd cc
Appended-of nblks reserved a v (appended p q) b c e =
    let le : allocatable reserved a ≤ a.num_blks - a.last_append_offset =
      allocatable-le reserved a in
    ground arith

pub alloc-Appended :
    (nblks : ℕ) (reserved : Option ℕ) (a c : AppendBlkAllocator) (b : BlkId)
    → IsValid a
    → 0 < nblks
    → alloc nblks reserved a ≡ (BlkAllocStatus.success, some b, c)
    → Appended a nblks b c
alloc-Appended nblks reserved a c b v h e =
    Appended-of nblks reserved a v (alloc-Answers nblks reserved a v h) b c e
