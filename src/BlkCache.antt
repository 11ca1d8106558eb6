-- ===== src/BlkCache.antt =====
-- The cache of free blocks that the allocator of variable sizes allocates from: `SlabCacheQueue` and
-- `FreeBlkCacheQueue` of src/lib/blkalloc/blk_cache_queue.cpp, and src/lib/blkalloc/blk_cache.h. The bounded
-- queues of folly are lists with a limit. Access outside a vector is none.
mod Levels
mod Slabs
mod Free
mod Alloc
mod Tests
use home_store.Prelude.{
  ℕ, zero, suc, ◌+◌, ◌-◌, ◌*◌, ◌/◌, ◌%◌, ◌^◌, Bool, true, false, not, ◌&&◌, ◌||◌, ltb, leb, ◌==◌,
  if◌then◌else◌, Option, some, none, get_elem?, List, [], ◌∷◌, ◌++◌, length, min,
}

pub record BlkCacheEntry : Type 0 where
  pub blk_num : ℕ
  pub nblks : ℕ
  pub temp : ℕ

pub record LevelQueue : Type 0 where
  pub limit : ℕ
  pub entries : List BlkCacheEntry

-- At the back, unless the queue is full.
abbrev pub put_in : BlkCacheEntry → LevelQueue → Option LevelQueue
put_in e q =
    if ltb (length q.entries) q.limit
    then some (record q { entries = q.entries ++ e ∷ [] })
    else none

abbrev pub take_out : LevelQueue → Option (BlkCacheEntry × LevelQueue)
take_out q = elim q.entries [ [] ↦ none | e ∷ es ↦ some (e, record q { entries = es }) ]

abbrev pub put_level : ℕ → BlkCacheEntry → List LevelQueue → Option (List LevelQueue)
put_level level e [] = none
put_level zero e (q ∷ qs) = elim (put_in e q) [ none ↦ none | some q' ↦ some (q' ∷ qs) ]
put_level (suc level) e (q ∷ qs) = elim (put_level level e qs) [
  | none ↦ none
  | some qs' ↦ some (q ∷ qs')
]

abbrev pub take_level : ℕ → List LevelQueue → Option (BlkCacheEntry × List LevelQueue)
take_level level [] = none
take_level zero (q ∷ qs) = elim (take_out q) [ none ↦ none | some (e, q') ↦ some (e, q' ∷ qs) ]
take_level (suc level) (q ∷ qs) = elim (take_level level qs) [
  | none ↦ none
  | some (e, qs') ↦ some (e, q ∷ qs')
]

-- A temperature above the levels is the last level.
abbrev pub start_level : ℕ → List LevelQueue → ℕ
start_level temp qs = if leb (length qs) temp then length qs - 1 else temp

-- The levels after this one, in a circle, until the start.
unfoldable pub push_around :
    ℕ → ℕ → ℕ → BlkCacheEntry → List LevelQueue → Option (ℕ × List LevelQueue)
push_around zero start level e qs = none
push_around (suc fuel) start level e qs =
    let next = (level + 1) % length qs in
    let rest = push_around fuel start next e qs in
    if next == start
    then none
    else (elim (put_level next e qs) [ none ↦ rest | some qs' ↦ some (next, qs') ])

unfoldable pub pop_around : ℕ → ℕ → ℕ → List LevelQueue → Option (BlkCacheEntry × List LevelQueue)
pop_around zero start level qs = none
pop_around (suc fuel) start level qs =
    let next = (level + 1) % length qs in
    let rest = pop_around fuel start next qs in
    if next == start
    then none
    else (elim (take_level next qs) [ none ↦ rest | some found ↦ some found ])

-- `SlabCacheQueue::push`, with the level that took the entry. As many rounds as there are levels come
-- back to the start.
unfoldable pub push : BlkCacheEntry → Bool → List LevelQueue → Option (ℕ × List LevelQueue)
unfolding push_around
push e only_this_level qs =
    let start = start_level e.temp qs in
    elim (put_level start e qs) [
      | some qs' ↦ some (start, qs')
      | none ↦ if only_this_level then none else push_around (length qs) start start e qs
    ]

-- `SlabCacheQueue::pop`, with the level that it returns, which is the one it started at.
unfoldable pub pop : ℕ → Bool → List LevelQueue → Option (ℕ × BlkCacheEntry × List LevelQueue)
unfolding pop_around
pop input_level only_this_level qs =
    let start = start_level input_level qs in
    elim (take_level start qs) [
      | some (e, qs') ↦ some (start, e, qs')
      | none ↦ if only_this_level then none else (elim (pop_around (length qs) start start qs) [
        | none ↦ none
        | some (e, qs') ↦ some (start, e, qs')
      ])
    ]

pub record Slab : Type 0 where
  pub slab_size : ℕ
  pub levels : List LevelQueue

abbrev pub entries_in : List LevelQueue → ℕ
entries_in [] = 0
entries_in (q ∷ qs) = length q.entries + entries_in qs

unfoldable pub total_free_blks : List Slab → ℕ
total_free_blks [] = 0
total_free_blks (s ∷ ss) = entries_in s.levels * s.slab_size + total_free_blks ss

-- The slab at an index, with the others.
abbrev pub push_slab : ℕ → BlkCacheEntry → Bool → List Slab → Option (ℕ × List Slab)
push_slab slab_idx e only_this_level [] = none
push_slab zero e only_this_level (s ∷ ss) = elim (push e only_this_level s.levels) [
  | none ↦ none
  | some (level, qs) ↦ some (level, record s { levels = qs } ∷ ss)
]
push_slab (suc slab_idx) e only_this_level (s ∷ ss) =
    elim (push_slab slab_idx e only_this_level ss) [
      | none ↦ none
      | some (level, ss') ↦ some (level, s ∷ ss')
    ]

abbrev pub pop_slab : ℕ → ℕ → Bool → List Slab → Option (ℕ × BlkCacheEntry × List Slab)
pop_slab slab_idx level only_this_level [] = none
pop_slab zero level only_this_level (s ∷ ss) = elim (pop level only_this_level s.levels) [
  | none ↦ none
  | some (popped, e, qs) ↦ some (popped, e, record s { levels = qs } ∷ ss)
]
pop_slab (suc slab_idx) level only_this_level (s ∷ ss) =
    elim (pop_slab slab_idx level only_this_level ss) [
      | none ↦ none
      | some (popped, e, ss') ↦ some (popped, e, s ∷ ss')
    ]

-- The least slab whose size is this or more, of size 2 ^ s, from the slab s on; the lookup table
-- holds these values.
abbrev pub slab_from : ℕ → ℕ → ℕ → ℕ
slab_from zero s nblks = s
slab_from (suc fuel) s nblks =
    let rest = slab_from fuel (suc s) nblks in if leb nblks (2 ^ s) then s else rest

abbrev pub find_slab : ℕ → ℕ
find_slab nblks = slab_from 16 0 nblks

-- The greatest slab whose size is at most this, and what is left. The sum of 2 ^ 16 - 1 and 1 wraps, and
-- the index with it, to one that no slab has.
abbrev pub find_round_down_slab : ℕ → ℕ × ℕ
find_round_down_slab nblks =
    let s = find_slab (nblks + 1) - 1 in
    if nblks == 0
    then (0, 0)
    else if nblks + 1 == 2 ^ 16
    then (2 ^ 16 - 1, nblks)
    else (s, nblks - 2 ^ s)

-- The number of blocks that found no place, the excess entries, and the cache.
unfoldable pub free_pieces :
    ℕ → BlkCacheEntry → List BlkCacheEntry → List Slab → Option (ℕ × List BlkCacheEntry × List Slab)
free_pieces zero e excess_blks ss = some (0, excess_blks, ss)
free_pieces (suc fuel) e excess_blks ss =
    let (slab_idx, excess) = find_round_down_slab e.nblks in
    if e.nblks == 0 then some (0, excess_blks, ss) else (elim (get_elem? ss slab_idx) [
      | none ↦ none
      | some s ↦
          let piece = record e { nblks = s.slab_size } in
          let next = record e { blk_num = (e.blk_num + s.slab_size) % 2 ^ 32; nblks = excess } in
          let pushed = push_slab slab_idx piece false ss in
          let zombied : ℕ = elim pushed [ none ↦ s.slab_size | some x ↦ 0 ] in
          let kept : List BlkCacheEntry = elim pushed [
            | none ↦ excess_blks ++ piece ∷ []
            | some x ↦ excess_blks
          ] in
          let ss' : List Slab = elim pushed [ none ↦ ss | some (level, t) ↦ t ] in
          let rest = free_pieces fuel next kept ss' in
          if excess == 0
          then some (zombied, kept, ss')
          else (elim rest [ none ↦ none | some (n, x, t) ↦ some ((zombied + n) % 2 ^ 16, x, t) ])
    ])

-- `FreeBlkCacheQueue::try_free_blks`; each round leaves less of the entry.
unfoldable pub try_free_blks :
    BlkCacheEntry → List BlkCacheEntry → List Slab → Option (ℕ × List BlkCacheEntry × List Slab)
unfolding free_pieces
try_free_blks e excess_blks ss = free_pieces e.nblks e excess_blks ss
