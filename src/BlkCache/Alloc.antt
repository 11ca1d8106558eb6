-- ===== src/BlkCache/Alloc.antt =====
-- Allocation in one slab: `FreeBlkCacheQueue::try_alloc_in_slab` of src/lib/blkalloc/blk_cache_queue.cpp.
pub mod Pops
mod Takes
mod Excess
pub mod Allocs
use home_store.Prelude.{
  ℕ, zero, suc, ◌+◌, ◌-◌, ◌*◌, ◌/◌, ◌%◌, ◌^◌, Bool, true, false, not, ◌&&◌, ◌||◌, ltb, leb, ◌==◌,
  if◌then◌else◌, Option, some, none, get_elem?, List, [], ◌∷◌, ◌++◌,
}
use home_store.BlkCache.{BlkCacheEntry, Slab, pop_slab, try_free_blks}

-- Of `BlkAllocStatus`, what these functions return.
pub data AllocStatus : Type 0 where
  success : AllocStatus
  failed : AllocStatus
  partial : AllocStatus

pub record AllocReq : Type 0 where
  pub nblks : ℕ
  pub preferred_level : ℕ
  pub is_contiguous : Bool

pub record AllocResp : Type 0 where
  pub nblks_alloced : ℕ
  pub nblks_zombied : ℕ
  pub need_refill : Bool
  pub out_blks : List BlkCacheEntry
  pub excess_blks : List BlkCacheEntry

-- Up to this many entries of the slab, and how many there were.
unfoldable pub take_entries : ℕ → ℕ → ℕ → AllocResp → List Slab → ℕ × AllocResp × List Slab
take_entries zero slab_idx level r ss = (0, r, ss)
take_entries (suc k) slab_idx level r ss = elim (pop_slab slab_idx level false ss) [
  | none ↦ (0, r, ss)
  | some (popped, e, t) ↦
      let rest =
        take_entries k slab_idx level
          (record r {
            out_blks = r.out_blks ++ e ∷ [];
            need_refill = r.need_refill || not (popped == level);
          })
          t in
      (suc rest.0, rest.1, rest.2)
]

abbrev pub last_of : List BlkCacheEntry → Option BlkCacheEntry
last_of [] = none
last_of (e ∷ []) = some e
last_of (e ∷ f ∷ es) = last_of (f ∷ es)

abbrev pub set_last : ℕ → List BlkCacheEntry → List BlkCacheEntry
set_last n [] = []
set_last n (e ∷ []) = record e { nblks = n } ∷ []
set_last n (e ∷ f ∷ es) = e ∷ set_last n (f ∷ es)

-- The blocks of the last entry that were not asked for are freed.
unfoldable pub free_excess :
    ℕ → AllocReq → ℕ → AllocResp → List Slab → Option (AllocResp × List Slab)
free_excess slab_size req num_allocated r ss =
    let alloced = (r.nblks_alloced + num_allocated) % 2 ^ 16 in
    let residue = alloced - req.nblks in
    let needed = (slab_size + 2 ^ 16 - residue) % 2 ^ 16 in
    if leb alloced req.nblks
    then some (record r { nblks_alloced = alloced }, ss)
    else (elim (last_of r.out_blks) [
      | none ↦ none
      | some e ↦
          (elim (try_free_blks
            (record e { blk_num = (e.blk_num + needed) % 2 ^ 32; nblks = residue }) r.excess_blks
            ss) [
              | none ↦ none
              | some (n, x, t) ↦ some (
                record r {
                  nblks_alloced = alloced - residue;
                  nblks_zombied = (r.nblks_zombied + n) % 2 ^ 16;
                  out_blks = set_last needed r.out_blks;
                  excess_blks = x;
                },
                t,
              )
            ])
    ])

abbrev pub entries_needed : ℕ → ℕ → ℕ
entries_needed slab_size nblks = (nblks - 1) / slab_size + 1

unfoldable pub try_alloc_in_slab :
    ℕ → AllocReq → AllocResp → List Slab → Option (AllocStatus × AllocResp × List Slab)
unfolding take_entries free_excess
try_alloc_in_slab slab_idx req r ss =
    if leb req.nblks r.nblks_alloced then some (success, r, ss) else (elim (get_elem? ss slab_idx) [
      | none ↦ none
      | some s ↦
          let nentries = entries_needed s.slab_size (req.nblks - r.nblks_alloced) in
          let (taken, r', t) = take_entries nentries slab_idx req.preferred_level r ss in
          if req.is_contiguous && ltb 1 nentries
          then some (failed, r, ss)
          else (elim (free_excess s.slab_size req (taken * s.slab_size % 2 ^ 16) r' t) [
            | none ↦ none
            | some (r'', t') ↦ some (
              if taken == nentries then success else if taken == 0 then failed else partial,
              r'',
              t',
            )
          ])
    ])
