-- ===== src/BlkCache/Alloc/Excess.antt =====
-- An allocation in one slab: what is taken too much is freed, and no block is lost.
use home_store.Prelude.{
  ℕ, zero, suc, ◌+◌, ◌-◌, ◌%◌, ◌^◌, ◌≡◌, ◌≤◌, ◌<◌, refl, ap, ◌∙◌, some, List, [], ◌∷◌, ◌++◌, length,
  get_elem?, arith,
}
use home_store.BlkCache.{BlkCacheEntry, Slab, try_free_blks}
use home_store.BlkCache.Levels.{in_entries, in_cache}
use home_store.BlkCache.Slabs.{sizes, ArePowers}
use home_store.BlkCache.Alloc.{AllocReq, AllocResp, last_of, set_last, free_excess}

pub last_of-append : (es : List BlkCacheEntry) (e : BlkCacheEntry) → last_of (es ++ e ∷ []) ≡ some e
last_of-append [] e = refl
last_of-append (x ∷ []) e = refl
last_of-append (x ∷ y ∷ es) e = last_of-append (y ∷ es) e

pub set_last-append :
    (n : ℕ) (es : List BlkCacheEntry) (e : BlkCacheEntry)
    → set_last n (es ++ e ∷ []) ≡ es ++ record e { nblks = n } ∷ []
set_last-append n [] e = refl
set_last-append n (x ∷ []) e = refl
set_last-append n (x ∷ y ∷ es) e = ap (λ l. x ∷ l) (set_last-append n (y ∷ es) e)

-- The size of the slab at an index.
pub size_at :
    (s i n : ℕ) (ns : List ℕ)
    → ArePowers s ns
    → get_elem? ns i ≡ some n
    → (n ≡ 2 ^ (s + i)) × (i < length ns)
size_at s i n [] h is = absurd (cc)
size_at s zero n (x ∷ xs) (h, k) is =
    let x_is : x ≡ n = cc in
    let same : 2 ^ (s + 0) ≡ 2 ^ s = ap (λ e. 2 ^ e) (omega arith) in (omega arith, omega arith)
size_at s (suc i) n (x ∷ xs) (h, k) is =
    let (size, inside) = size_at (suc s) i n xs k is in
    (size ∙ ap (λ e. 2 ^ e) (omega arith), omega arith)

pub slab_of :
    (i n : ℕ) (ss : List Slab)
    → get_elem? (sizes ss) i ≡ some n
    → (s : Slab) × (get_elem? ss i ≡ some s) × (s.slab_size ≡ n)
slab_of i n [] h = absurd (cc)
slab_of zero n (s ∷ ss) h = (s, refl, cc)
slab_of (suc i) n (s ∷ ss) h = slab_of i n ss h

-- As many blocks as the slab gave, and no more than a part of an entry too many.
abbrev pub Kept : AllocResp → List Slab → AllocResp → List Slab → Type 0
Kept r ss r' t =
    (b : ℕ)
    → in_entries b r'.out_blks + in_entries b r'.excess_blks + in_cache b t
      ≡ in_entries b r.out_blks + in_entries b r.excess_blks + in_cache b ss

pub excess-none :
    (n got : ℕ) (req : AllocReq) (r : AllocResp) (ss : List Slab)
    → r.nblks_alloced + got < 2 ^ 16
    → r.nblks_alloced + got ≤ req.nblks
    → free_excess n req got r ss ≡ some (record r { nblks_alloced = r.nblks_alloced + got }, ss)
unfolding free_excess
excess-none n got req r ss small le =
    let same : (r.nblks_alloced + got) % 2 ^ 16 ≡ r.nblks_alloced + got = omega arith in
    ground arith

pub excess-some :
    (n got : ℕ) (req : AllocReq) (r : AllocResp) (ss : List Slab) (e : BlkCacheEntry) (z : ℕ)
    (x : List BlkCacheEntry) (t : List Slab)
    → r.nblks_alloced + got < 2 ^ 16
    → req.nblks < r.nblks_alloced + got
    → last_of r.out_blks ≡ some e
    → r.nblks_alloced + got - req.nblks < n
    → n < 2 ^ 16
    → try_free_blks
        (record e {
          blk_num = (e.blk_num + (n - (r.nblks_alloced + got - req.nblks))) % 2 ^ 32;
          nblks = r.nblks_alloced + got - req.nblks;
        })
        r.excess_blks
        ss
      ≡ some (z, x, t)
    → free_excess n req got r ss
      ≡ some (
        record r {
          nblks_alloced = req.nblks;
          nblks_zombied = (r.nblks_zombied + z) % 2 ^ 16;
          out_blks = set_last (n - (r.nblks_alloced + got - req.nblks)) r.out_blks;
          excess_blks = x;
        },
        t,
      )
unfolding free_excess
excess-some n got req r ss e z x t small gt last_is lt n_small freed =
    let same : (r.nblks_alloced + got) % 2 ^ 16 ≡ r.nblks_alloced + got = omega arith in
    let needed : (n + 2 ^ 16 - (r.nblks_alloced + got - req.nblks)) % 2 ^ 16
        ≡ n - (r.nblks_alloced + got - req.nblks) =
      omega arith in
    let back : r.nblks_alloced + got - (r.nblks_alloced + got - req.nblks) ≡ req.nblks =
      omega arith in
    ground arith
