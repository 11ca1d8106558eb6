-- ===== src/BlkCache/Alloc/Takes.antt =====
-- The entries that an allocation takes from one slab.
use home_store.Prelude.{
  ℕ, zero, suc, ◌+◌, ◌*◌, ◌^◌, ◌≡◌, ◌≤◌, ◌<◌, refl, ap, ◌∙◌, false, not, ◌||◌, ◌==◌, Option, some,
  none, List, [], ◌∷◌, ◌++◌, get_elem?, arith, Bool-cases, inl, inr,
}
use home_store.BlkCache.{BlkCacheEntry, Slab, pop_slab}
use home_store.BlkCache.Levels.{in_entries, in_cache, in_entries-append}
use home_store.BlkCache.Slabs.{sizes}
use home_store.BlkCache.Free.{blks_of, blks_of-append}
use home_store.BlkCache.Alloc.{AllocResp, take_entries}
use home_store.BlkCache.Alloc.Pops.{CacheFit, FromSlab, pop_slab-FromSlab}

-- The last of the entries, of this size.
pub record EndsWith (n : ℕ) (es : List BlkCacheEntry) : Type 0 where
  pub front : List BlkCacheEntry
  pub last : BlkCacheEntry
  pub is : es ≡ front ++ last ∷ []
  pub size : last.nblks ≡ n
  pub number : last.blk_num + n ≤ 2 ^ 32

-- At most `k` entries of `n` blocks were taken.
pub record Took (n k : ℕ) (r : AllocResp) (ss : List Slab) (m : ℕ) (r' : AllocResp) (t : List Slab)
    : Type 0 where
  pub most : m ≤ k
  pub alloced_same : r'.nblks_alloced ≡ r.nblks_alloced
  pub excess_same : r'.excess_blks ≡ r.excess_blks
  pub fit : CacheFit t
  pub sizes_same : sizes t ≡ sizes ss
  pub has :
      (b : ℕ) → in_entries b r'.out_blks + in_cache b t ≡ in_entries b r.out_blks + in_cache b ss
  pub blks : blks_of r'.out_blks ≡ blks_of r.out_blks + m * n
  pub nothing : m ≡ 0 → r'.out_blks ≡ r.out_blks
  pub ends : 0 < m → EndsWith n r'.out_blks

none_popped : (n k : ℕ) (r : AllocResp) (ss : List Slab) → CacheFit ss → Took n k r ss 0 r ss
none_popped n k r ss fit = record {
  most = omega arith;
  alloced_same = refl;
  excess_same = refl;
  fit = fit;
  sizes_same = refl;
  has = λ b. refl;
  blks = omega arith;
  nothing = λ h. refl;
  ends = λ h. absurd (omega arith);
}

one_more : (m n : ℕ) → suc m * n ≡ n + m * n
one_more m n = omega arith

pub take_entries-Took :
    (n k slab_idx level : ℕ) (r : AllocResp) (ss : List Slab)
    → CacheFit ss
    → get_elem? (sizes ss) slab_idx ≡ some n
    → let taken = take_entries k slab_idx level r ss in Took n k r ss taken.0 taken.1 taken.2
unfolding take_entries
take_entries-Took n zero slab_idx level r ss fit is = none_popped n 0 r ss fit
take_entries-Took n (suc k) slab_idx level r ss fit is =
    go (pop_slab slab_idx level false ss) (pop_slab-FromSlab n slab_idx level ss fit is)
      (λ r1 t f i. take_entries-Took n k slab_idx level r1 t f i)
  where
    go :
        (o : Option (ℕ × BlkCacheEntry × List Slab))
        → FromSlab n ss o
        → ((r1 : AllocResp) (t : List Slab)
            → CacheFit t
            → get_elem? (sizes t) slab_idx ≡ some n
            → let taken = take_entries k slab_idx level r1 t in
              Took n k r1 t taken.0 taken.1 taken.2)
        → let taken : ℕ × AllocResp × List Slab = elim o [
          | none ↦ (0, r, ss)
          | some (popped, e, t) ↦
              let rest =
                take_entries k slab_idx level
                  (record r {
                    out_blks = r.out_blks ++ e ∷ [];
                    need_refill = r.need_refill || not (popped == level);
                  })
                  t in
              (suc rest.0, rest.1, rest.2)
        ] in
          Took n (suc k) r ss taken.0 taken.1 taken.2
    go none t ih = none_popped n (suc k) r ss fit
    go (some (popped, e, t)) (size, number, f, same, has) ih =
        let r1 : AllocResp = record r {
          out_blks = r.out_blks ++ e ∷ [];
          need_refill = r.need_refill || not (popped == level);
        } in
        let v = ih r1 t f (ap (λ x. get_elem? x slab_idx) same ∙ is) in
        let rest = take_entries k slab_idx level r1 t in
        record {
          most = omega (arith, v.most);
          alloced_same = v.alloced_same;
          excess_same = v.excess_same;
          fit = v.fit;
          sizes_same = v.sizes_same ∙ same;
          has = λ b. omega (arith, v.has b, has b, in_entries-append b r.out_blks (e ∷ []));
          blks = omega (arith, v.blks, blks_of-append r.out_blks (e ∷ []), size, one_more rest.0 n);
          nothing = λ h. absurd (omega arith);
          ends = λ h. elim (Bool-cases (rest.0 == 0)) [
            | inl z ↦ record {
              front = r.out_blks;
              last = e;
              is = v.nothing (ground arith);
              size = size;
              number = number;
            }
            | inr more ↦ v.ends (ground arith)
          ];
        }
