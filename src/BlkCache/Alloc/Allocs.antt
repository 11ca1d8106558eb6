-- ===== src/BlkCache/Alloc/Allocs.antt =====
-- The result of an allocation in one slab.
use native.Mathlib.Nat.{div-mul-le_self, lt-div-mul-add, pow-le-pow_right, mul-le-mul_right}
use home_store.Prelude.{
  ℕ, zero, suc, ◌+◌, ◌-◌, ◌*◌, ◌/◌, ◌%◌, ◌^◌, ◌≡◌, ◌≤◌, ◌<◌, refl, sym, ap, ◌∙◌, true, false, ◌&&◌,
  ltb, leb, ◌==◌, if◌then◌else◌, some, List, [], ◌∷◌, ◌++◌, length, get_elem?, arith, subst,
  Bool-cases, inl, inr,
}
use home_store.BlkCache.{BlkCacheEntry, Slab}
use home_store.BlkCache.Levels.{in_entry, in_entries, in_entries-append}
use home_store.BlkCache.Slabs.{sizes, ArePowers}
use home_store.BlkCache.Free.{try_free_blks-Freed, blks_of, blks_of-append, in_entry-split}
use home_store.BlkCache.Alloc.{
  AllocStatus, success, failed, partial, AllocReq, AllocResp, take_entries, last_of, set_last,
  free_excess, entries_needed, try_alloc_in_slab,
}
use home_store.BlkCache.Alloc.Pops.{CacheFit}
use home_store.BlkCache.Alloc.Takes.{EndsWith, take_entries-Took}
use home_store.BlkCache.Alloc.Excess.{
  last_of-append, set_last-append, size_at, slab_of, Kept, excess-none, excess-some,
}

-- An entry whose end is given up, and that end.
rest_is :
    (b : ℕ) (e : BlkCacheEntry) (n residue : ℕ)
    → 0 < residue
    → residue < n
    → e.nblks ≡ n
    → e.blk_num + n ≤ 2 ^ 32
    → in_entry b (record e { nblks = n - residue })
        + in_entry b (record e { blk_num = (e.blk_num + (n - residue)) % 2 ^ 32; nblks = residue })
      ≡ in_entry b e
rest_is b e n residue pos lt size number =
    let back : e.nblks - (n - residue) ≡ residue = omega arith in
    let split = in_entry-split b (n - residue) e (omega arith) (omega arith) in
    ap
      (λ k.
        in_entry b (record e { nblks = n - residue })
        + in_entry b (record e { blk_num = (e.blk_num + (n - residue)) % 2 ^ 32; nblks = k }))
      (sym back)
    ∙ split

free-Kept :
    (n idx got : ℕ) (req : AllocReq) (r : AllocResp) (ss : List Slab)
    → ArePowers 0 (sizes ss)
    → get_elem? (sizes ss) idx ≡ some n
    → r.nblks_alloced + got ≡ blks_of r.out_blks
    → r.nblks_alloced + got < 2 ^ 16
    → r.nblks_alloced + got < req.nblks + n
    → n + 1 < 2 ^ 16
    → (req.nblks < r.nblks_alloced + got → EndsWith n r.out_blks)
    → (r' : AllocResp) × (t : List Slab) × (free_excess n req got r ss ≡ some (r', t))
      × Kept r ss r' t
      × (r'.nblks_alloced ≡ blks_of r'.out_blks)
      × (r'.nblks_alloced
          ≡ (if ltb req.nblks (r.nblks_alloced + got) then req.nblks else r.nblks_alloced + got))
free-Kept n idx got req r ss powers is inv small close n_small ends =
    elim (Bool-cases (ltb req.nblks (r.nblks_alloced + got))) [
      | inr fits ↦ (
        record r { nblks_alloced = r.nblks_alloced + got },
        ss,
        excess-none n got req r ss small (ground arith),
        λ b. refl,
        inv,
        ground arith,
      )
      | inl over ↦
          let gt : req.nblks < r.nblks_alloced + got = ground arith in
          let v = ends gt in
          let residue = r.nblks_alloced + got - req.nblks in
          let trail = record v.last {
            blk_num = (v.last.blk_num + (n - residue)) % 2 ^ 32;
            nblks = residue;
          } in
          let kept = record v.last { nblks = n - residue } in
          let (n_is, inside) = size_at 0 idx n (sizes ss) powers is in
          let power =
            pow-le-pow_right {n = 2} (omega arith) {i = 0 + idx} {j = length (sizes ss)}
              (omega arith) in
          let place : (v.last.blk_num + (n - residue)) % 2 ^ 32 ≡ v.last.blk_num + (n - residue) =
            omega (arith, v.number) in
          let (z, x, t, freed, (has, blks, most, same)) =
            try_free_blks-Freed trail r.excess_blks ss (omega arith)
              (omega (arith, place, v.number)) powers (omega (arith, power, n_is)) in
          let last_is = ap last_of v.is ∙ last_of-append v.front v.last in
          let out = set_last (n - residue) r.out_blks in
          let out_is : out ≡ v.front ++ kept ∷ [] =
            ap (set_last (n - residue)) v.is ∙ set_last-append (n - residue) v.front v.last in
          (
            record r {
              nblks_alloced = req.nblks;
              nblks_zombied = (r.nblks_zombied + z) % 2 ^ 16;
              out_blks = out;
              excess_blks = x;
            },
            t,
            excess-some n got req r ss v.last z x t small gt last_is (omega arith) (omega arith)
                freed,
            λ b. omega (
              arith,
              has b,
              ap (in_entries b) out_is,
              in_entries-append b v.front (kept ∷ []),
              ap (in_entries b) v.is,
              in_entries-append b v.front (v.last ∷ []),
              rest_is b v.last n residue (omega arith) (omega arith) v.size v.number,
            ),
            omega (
              arith,
              ap blks_of out_is,
              blks_of-append v.front (kept ∷ []),
              ap blks_of v.is,
              blks_of-append v.front (v.last ∷ []),
              inv,
              v.size,
            ),
            ground arith,
          )
    ]

alloc-step :
    (idx : ℕ) (req : AllocReq) (r : AllocResp) (ss : List Slab) (s : Slab) (r' : AllocResp)
    (t : List Slab)
    → ltb r.nblks_alloced req.nblks ≡ true
    → get_elem? ss idx ≡ some s
    → (req.is_contiguous && ltb 1 (entries_needed s.slab_size (req.nblks - r.nblks_alloced)))
      ≡ false
    → let k = entries_needed s.slab_size (req.nblks - r.nblks_alloced) in
      let taken = take_entries k idx req.preferred_level r ss in
      free_excess s.slab_size req (taken.0 * s.slab_size % 2 ^ 16) taken.1 taken.2 ≡ some (r', t)
      → try_alloc_in_slab idx req r ss
        ≡ some (if taken.0 == k then success else if taken.0 == 0 then failed else partial, r', t)
unfolding try_alloc_in_slab
alloc-step idx req r ss s r' t more at single freed = ground arith

-- What an allocation in a slab of entries of `n` blocks gives.
abbrev pub Allocated :
    ℕ → AllocReq → AllocResp → List Slab → AllocStatus → AllocResp → List Slab → Type 0
Allocated n req r ss st r' t =
    Kept r ss r' t
    × (r'.nblks_alloced ≡ blks_of r'.out_blks)
    × (r'.nblks_alloced ≤ req.nblks)
    × (st ≡ success → r'.nblks_alloced ≡ req.nblks)

some_taken : (m n a c : ℕ) → c < a + m * n → a ≤ c → 0 < m
some_taken zero n a c h le = absurd (omega arith)
some_taken (suc m) n a c h le = omega arith

all_taken :
    (m k : ℕ) → (if m == k then success else if m == 0 then failed else partial) ≡ success → m ≡ k
all_taken m k h = ground arith

all_asked : (x c y : ℕ) → x ≡ (if ltb c y then c else y) → c ≤ y → x ≡ c
all_asked x c y h le = ground arith

taken-Allocated :
    (idx n : ℕ) (req : AllocReq) (r : AllocResp) (ss : List Slab) (s : Slab)
    → ArePowers 0 (sizes ss)
    → CacheFit ss
    → get_elem? (sizes ss) idx ≡ some n
    → get_elem? ss idx ≡ some s
    → s.slab_size ≡ n
    → r.nblks_alloced ≡ blks_of r.out_blks
    → r.nblks_alloced < req.nblks
    → req.nblks + n < 2 ^ 16
    → (req.is_contiguous && ltb 1 (entries_needed s.slab_size (req.nblks - r.nblks_alloced)))
      ≡ false
    → (st : AllocStatus) × (r' : AllocResp) × (t : List Slab) × (try_alloc_in_slab idx req r ss
        ≡ some (st, r', t))
      × Allocated n req r ss st r' t
taken-Allocated idx n req r ss s powers fit is at size inv lt small single =
    let needed = req.nblks - r.nblks_alloced in
    let k = entries_needed s.slab_size needed in
    let taken = take_entries k idx req.preferred_level r ss in
    let v = take_entries-Took n k idx req.preferred_level r ss fit is in
    let (n_is, inside) = size_at 0 idx n (sizes ss) powers is in
    let power = pow-le-pow_right {n = 2} (omega arith) {i = 0} {j = 0 + idx} (omega arith) in
    let pos : 0 < n = omega (arith, power, n_is) in
    let k_is : k ≡ entries_needed n needed = ap (λ x. entries_needed x needed) size in
    let low = div-mul-le_self (needed - 1) n in
    let high = lt-div-mul-add {a = needed - 1} {b = n} pos in
    let times = mul-le-mul_right n v.most in
    let k_times : k * n ≡ (needed - 1) / n * n + n = ap (λ x. x * n) k_is ∙ omega arith in
    let close : r.nblks_alloced + taken.0 * n < req.nblks + n = omega arith in
    let got : taken.0 * s.slab_size % 2 ^ 16 ≡ taken.0 * n =
      ap (λ x. taken.0 * x % 2 ^ 16) size ∙ omega arith in
    let out : r.nblks_alloced + taken.0 * n ≡ blks_of taken.1.out_blks = omega (arith, v.blks) in
    let (r', t, freed, kept, inv', count) =
      free-Kept n idx (taken.0 * n) req taken.1 taken.2
        (subst (ArePowers 0) (sym v.sizes_same) powers)
        (ap (λ x. get_elem? x idx) v.sizes_same ∙ is) (omega (arith, v.alloced_same))
        (omega (arith, v.alloced_same)) (omega (arith, v.alloced_same)) (omega arith)
        (λ h. v.ends (
          some_taken taken.0 n r.nblks_alloced req.nblks (omega (arith, v.alloced_same))
            (omega arith))) in
    let freed' : free_excess s.slab_size req (taken.0 * s.slab_size % 2 ^ 16) taken.1 taken.2
        ≡ some (r', t) =
      ap (λ x. free_excess x req (taken.0 * s.slab_size % 2 ^ 16) taken.1 taken.2) size
      ∙ ap (λ x. free_excess n req x taken.1 taken.2) got
      ∙ freed in
    (
      if taken.0 == k then success else if taken.0 == 0 then failed else partial,
      r',
      t,
      alloc-step idx req r ss s r' t (ground arith) at single freed',
      (
        λ b. omega (arith, kept b, v.has b, ap (in_entries b) v.excess_same),
        inv',
        ground arith,
        λ h.
            let same = ap (λ x. x * n) (all_taken taken.0 k h) in
            all_asked r'.nblks_alloced req.nblks (taken.1.nblks_alloced + taken.0 * n) count
              (omega (arith, v.alloced_same, same)),
      ),
    )

-- An allocation in one slab succeeds or says that it got less, and loses no block: what it put out, what
-- became excess and what is in the cache are together the same blocks as before, each as often. It never
-- puts out more than was asked for, counts what it put out, and on success that is what was asked for.
-- Each slab has the size of the power of 2 of its index and its entries that size, the response counted
-- right before, and the numbers stay below 2 ^ 16.
pub try_alloc_in_slab-Allocated :
    (idx n : ℕ) (req : AllocReq) (r : AllocResp) (ss : List Slab)
    → ArePowers 0 (sizes ss)
    → CacheFit ss
    → get_elem? (sizes ss) idx ≡ some n
    → r.nblks_alloced ≡ blks_of r.out_blks
    → r.nblks_alloced ≤ req.nblks
    → req.nblks + n < 2 ^ 16
    → (st : AllocStatus) × (r' : AllocResp) × (t : List Slab) × (try_alloc_in_slab idx req r ss
        ≡ some (st, r', t))
      × Allocated n req r ss st r' t
unfolding try_alloc_in_slab
try_alloc_in_slab-Allocated idx n req r ss powers fit is inv le small =
    let (s, at, size) = slab_of idx n ss is in
    elim (Bool-cases (leb req.nblks r.nblks_alloced)) [
      | inl all ↦ (success, r, ss, ground arith, (λ b. refl, inv, le, λ h. ground arith))
      | inr less ↦
          elim (Bool-cases (
            req.is_contiguous
            && ltb 1 (entries_needed s.slab_size (req.nblks - r.nblks_alloced)))) [
              | inl refused ↦ (failed, r, ss, ground arith, (λ b. refl, inv, le, λ h. ground arith))
              | inr single ↦
                  taken-Allocated idx n req r ss s powers fit is at size inv (ground arith) small
                    single
            ]
    ]
