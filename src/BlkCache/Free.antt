-- ===== src/BlkCache/Free.antt =====
-- Freeing an entry: into which slabs it goes, and that no block of it is lost.
use native.Mathlib.Nat.{pow-le-pow_right}
use home_store.Prelude.{
  ℕ, zero, suc, ◌+◌, ◌-◌, ◌%◌, ◌^◌, ◌≡◌, ◌≤◌, ◌<◌, refl, sym, ap, ◌∙◌, false, ltb, ◌==◌,
  if◌then◌else◌, Option, some, none, Bool-cases, inl, inr, List, [], ◌∷◌, ◌++◌, length, get_elem?,
  arith, subst,
}
use home_store.BlkCache.{
  BlkCacheEntry, Slab, push_slab, find_round_down_slab, free_pieces, try_free_blks,
}
use home_store.BlkCache.Levels.{in_entry, in_entries, in_cache, in_entries-append, push_slab-has}
use home_store.BlkCache.Slabs.{round_down, sizes, ArePowers, slab_at, push_slab-sizes}

abbrev pub blks_of : List BlkCacheEntry → ℕ
blks_of [] = 0
blks_of (e ∷ es) = e.nblks + blks_of es

pub blks_of-append : (xs ys : List BlkCacheEntry) → blks_of (xs ++ ys) ≡ blks_of xs + blks_of ys
blks_of-append [] ys = omega arith
blks_of-append (x ∷ xs) ys = omega (arith, blks_of-append xs ys)

-- Each block of the entry is then once more in the cache or in the excess entries, and no other block.
abbrev pub Freed :
    BlkCacheEntry → List BlkCacheEntry → List Slab → ℕ → List BlkCacheEntry → List Slab → Type 0
Freed e excess ss n excess' ss' =
    ((b : ℕ)
      → in_entries b excess' + in_cache b ss' ≡ in_entries b excess + in_cache b ss + in_entry b e)
    × (blks_of excess' ≡ blks_of excess + n)
    × (n ≤ e.nblks)
    × (sizes ss' ≡ sizes ss)

-- The first piece goes into its slab, or into the excess entries.
piece-Freed :
    (idx : ℕ) (piece : BlkCacheEntry) (excess : List BlkCacheEntry) (ss : List Slab)
    → Freed piece excess ss
        (elim (push_slab idx piece false ss) [ none ↦ piece.nblks | some x ↦ 0 ])
        (elim (push_slab idx piece false ss) [ none ↦ excess ++ piece ∷ [] | some x ↦ excess ])
        (elim (push_slab idx piece false ss) [ none ↦ ss | some (level, t) ↦ t ])
piece-Freed idx piece excess ss = go (push_slab idx piece false ss) refl
  where
    go :
        (p : Option (ℕ × List Slab))
        → push_slab idx piece false ss ≡ p
        → Freed piece excess ss
            (elim p [ none ↦ piece.nblks | some x ↦ 0 ])
            (elim p [ none ↦ excess ++ piece ∷ [] | some x ↦ excess ])
            (elim p [ none ↦ ss | some (level, t) ↦ t ])
    go none is = (
      λ b. omega (arith, in_entries-append b excess (piece ∷ [])),
      omega (arith, blks_of-append excess (piece ∷ [])),
      omega arith,
      refl,
    )
    go (some (level, t)) is = (
      λ b. omega (arith, push_slab-has b idx piece false ss t level is),
      omega arith,
      omega arith,
      push_slab-sizes idx piece false ss t level is,
    )

pub in_entry-split :
    (b k : ℕ) (e : BlkCacheEntry)
    → k < e.nblks
    → e.blk_num + e.nblks ≤ 2 ^ 32
    → in_entry b (record e { nblks = k })
        + in_entry b (record e { blk_num = (e.blk_num + k) % 2 ^ 32; nblks = e.nblks - k })
      ≡ in_entry b e
in_entry-split b k e h small =
    let same : (e.blk_num + k) % 2 ^ 32 ≡ e.blk_num + k = omega arith in ground arith

in_entry-none : (b : ℕ) (e : BlkCacheEntry) → e.nblks ≡ 0 → in_entry b e ≡ 0
in_entry-none b e h = ground arith

-- One round of the loop.
free_pieces-step :
    (fuel j : ℕ) (e : BlkCacheEntry) (excess : List BlkCacheEntry) (ss : List Slab) (s : Slab)
    → 0 < e.nblks
    → find_round_down_slab e.nblks ≡ (j, e.nblks - 2 ^ j)
    → get_elem? ss j ≡ some s
    → let piece = record e { nblks = s.slab_size } in
      let next = record e {
        blk_num = (e.blk_num + s.slab_size) % 2 ^ 32;
        nblks = e.nblks - 2 ^ j;
      } in
      let zombied : ℕ = elim (push_slab j piece false ss) [ none ↦ s.slab_size | some x ↦ 0 ] in
      let kept : List BlkCacheEntry = elim (push_slab j piece false ss) [
        | none ↦ excess ++ piece ∷ []
        | some x ↦ excess
      ] in
      let ss' : List Slab = elim (push_slab j piece false ss) [ none ↦ ss | some (level, t) ↦ t ] in
      free_pieces (suc fuel) e excess ss ≡ (
        if e.nblks - 2 ^ j == 0
        then some (zombied, kept, ss')
        else (elim (free_pieces fuel next kept ss') [
          | none ↦ none
          | some (n, x, t) ↦ some ((zombied + n) % 2 ^ 16, x, t)
        ]))
unfolding free_pieces
free_pieces-step fuel j e excess ss s pos round at = ground arith

below_power : (j l n : ℕ) → 2 ^ j ≤ n → n < 2 ^ l → j < l
below_power j l n le lt = elim (Bool-cases (ltb j l)) [
  | inl below ↦ ground arith
  | inr above ↦
      let power = pow-le-pow_right {n = 2} (omega arith) {i = l} {j = j} (ground arith) in
      absurd (omega (arith, power))
]

free_pieces-Freed :
    (fuel : ℕ) (e : BlkCacheEntry) (excess : List BlkCacheEntry) (ss : List Slab)
    → e.nblks ≤ fuel
    → e.nblks + 1 < 2 ^ 16
    → e.blk_num + e.nblks ≤ 2 ^ 32
    → ArePowers 0 (sizes ss)
    → e.nblks < 2 ^ length (sizes ss)
    → (n : ℕ) × (x : List BlkCacheEntry) × (t : List Slab) × (free_pieces fuel e excess ss
        ≡ some (n, x, t))
      × Freed e excess ss n x t
unfolding free_pieces
free_pieces-Freed zero e excess ss fuel small number powers fits = (
  0,
  excess,
  ss,
  refl,
  (λ b. omega (arith, in_entry-none b e (omega arith)), omega arith, omega arith, refl),
)
free_pieces-Freed (suc fuel) e excess ss enough small number powers fits =
    elim (Bool-cases (e.nblks == 0)) [
      | inl empty ↦ (
        0,
        excess,
        ss,
        ground arith,
        (λ b. omega (arith, in_entry-none b e (ground arith)), omega arith, omega arith, refl),
      )
      | inr some_left ↦
          let pos : 0 < e.nblks = ground arith in
          let (j, round, le, lt) = round_down e.nblks pos small in
          let inside : j < length (sizes ss) = below_power j (length (sizes ss)) e.nblks le fits in
          let (s, at, size) = slab_at 0 j ss powers inside in
          let size_is : s.slab_size ≡ 2 ^ j = size ∙ ap (λ x. 2 ^ x) (omega arith) in
          let piece = record e { nblks = s.slab_size } in
          let next = record e {
            blk_num = (e.blk_num + s.slab_size) % 2 ^ 32;
            nblks = e.nblks - 2 ^ j;
          } in
          let zombied : ℕ = elim (push_slab j piece false ss) [ none ↦ s.slab_size | some x ↦ 0 ] in
          let kept : List BlkCacheEntry = elim (push_slab j piece false ss) [
            | none ↦ excess ++ piece ∷ []
            | some x ↦ excess
          ] in
          let ss' : List Slab = elim (push_slab j piece false ss) [
            | none ↦ ss
            | some (level, t) ↦ t
          ] in
          let (has, blks, most, same) = piece-Freed j piece excess ss in
          let step = free_pieces-step fuel j e excess ss s pos round at in
          elim (Bool-cases (e.nblks - 2 ^ j == 0)) [
            | inl all ↦
                let whole : e.nblks ≡ s.slab_size = ground arith in
                (
                  zombied,
                  kept,
                  ss',
                  ground arith,
                  (
                    λ b.
                        let one : in_entry b piece ≡ in_entry b e =
                          ap (λ n. in_entry b (record e { nblks = n })) (sym whole) in
                        omega (arith, has b, one),
                    blks,
                    omega (arith, most),
                    same,
                  ),
                )
            | inr more ↦
                let some_more : 2 ^ j < e.nblks = ground arith in
                let powers' = subst (ArePowers 0) (sym same) powers in
                let long : length (sizes ss') ≡ length (sizes ss) = ap length same in
                let width : 2 ^ length (sizes ss') ≡ 2 ^ length (sizes ss) = ap (λ x. 2 ^ x) long in
                let at_least : 1 ≤ 2 ^ j = ground arith in
                let place : (e.blk_num + s.slab_size) % 2 ^ 32 ≡ e.blk_num + s.slab_size =
                  omega arith in
                let (n, x, t, is, (has', blks', most', same')) =
                  free_pieces-Freed fuel next kept ss' (omega arith) (omega arith)
                    (omega (arith, place)) powers' (omega (arith, width)) in
                let sum : (zombied + n) % 2 ^ 16 ≡ zombied + n = omega (arith, most, most') in
                (
                  zombied + n,
                  x,
                  t,
                  ground arith,
                  (
                    λ b.
                        let next_is : in_entry b next
                            ≡ in_entry b (record next { nblks = e.nblks - s.slab_size }) =
                          ap (λ k. in_entry b (record next { nblks = e.nblks - k }))
                            (sym size_is) in
                        omega (
                          arith,
                          has b,
                          has' b,
                          next_is,
                          in_entry-split b s.slab_size e (omega arith) number,
                        ),
                    omega (arith, blks, blks'),
                    omega (arith, most, most'),
                    same' ∙ same,
                  ),
                )
          ]
    ]

-- Freeing an entry, of less than 2 ^ 16 - 1 blocks and smaller than twice the largest slab, succeeds while each
-- slab has the size of the power of 2 of its index: then each block of the entry is once more in the
-- cache or in the excess entries, and no other block is, and the result is the number of blocks that
-- became excess.
pub try_free_blks-Freed :
    (e : BlkCacheEntry) (excess : List BlkCacheEntry) (ss : List Slab)
    → e.nblks + 1 < 2 ^ 16
    → e.blk_num + e.nblks ≤ 2 ^ 32
    → ArePowers 0 (sizes ss)
    → e.nblks < 2 ^ length (sizes ss)
    → (n : ℕ) × (x : List BlkCacheEntry) × (t : List Slab) × (try_free_blks e excess ss
        ≡ some (n, x, t))
      × Freed e excess ss n x t
unfolding try_free_blks
try_free_blks-Freed e excess ss = free_pieces-Freed e.nblks e excess ss (omega arith)
