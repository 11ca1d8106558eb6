-- ===== src/BlkCache/Levels.antt =====
-- Which blocks the queues of a slab have, before and after a push and a pop.
use home_store.Prelude.{
  ℕ, zero, suc, ◌+◌, ◌%◌, ◌≡◌, Bool, ◌&&◌, ltb, leb, if◌then◌else◌, some, Option-cases, inl, inr,
  List, [], ◌∷◌, ◌++◌, length, arith,
}
use home_store.BlkCache.{
  BlkCacheEntry, LevelQueue, put_level, take_level, start_level, push_around, pop_around, push, pop,
  Slab, push_slab,
}

-- How many of these have the block.
abbrev pub in_entry : ℕ → BlkCacheEntry → ℕ
in_entry b e = if leb e.blk_num b && ltb b (e.blk_num + e.nblks) then 1 else 0

abbrev pub in_entries : ℕ → List BlkCacheEntry → ℕ
in_entries b [] = 0
in_entries b (e ∷ es) = in_entry b e + in_entries b es

abbrev pub in_levels : ℕ → List LevelQueue → ℕ
in_levels b [] = 0
in_levels b (q ∷ qs) = in_entries b q.entries + in_levels b qs

abbrev pub in_cache : ℕ → List Slab → ℕ
in_cache b [] = 0
in_cache b (s ∷ ss) = in_levels b s.levels + in_cache b ss

pub in_entries-append :
    (b : ℕ) (xs ys : List BlkCacheEntry)
    → in_entries b (xs ++ ys) ≡ in_entries b xs + in_entries b ys
in_entries-append b [] ys = omega arith
in_entries-append b (x ∷ xs) ys = omega (arith, in_entries-append b xs ys)

put_level-has :
    (b level : ℕ) (e : BlkCacheEntry) (qs qs' : List LevelQueue)
    → put_level level e qs ≡ some qs'
    → in_levels b qs' ≡ in_levels b qs + in_entry b e
put_level-has b level e [] qs' h = absurd (cc)
put_level-has b zero e (q ∷ qs) qs' h =
    let sum = in_entries-append b q.entries (e ∷ []) in ground arith
put_level-has b (suc level) e (q ∷ qs) qs' h = elim (Option-cases (put_level level e qs)) [
  | inl n ↦ ground arith
  | inr (t, is) ↦ let rest = put_level-has b level e qs t is in ground arith
]

push_around-has :
    (b fuel start level : ℕ) (e : BlkCacheEntry) (qs qs' : List LevelQueue) (l : ℕ)
    → push_around fuel start level e qs ≡ some (l, qs')
    → in_levels b qs' ≡ in_levels b qs + in_entry b e
unfolding push_around
push_around-has b zero start level e qs qs' l h = absurd (cc)
push_around-has b (suc fuel) start level e qs qs' l h =
    let next = (level + 1) % length qs in
    elim (Option-cases (put_level next e qs)) [
      | inl n ↦ push_around-has b fuel start next e qs qs' l (ground arith)
      | inr (t, is) ↦ let has = put_level-has b next e qs t is in ground arith
    ]

-- A push puts the blocks of the entry in, and changes no others.
pub push-has :
    (b : ℕ) (e : BlkCacheEntry) (only : Bool) (qs qs' : List LevelQueue) (l : ℕ)
    → push e only qs ≡ some (l, qs')
    → in_levels b qs' ≡ in_levels b qs + in_entry b e
unfolding push
push-has b e only qs qs' l h =
    let start = start_level e.temp qs in
    elim (Option-cases (put_level start e qs)) [
      | inl n ↦ push_around-has b (length qs) start start e qs qs' l (ground arith)
      | inr (t, is) ↦ let has = put_level-has b start e qs t is in ground arith
    ]

pub push_slab-has :
    (b slab_idx : ℕ) (e : BlkCacheEntry) (only : Bool) (ss ss' : List Slab) (l : ℕ)
    → push_slab slab_idx e only ss ≡ some (l, ss')
    → in_cache b ss' ≡ in_cache b ss + in_entry b e
push_slab-has b slab_idx e only [] ss' l h = absurd (cc)
push_slab-has b zero e only (s ∷ ss) ss' l h = elim (Option-cases (push e only s.levels)) [
  | inl n ↦ ground arith
  | inr ((k, qs), is) ↦ let has = push-has b e only s.levels qs k is in ground arith
]
push_slab-has b (suc slab_idx) e only (s ∷ ss) ss' l h =
    elim (Option-cases (push_slab slab_idx e only ss)) [
      | inl n ↦ ground arith
      | inr ((k, t), is) ↦ let has = push_slab-has b slab_idx e only ss t k is in ground arith
    ]

take_level-has :
    (b level : ℕ) (e : BlkCacheEntry) (qs qs' : List LevelQueue)
    → take_level level qs ≡ some (e, qs')
    → in_levels b qs ≡ in_levels b qs' + in_entry b e
take_level-has b level e [] qs' h = absurd (cc)
take_level-has b zero e (q ∷ qs) qs' h = ground arith
take_level-has b (suc level) e (q ∷ qs) qs' h = elim (Option-cases (take_level level qs)) [
  | inl n ↦ ground arith
  | inr ((x, t), is) ↦ let rest = take_level-has b level x qs t is in ground arith
]

pop_around-has :
    (b fuel start level : ℕ) (e : BlkCacheEntry) (qs qs' : List LevelQueue)
    → pop_around fuel start level qs ≡ some (e, qs')
    → in_levels b qs ≡ in_levels b qs' + in_entry b e
unfolding pop_around
pop_around-has b zero start level e qs qs' h = absurd (cc)
pop_around-has b (suc fuel) start level e qs qs' h =
    let next = (level + 1) % length qs in
    elim (Option-cases (take_level next qs)) [
      | inl n ↦ pop_around-has b fuel start next e qs qs' (ground arith)
      | inr ((x, t), is) ↦ let has = take_level-has b next x qs t is in ground arith
    ]

-- A pop takes the blocks of the entry out, and changes no others.
pub pop-has :
    (b input : ℕ) (only : Bool) (e : BlkCacheEntry) (qs qs' : List LevelQueue) (l : ℕ)
    → pop input only qs ≡ some (l, e, qs')
    → in_levels b qs ≡ in_levels b qs' + in_entry b e
unfolding pop
pop-has b input only e qs qs' l h =
    let start = start_level input qs in
    elim (Option-cases (take_level start qs)) [
      | inl n ↦ elim (Option-cases (pop_around (length qs) start start qs)) [
        | inl m ↦ absurd (ground arith)
        | inr ((x, t), is) ↦
            let has = pop_around-has b (length qs) start start x qs t is in ground arith
      ]
      | inr ((x, t), is) ↦ let has = take_level-has b start x qs t is in ground arith
    ]
