-- ===== src/BlkCache/Alloc/Pops.antt =====
-- What the entries of a slab are like, and what is popped from it.
use home_store.Prelude.{
  ℕ, zero, suc, ◌+◌, ◌%◌, ◌^◌, ◌≡◌, ◌≤◌, refl, sym, ap, Bool, true, false, ◌==◌, if◌then◌else◌,
  Option, some, none, List, [], ◌∷◌, length, get_elem?, arith, subst,
}
use home_store.BlkCache.{
  BlkCacheEntry, LevelQueue, take_level, start_level, pop_around, pop, Slab, pop_slab,
}
use home_store.BlkCache.Levels.{in_entry, in_levels, in_cache}
use home_store.BlkCache.Slabs.{sizes}

-- Entries of the size of the slab, with block numbers of 32 bits.
abbrev pub EntriesFit : ℕ → List BlkCacheEntry → Type 0
EntriesFit n [] = Unit {0}
EntriesFit n (e ∷ es) = (e.nblks ≡ n) × (e.blk_num + n ≤ 2 ^ 32) × EntriesFit n es

abbrev pub LevelsFit : ℕ → List LevelQueue → Type 0
LevelsFit n [] = Unit {0}
LevelsFit n (q ∷ qs) = EntriesFit n q.entries × LevelsFit n qs

abbrev pub CacheFit : List Slab → Type 0
CacheFit [] = Unit {0}
CacheFit (s ∷ ss) = LevelsFit s.slab_size s.levels × CacheFit ss

-- What is taken has this size and comes from these queues.
abbrev Taken : ℕ → List LevelQueue → Option (BlkCacheEntry × List LevelQueue) → Type 0
Taken n qs none = Unit {0}
Taken n qs (some (e, qs')) =
    (e.nblks ≡ n)
    × (e.blk_num + n ≤ 2 ^ 32)
    × LevelsFit n qs'
    × ((b : ℕ) → in_levels b qs ≡ in_levels b qs' + in_entry b e)

take_first-Taken :
    (n limit : ℕ) (es : List BlkCacheEntry) (qs : List LevelQueue)
    → EntriesFit n es
    → LevelsFit n qs
    → Taken n
        (record { limit = limit; entries = es } ∷ qs)
        (take_level zero (record { limit = limit; entries = es } ∷ qs))
take_first-Taken n limit [] qs h k = tt
take_first-Taken n limit (e ∷ es) qs (a, c, h) k = (a, c, (h, k), λ b. omega arith)

take_level-Taken :
    (n level : ℕ) (qs : List LevelQueue) → LevelsFit n qs → Taken n qs (take_level level qs)
take_level-Taken n level [] h = tt
take_level-Taken n zero (q ∷ qs) (h, k) = take_first-Taken n q.limit q.entries qs h k
take_level-Taken n (suc level) (q ∷ qs) (h, k) =
    go (take_level level qs) (take_level-Taken n level qs k)
  where
    go :
        (o : Option (BlkCacheEntry × List LevelQueue))
        → Taken n qs o
        → Taken n (q ∷ qs) (elim o [ none ↦ none | some (e, qs') ↦ some (e, q ∷ qs') ])
    go none t = tt
    go (some (e, qs')) (a, c, f, g) = (a, c, (h, f), λ b. omega (arith, g b))

pop_around-Taken :
    (n fuel start level : ℕ) (qs : List LevelQueue)
    → LevelsFit n qs
    → Taken n qs (pop_around fuel start level qs)
unfolding pop_around
pop_around-Taken n zero start level qs h = tt
pop_around-Taken n (suc fuel) start level qs h =
    go ((level + 1) % length qs == start) (take_level ((level + 1) % length qs) qs)
      (take_level-Taken n ((level + 1) % length qs) qs h)
      (pop_around-Taken n fuel start ((level + 1) % length qs) qs h)
  where
    go :
        (b : Bool) (o : Option (BlkCacheEntry × List LevelQueue))
        → Taken n qs o
        → Taken n qs (pop_around fuel start ((level + 1) % length qs) qs)
        → Taken n qs (
            if b then none else (elim o [
              | none ↦ pop_around fuel start ((level + 1) % length qs) qs
              | some found ↦ some found
            ]))
    go true o t r = tt
    go false none t r = r
    go false (some found) t r = t

abbrev Popped : ℕ → List LevelQueue → Option (ℕ × BlkCacheEntry × List LevelQueue) → Type 0
Popped n qs none = Unit {0}
Popped n qs (some (l, e, qs')) = Taken n qs (some (e, qs'))

pop-Popped :
    (n level : ℕ) (qs : List LevelQueue) → LevelsFit n qs → Popped n qs (pop level false qs)
unfolding pop
pop-Popped n level qs h =
    go (take_level (start_level level qs) qs)
      (pop_around (length qs) (start_level level qs) (start_level level qs) qs)
      (take_level-Taken n (start_level level qs) qs h)
      (pop_around-Taken n (length qs) (start_level level qs) (start_level level qs) qs h)
  where
    go :
        (o p : Option (BlkCacheEntry × List LevelQueue))
        → Taken n qs o
        → Taken n qs p
        → Popped n qs (elim o [
          | some (e, qs') ↦ some (start_level level qs, e, qs')
          | none ↦ elim p [ none ↦ none | some (e, qs') ↦ some (start_level level qs, e, qs') ]
        ])
    go none none t r = tt
    go none (some (e, qs')) t r = r
    go (some (e, qs')) p t r = t

-- The entry that is popped, and the cache without it; `n` is the size of the slab.
abbrev pub FromSlab : ℕ → List Slab → Option (ℕ × BlkCacheEntry × List Slab) → Type 0
FromSlab n ss none = Unit {0}
FromSlab n ss (some (l, e, ss')) =
    (e.nblks ≡ n)
    × (e.blk_num + n ≤ 2 ^ 32)
    × CacheFit ss'
    × (sizes ss' ≡ sizes ss)
    × ((b : ℕ) → in_cache b ss ≡ in_cache b ss' + in_entry b e)

pub pop_slab-FromSlab :
    (n slab_idx level : ℕ) (ss : List Slab)
    → CacheFit ss
    → get_elem? (sizes ss) slab_idx ≡ some n
    → FromSlab n ss (pop_slab slab_idx level false ss)
pop_slab-FromSlab n slab_idx level [] h is = tt
pop_slab-FromSlab n zero level (s ∷ ss) (h, k) is =
    go (pop level false s.levels) (pop-Popped n level s.levels fit)
  where
    same : s.slab_size ≡ n
    same = cc

    fit : LevelsFit n s.levels
    fit = subst (λ x. LevelsFit x s.levels) same h

    go :
        (o : Option (ℕ × BlkCacheEntry × List LevelQueue))
        → Popped n s.levels o
        → FromSlab n (s ∷ ss) (elim o [
          | none ↦ none
          | some (popped, e, qs) ↦ some (popped, e, record s { levels = qs } ∷ ss)
        ])
    go none t = tt
    go (some (l, e, qs)) (a, c, f, g) =
        (a, c, (subst (λ x. LevelsFit x qs) (sym same) f, k), refl, λ b. omega (arith, g b))
pop_slab-FromSlab n (suc slab_idx) level (s ∷ ss) (h, k) is =
    go (pop_slab slab_idx level false ss) (pop_slab-FromSlab n slab_idx level ss k is)
  where
    go :
        (o : Option (ℕ × BlkCacheEntry × List Slab))
        → FromSlab n ss o
        → FromSlab n
            (s ∷ ss)
            (elim o [ none ↦ none | some (popped, e, ss') ↦ some (popped, e, s ∷ ss') ])
    go none t = tt
    go (some (l, e, ss')) (a, c, f, same, g) =
        (a, c, (h, f), ap (λ x. s.slab_size ∷ x) same, λ b. omega (arith, g b))
