-- ===== src/BlkCache/Slabs.antt =====
-- The slab that an entry goes to, and the sizes of the slabs.
use home_store.Prelude.{
  ℕ, zero, suc, ◌+◌, ◌-◌, ◌*◌, ◌^◌, ◌≡◌, ◌≤◌, ◌<◌, refl, ap, ◌∙◌, Bool, leb, some, Option-cases,
  Bool-cases, inl, inr, List, [], ◌∷◌, length, get_elem?, arith,
}
use home_store.BlkCache.{push, BlkCacheEntry, Slab, push_slab, slab_from, find_round_down_slab}

power_suc : (s : ℕ) → 2 ^ suc s ≡ 2 * 2 ^ s
power_suc s = omega arith

slab_from-here : (fuel s m : ℕ) → m ≤ 2 ^ s → slab_from fuel s m ≡ s
slab_from-here zero s m h = refl
slab_from-here (suc fuel) s m h = ground arith

-- Where the least power of 2 that is greater stands.
slab_from-above :
    (fuel s n : ℕ)
    → 2 ^ s ≤ n
    → n < 2 ^ (s + fuel)
    → (j : ℕ) × (slab_from fuel s (n + 1) ≡ suc j) × (2 ^ j ≤ n) × (n < 2 * 2 ^ j)
slab_from-above zero s n h k =
    (let same : 2 ^ (s + 0) ≡ 2 ^ s = ap (λ x. 2 ^ x) (omega arith) in absurd (omega (arith, same)))
slab_from-above (suc fuel) s n h k = elim (Bool-cases (leb (2 ^ suc s) n)) [
  | inl more ↦
      let same : 2 ^ (s + suc fuel) ≡ 2 ^ (suc s + fuel) = ap (λ x. 2 ^ x) (omega arith) in
      let (j, is, le, lt) = slab_from-above fuel (suc s) n (ground arith) (omega (arith, same)) in
      (j, ground arith, le, lt)
  | inr last ↦
      let twice = power_suc s in
      let here = slab_from-here fuel (suc s) (n + 1) (ground arith) in
      (s, ground arith, h, ground arith)
]

-- The slab is that of the highest bit, and the rest is what is below it.
pub round_down :
    (n : ℕ)
    → 0 < n
    → n + 1 < 2 ^ 16
    → (j : ℕ) × (find_round_down_slab n ≡ (j, n - 2 ^ j)) × (2 ^ j ≤ n) × (n < 2 * 2 ^ j)
round_down n pos small =
    let (j, is, le, lt) = slab_from-above 16 0 n (omega arith) (omega arith) in
    (j, ground arith, le, lt)

abbrev pub sizes : List Slab → List ℕ
sizes [] = []
sizes (x ∷ xs) = x.slab_size ∷ sizes xs

-- The slab at an index has the size of that power of 2.
abbrev pub ArePowers : ℕ → List ℕ → Type 0
ArePowers s [] = Unit {0}
ArePowers s (x ∷ xs) = (x ≡ 2 ^ s) × ArePowers (suc s) xs

pub slab_at :
    (s i : ℕ) (ss : List Slab)
    → ArePowers s (sizes ss)
    → i < length (sizes ss)
    → (x : Slab) × (get_elem? ss i ≡ some x) × (x.slab_size ≡ 2 ^ (s + i))
slab_at s i [] h lt = absurd (omega arith)
slab_at s zero (x ∷ xs) (h, k) lt = (x, refl, h ∙ ap (λ e. 2 ^ e) (omega arith))
slab_at s (suc i) (x ∷ xs) (h, k) lt =
    let (y, is, size) = slab_at (suc s) i xs k (omega arith) in
    (y, is, size ∙ ap (λ e. 2 ^ e) (omega arith))

pub push_slab-sizes :
    (slab_idx : ℕ) (e : BlkCacheEntry) (only : Bool) (ss ss' : List Slab) (l : ℕ)
    → push_slab slab_idx e only ss ≡ some (l, ss')
    → sizes ss' ≡ sizes ss
push_slab-sizes slab_idx e only [] ss' l is = absurd (cc)
push_slab-sizes zero e only (x ∷ xs) ss' l is = elim (Option-cases (push e only x.levels)) [
  | inl n ↦ ground arith
  | inr ((k, qs), found) ↦ ground arith
]
push_slab-sizes (suc slab_idx) e only (x ∷ xs) ss' l is =
    elim (Option-cases (push_slab slab_idx e only xs)) [
      | inl n ↦ ground arith
      | inr ((k, t), found) ↦
          let same = push_slab-sizes slab_idx e only xs t k found in ground arith
    ]
