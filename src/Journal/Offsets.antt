-- ===== src/Journal/Offsets.antt =====
-- The offsets of a journal: what its invariant is, and where an offset lies.
use native.Mathlib.Nat.{mod-eq_of_lt}
use native.Mathlib.Nat.{mul-add-mod_self_right}
use home_store.Prelude.{
  ℕ, zero, suc, ◌+◌, ◌-◌, ◌*◌, ◌/◌, ◌%◌, ◌≤◌, ◌<◌, ◌≡◌, refl, ap, ◌∙◌, ◌==◌, if◌then◌else◌, some,
  List, [], ◌∷◌, length, get_elem?, arith,
}
use home_store.Journal.{Chunk, Descriptor, on_last, chunk_at}

-- Where the next byte goes.
abbrev pub tail : Descriptor → ℕ
tail d = d.data_start_offset + d.write_sz_in_total + d.reserved_sz

-- The end of the last chunk, and the tail in the last chunk or at its end; without chunks nothing is
-- written or reserved.
pub record IsValid (d : Descriptor) : Type 0 where
  pub size_pos : 0 < d.chunk_size
  pub at_end :
      d.end_offset ≡ (d.data_start_offset / d.chunk_size + length d.journal_chunks) * d.chunk_size
  pub total : d.total_size ≡ length d.journal_chunks * d.chunk_size
  pub tail_le : tail d ≤ d.end_offset
  pub tail_ge : d.end_offset ≤ tail d + (if length d.journal_chunks == 0 then 0 else d.chunk_size)

pub mod_mul : (q s : ℕ) → 0 < s → (q * s) % s ≡ 0
mod_mul q s h = ap (λ x. x % s) (omega arith) ∙ mul-add-mod_self_right q s 0 ∙ mod-eq_of_lt h

pub mod_part : (p s r : ℕ) → r < s → (p * s + r) % s ≡ r
mod_part p s r h = mul-add-mod_self_right p s r ∙ mod-eq_of_lt h

-- In the last chunk before a multiple.
pub mod_window : (q s t : ℕ) → 0 < s → q * s ≤ t + s → t < q * s → t % s ≡ t + s - q * s
mod_window zero s t h a b = absurd (omega arith)
mod_window (suc p) s t h a b =
    let r = t + s - (p * s + s) in
    let whole : suc p * s ≡ p * s + s = grind arith in
    let split : t ≡ p * s + r = omega arith in
    ap (λ x. x % s) split ∙ mod_part p s r (omega arith) ∙ omega (arith, whole)

pub length-on_last : (f : Chunk → Chunk) (cs : List Chunk) → length (on_last f cs) ≡ length cs
length-on_last f [] = refl
length-on_last f (c ∷ []) = refl
length-on_last f (c ∷ d ∷ cs) = omega (arith, length-on_last f (d ∷ cs))

chunk_past :
    (size index off : ℕ) (c : Chunk) (cs : List Chunk)
    → size ≤ off
    → chunk_at size index off (c ∷ cs) ≡ chunk_at size (index + 1) (off - size) cs
unfolding chunk_at
chunk_past size index off c cs h = ground arith

-- The walk over the chunks finds the chunk of an offset.
pub chunk_at-finds :
    (size k r index : ℕ) (cs : List Chunk)
    → r < size
    → k < length cs
    → (c : Chunk) × (get_elem? cs k ≡ some c)
      × (chunk_at size index (k * size + r) cs ≡ some (c, index + k, r))
unfolding chunk_at
chunk_at-finds size k r index [] h l = absurd (omega arith)
chunk_at-finds size zero r index (c ∷ cs) h l = (c, refl, ground arith)
chunk_at-finds size (suc k) r index (c ∷ cs) h l =
    let (x, g, e) = chunk_at-finds size k r (index + 1) cs h (omega arith) in
    let less : suc k * size + r - size ≡ k * size + r = grind arith in
    let over : size ≤ suc k * size + r = grind arith in
    let same : index + 1 + k ≡ index + suc k = omega arith in
    (
      x,
      g,
      chunk_past size index (suc k * size + r) c cs over
          ∙ ap (λ o. chunk_at size (index + 1) o cs) less
          ∙ e
          ∙ ap (λ i. some (x, i, r)) same,
    )
