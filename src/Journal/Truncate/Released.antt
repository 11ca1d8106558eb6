-- ===== src/Journal/Truncate/Released.antt =====
-- What a truncation releases.
use home_store.Prelude.{
  ℕ, zero, suc, ◌+◌, ◌-◌, ◌*◌, ◌%◌, ◌≤◌, ◌<◌, ◌≡◌, refl, ap, ◌∙◌, true, false, List, [], ◌∷◌,
  length, take, drop, arith, subst,
}
use home_store.Journal.{Chunk}
use home_store.Journal.Truncate.{is_covered, release_covered}

covered_yes : (t cover hole : ℕ) → cover ≤ t + hole → is_covered t cover hole ≡ true
covered_yes t cover hole h = ground arith

covered_no : (t cover hole : ℕ) → t + hole < cover → is_covered t cover hole ≡ false
covered_no t cover hole h = ground arith

step_last :
    (size t tail_off cover total : ℕ) (c : Chunk)
    → is_covered t (cover + tail_off % size) 0 ≡ false
    → release_covered size t tail_off cover total (c ∷ []) ≡ (c ∷ [], [], total)
unfolding release_covered
step_last size t tail_off cover total c h = ground arith

step_keep :
    (size t tail_off cover total : ℕ) (c d : Chunk) (cs kept released : List Chunk) (total' : ℕ)
    → is_covered t (cover + size) (size - c.end_of_chunk) ≡ false
    → release_covered size t tail_off (cover + size) total (d ∷ cs) ≡ (kept, released, total')
    → release_covered size t tail_off cover total (c ∷ d ∷ cs) ≡ (c ∷ kept, released, total')
unfolding release_covered
step_keep size t tail_off cover total c d cs kept released total' h e = ground arith

step_release :
    (size t tail_off cover total : ℕ) (c d : Chunk) (cs kept released : List Chunk) (total' : ℕ)
    → is_covered t (cover + size) (size - c.end_of_chunk) ≡ true
    → release_covered size t tail_off (cover + size) (total - size) (d ∷ cs)
      ≡ (kept, released, total')
    → release_covered size t tail_off cover total (c ∷ d ∷ cs) ≡ (kept, c ∷ released, total')
unfolding release_covered
step_release size t tail_off cover total c d cs kept released total' h e = ground arith

nothing_there :
    (size t tail_off cover total : ℕ)
    → release_covered size t tail_off cover total [] ≡ ([], [], total)
unfolding release_covered
nothing_there size t tail_off cover total = refl

-- Chunks that start behind the offset are kept.
keeps_behind :
    (size t tail_off cover total : ℕ) (cs : List Chunk)
    → t < cover
    → release_covered size t tail_off cover total cs ≡ (cs, [], total)
keeps_behind size t tail_off cover total [] h = nothing_there size t tail_off cover total
keeps_behind size t tail_off cover total (c ∷ []) h =
    step_last size t tail_off cover total c (covered_no t (cover + tail_off % size) 0 (omega arith))
keeps_behind size t tail_off cover total (c ∷ d ∷ cs) h =
    step_keep size t tail_off cover total c d cs (d ∷ cs) [] total
      (covered_no t (cover + size) (size - c.end_of_chunk) (omega arith))
      (keeps_behind size t tail_off (cover + size) total (d ∷ cs) (omega arith))

-- The chunk that holds data at the offset is kept: the last one has data up to the tail, another one up to
-- its end.
abbrev pub HasData : ℕ → ℕ → ℕ → ℕ → List Chunk → Type 0
HasData size t tail_off cover [] = Unit {0}
HasData size t tail_off cover (c ∷ []) = t < cover + tail_off % size
HasData size t tail_off cover (c ∷ d ∷ cs) = (t < cover + c.end_of_chunk) × (c.end_of_chunk ≤ size)

keeps :
    (size t tail_off cover total : ℕ) (cs : List Chunk)
    → HasData size t tail_off cover cs
    → release_covered size t tail_off cover total cs ≡ (cs, [], total)
keeps size t tail_off cover total [] h = nothing_there size t tail_off cover total
keeps size t tail_off cover total (c ∷ []) h =
    step_last size t tail_off cover total c (covered_no t (cover + tail_off % size) 0 (omega arith))
keeps size t tail_off cover total (c ∷ d ∷ cs) (h, le) =
    step_keep size t tail_off cover total c d cs (d ∷ cs) [] total
      (covered_no t (cover + size) (size - c.end_of_chunk) (omega arith))
      (keeps_behind size t tail_off (cover + size) total (d ∷ cs) (omega arith))

-- The chunks before the one that holds data at the offset are released, and the others are kept.
pub release_covered-splits :
    (size t tail_off cover total k : ℕ) (cs : List Chunk)
    → k < length cs
    → cover + k * size ≤ t
    → HasData size t tail_off (cover + k * size) (drop k cs)
    → release_covered size t tail_off cover total cs ≡ (drop k cs, take k cs, total - k * size)
release_covered-splits size t tail_off cover total zero cs l h here =
    let none_yet : cover + 0 * size ≡ cover = omega arith in
    keeps size t tail_off cover total cs (subst (λ x. HasData size t tail_off x cs) none_yet here)
    ∙ ap (λ n. (cs, [], n)) (omega arith)
release_covered-splits size t tail_off cover total (suc k) [] l h here = absurd (omega arith)
release_covered-splits size t tail_off cover total (suc k) (c ∷ []) l h here = absurd (omega arith)
release_covered-splits size t tail_off cover total (suc k) (c ∷ d ∷ cs) l h here =
    let next : cover + suc k * size ≡ cover + size + k * size = grind arith in
    let less : total - size - k * size ≡ total - suc k * size = grind arith in
    step_release size t tail_off cover total c d cs (drop k (d ∷ cs)) (take k (d ∷ cs))
      (total - suc k * size) (covered_yes t (cover + size) (size - c.end_of_chunk) (omega arith))
      (release_covered-splits size t tail_off (cover + size) (total - size) k (d ∷ cs) (omega arith)
          (omega arith) (subst (λ x. HasData size t tail_off x (drop k (d ∷ cs))) next here)
        ∙ ap (λ n. (drop k (d ∷ cs), take k (d ∷ cs), n)) less)
