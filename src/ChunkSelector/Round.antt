-- ===== src/ChunkSelector/Round.antt =====
-- What a round of selections gives.
use home_store.Prelude.{
  ℕ, zero, suc, ◌+◌, ◌-◌, ◌^◌, ◌≤◌, ◌<◌, ◌≡◌, refl, sym, ap, ◌∙◌, arith, Option, none, some, List,
  [], ◌∷◌, ◌++◌, length, get_elem?, take, drop, length-drop, take_all, Option-cases, inl, inr,
}
use home_store.ChunkSelector.{RoundRobinChunkSelector, select_chunk, select_chunks, joined}

module _ {ℓ} {C : Type ℓ} where
  abbrev at_index : List C → ℕ → RoundRobinChunkSelector C
  at_index cs i = record { chunks = cs; next_chunk_index = i }

  split_at :
      (cs : List C) (i : ℕ)
      → i < length cs
      → (c : C) × (get_elem? cs i ≡ some c) × (drop i cs ≡ c ∷ drop (suc i) cs)
  split_at [] i h = absurd (omega arith)
  split_at (c ∷ cs) zero h = (c, refl, refl)
  split_at (c ∷ cs) (suc i) h = split_at cs i (omega arith)

  select_below :
      (cs : List C) (i : ℕ) (c : C)
      → i < length cs
      → length cs < 2 ^ 32
      → get_elem? cs i ≡ some c
      → select_chunk (at_index cs i) ≡ some (c, at_index cs (suc i))
  unfolding select_chunk
  select_below cs i c h m e = ground arith

  none_left : (s : RoundRobinChunkSelector C) → select_chunks 0 s ≡ some ([], s)
  unfolding select_chunks
  none_left s = refl

  step_none :
      (count : ℕ) (s : RoundRobinChunkSelector C)
      → select_chunk s ≡ none
      → select_chunks (suc count) s ≡ none
  unfolding select_chunks
  step_none count s e = ground arith

  step_some :
      (count : ℕ) (s : RoundRobinChunkSelector C) {c : C} {s1 : RoundRobinChunkSelector C}
      → select_chunk s ≡ some (c, s1)
      → select_chunks (suc count) s ≡ joined (c ∷ []) (select_chunks count s1)
  unfolding select_chunks
  step_some count s e = ground arith

  segment :
      (count : ℕ) (cs : List C) (i : ℕ)
      → i + count ≤ length cs
      → length cs < 2 ^ 32
      → select_chunks count (at_index cs i) ≡ some (take count (drop i cs), at_index cs (i + count))
  segment zero cs i h m =
      let same : i ≡ i + 0 = omega arith in
      none_left (at_index cs i) ∙ ap (λ k. some ([], at_index cs k)) same
  segment (suc count) cs i h m =
      let (c, e, d) = split_at cs i (omega arith) in
      let rest = segment count cs (suc i) (omega arith) m in
      let on : suc i + count ≡ i + suc count = omega arith in
      step_some count (at_index cs i) (select_below cs i c (omega arith) m e)
      ∙ ap (joined (c ∷ [])) rest
      ∙ ap (λ k. some (c ∷ take count (drop (suc i) cs), at_index cs k)) on
      ∙ ap (λ x. some (take (suc count) x, at_index cs (i + suc count))) (sym d)

  -- Behind the last chunk the selector starts again.
  wraps :
      (cs : List C) (i : ℕ)
      → i ≡ length cs
      → select_chunk (at_index cs i) ≡ select_chunk (at_index cs 0)
  unfolding select_chunk
  wraps cs i h = ground arith

  wraps_all :
      (count : ℕ) (cs : List C) (i : ℕ)
      → i ≡ length cs
      → select_chunks (suc count) (at_index cs i) ≡ select_chunks (suc count) (at_index cs 0)
  unfolding select_chunks
  wraps_all count cs i h = let once = wraps cs i h in ground arith

  again :
      (count : ℕ) (cs : List C) (i : ℕ)
      → i ≡ length cs
      → count ≤ length cs
      → length cs < 2 ^ 32
      → (k : ℕ) × (select_chunks count (at_index cs i) ≡ some (take count cs, at_index cs k))
        × (k ≤ length cs)
  again zero cs i h le m = (i, none_left (at_index cs i), omega arith)
  again (suc count) cs i h le m =
      let same : 0 + suc count ≡ suc count = omega arith in
      (
        suc count,
        wraps_all count cs i h
            ∙ segment (suc count) cs 0 (omega arith) m
            ∙ ap (λ n. some (take (suc count) cs, at_index cs n)) same,
        le,
      )

  -- What selections and more selections after them give.
  abbrev followed :
      ℕ → Option (List C × RoundRobinChunkSelector C) → Option (List C × RoundRobinChunkSelector C)
  followed b none = none
  followed b (some (xs, s)) = joined xs (select_chunks b s)

  joined_nil : (o : Option (List C × RoundRobinChunkSelector C)) → joined [] o ≡ o
  joined_nil none = refl
  joined_nil (some (xs, s)) = refl

  joined_twice :
      (c : C) (xs : List C) (o : Option (List C × RoundRobinChunkSelector C))
      → joined (c ∷ []) (joined xs o) ≡ joined (c ∷ xs) o
  joined_twice c xs none = refl
  joined_twice c xs (some (ys, s)) = refl

  joined-followed :
      (b : ℕ) (c : C) (o : Option (List C × RoundRobinChunkSelector C))
      → joined (c ∷ []) (followed b o) ≡ followed b (joined (c ∷ []) o)
  joined-followed b c none = refl
  joined-followed b c (some (xs, s)) = joined_twice c xs (select_chunks b s)

  select_both :
      (a b : ℕ) (s : RoundRobinChunkSelector C)
      → select_chunks (a + b) s ≡ followed b (select_chunks a s)
  select_both zero b s =
      let same : 0 + b ≡ b = omega arith in
      ap (λ n. select_chunks n s) same
      ∙ sym (joined_nil (select_chunks b s))
      ∙ ap (followed b) (sym (none_left s))
  select_both (suc a) b s =
      let same : suc a + b ≡ suc (a + b) = omega arith in
      ap (λ n. select_chunks n s) same ∙ elim (Option-cases (select_chunk s)) [
        | inl e ↦ step_none (a + b) s e ∙ ap (followed b) (sym (step_none a s e))
        | inr ((c, s1), e) ↦
            step_some (a + b) s e
            ∙ ap (joined (c ∷ [])) (select_both a b s1)
            ∙ joined-followed b c (select_chunks a s1)
            ∙ ap (followed b) (sym (step_some a s e))
      ]

  -- As many selections by one thread as there are chunks, fewer than 2 ^ 32 of them, with an index not
  -- beyond their number: each chunk is selected once, those from the index on first, in order and then
  -- those before it, and the index stays within the number of chunks.
  pub select_chunks-round :
      (s : RoundRobinChunkSelector C)
      → s.next_chunk_index ≤ length s.chunks
      → length s.chunks < 2 ^ 32
      → (s' : RoundRobinChunkSelector C) × (select_chunks (length s.chunks) s
          ≡ some (drop s.next_chunk_index s.chunks ++ take s.next_chunk_index s.chunks, s'))
        × (s'.chunks ≡ s.chunks)
        × (s'.next_chunk_index ≤ length s'.chunks)
  select_chunks-round s h m =
      let cs = s.chunks in
      let i = s.next_chunk_index in
      let upto = length cs - i in
      let first = segment upto cs i (omega arith) m in
      let all : take upto (drop i cs) ≡ drop i cs =
        take_all upto (drop i cs) (omega (arith, length-drop i cs)) in
      let (k, second, le) = again i cs (i + upto) (omega arith) (omega arith) m in
      let count : upto + i ≡ length cs = omega arith in
      (
        at_index cs k,
        ap (λ n. select_chunks n s) (sym count)
            ∙ select_both upto i s
            ∙ ap (followed i) (first ∙ ap (λ x. some (x, at_index cs (i + upto))) all)
            ∙ ap (joined (drop i cs)) second,
        refl,
        le,
      )
