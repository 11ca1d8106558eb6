-- ===== src/Raft/Pack.antt =====
-- Packing entries of one log, and applying a pack to another one.
use mathlib.Core.Option
use home_store.Prelude.{
  ◌⊎◌, ◌<◌, inl, inr, ℕ, zero, suc, ◌+◌, ◌-◌, ◌≤◌, ◌<◌, ◌≡◌, refl, sym, ap, ◌∙◌, subst, some, List,
  [], ◌∷◌, ◌++◌, length, take, drop, map, take_all, append-nil, append_assoc, ltb, dec_lt, true,
  false, arith,
}
use home_store.LogStore.{Log, Operations, Acts, numbered}
use home_store.Raft.{
  Entries, RaftLogStore, append, unpack, fill_dummies, apply_pack, pack, pack_records,
  end_of_append_batch,
}
use home_store.Raft.View.{Reflects, IsEncoding, Coherent, drop-map, take-map}
use home_store.Raft.Append.{Appends, base, append-Appends, rollback-Reflects}
use home_store.Raft.Read.{slots-Reflects}

module _ {S E : Type 0} (ops : Operations S) (log : S → Log) (acts : Acts ops log)
    (entries : Entries E) (enc : IsEncoding entries) where
  abbrev pub start : RaftLogStore S E → ℕ
  start r = base ops log acts entries r

  -- Unpacking appends the entries, in order.
  unpack-Reflects :
      (ds : List E) (r : RaftLogStore S E) (es : List E)
      → Reflects log entries r es
      → (m : RaftLogStore S E) × (unpack ops entries (length ds) (map entries.serialize ds) r
          ≡ some m)
        × Reflects log entries m (es ++ ds)
        × (start m ≡ start r)
  unfolding unpack
  unpack-Reflects [] r es h = (r, refl, rw (append-nil es) h, refl)
  unpack-Reflects (d ∷ ds) r es h =
      let a : Appends ops log acts entries r es _ _ (es ++ d ∷ []) =
        append-Appends ops log acts entries d r es h in
      let (m, e, reflects, same) =
        unpack-Reflects ds (append ops entries d r).1 (es ++ d ∷ []) a.reflects in
      (
        m,
        rw (enc.round_trip d) e,
        subst (Reflects log entries m) (append_assoc es (d ∷ []) ds) reflects,
        same ∙ a.same_base,
      )

  -- What the callback packs of entries that are numbered one after another.
  pack-numbered :
      (cnt lsn : ℕ) (bs : List (List ℕ))
      → pack_records ops entries cnt (numbered lsn bs) ≡ take cnt bs
  unfolding pack_records
  pack-numbered zero lsn [] = refl
  pack-numbered (suc cnt) lsn [] = refl
  pack-numbered zero lsn (b ∷ bs) = refl
  pack-numbered (suc zero) lsn (b ∷ bs) = refl
  pack-numbered (suc (suc cnt)) lsn (b ∷ bs) =
      let more : ltb 0 (suc cnt) ≡ true = ground arith in
      rw more (ap (◌∷◌ b) (pack-numbered (suc cnt) (suc lsn) bs))

  fill_dummies-none :
      (fuel index slot : ℕ) (r : RaftLogStore S E)
      → slot ≤ index
      → fill_dummies ops entries fuel index slot r ≡ r
  unfolding fill_dummies
  fill_dummies-none zero index slot r h = refl
  fill_dummies-none (suc fuel) index slot r h =
      let closed : ltb index slot ≡ false = ground arith in rw closed refl

  -- The durable lsn of before does not matter to a batch.
  batch-durable :
      (slot cnt n : ℕ) (bs : List (List ℕ)) (r : RaftLogStore S E) (d : ℕ)
      → Option.map
          (end_of_append_batch ops entries slot cnt)
          (unpack ops entries n bs (record r { last_durable_lsn = d }))
        ≡ Option.map (end_of_append_batch ops entries slot cnt) (unpack ops entries n bs r)
  unfolding unpack append end_of_append_batch
  batch-durable slot cnt zero bs r d = refl
  batch-durable slot cnt (suc n) [] r d = refl
  batch-durable slot cnt (suc n) (b ∷ bs) r d =
      batch-durable slot cnt n bs (append ops entries (entries.to_nuraft_log_entry b) r).1 d

  module _ (r : RaftLogStore S E) (es : List E) (h : Reflects log entries r es) where
    -- A pack holds the serialized entries from its index on, as many as were asked for if so many are
    -- flushed, after the number that was asked for.
    pub pack-slice :
        (k cnt : ℕ)
        → pack ops entries (suc (start r + k)) cnt r
          ≡ (cnt, map entries.serialize (take cnt (drop k (take (acts.flushed r.log_store) es))))
    unfolding pack
    pack-slice k cnt =
        let count = acts.flushed r.log_store in
        let back : start r + k - start r ≡ k = omega arith in
        ap (λ x. (cnt, pack_records ops entries cnt x))
          (acts.visits (start r + k) r.log_store (omega arith)
            ∙ ap (λ x. numbered (suc (start r + k)) (drop x (take count (log r.log_store).records)))
                back
            ∙ ap (λ x. numbered (suc (start r + k)) (drop k (take count x))) h.logged
            ∙ ap (λ x. numbered (suc (start r + k)) (drop k x))
                (take-map entries.serialize count es)
            ∙ ap (numbered (suc (start r + k))) (drop-map entries.serialize k (take count es)))
        ∙ ap (λ x. (cnt, x))
            (pack-numbered cnt (suc (start r + k)) (map entries.serialize (drop k (take count es)))
              ∙ take-map entries.serialize cnt (drop k (take count es)))

    -- What applying a pack leaves.
    pub record Applies (index : ℕ) (ds : List E) (m : RaftLogStore S E) : Type 0 where
      pub same_start : start m ≡ start r
      pub logged :
          (log m.log_store).records ≡ map entries.serialize (take (index - 1 - start r) es ++ ds)
      pub coherent : Coherent (start m) (take (index - 1 - start r) es ++ ds) m.log_entry_cache
      pub durable : m.last_durable_lsn ≡ start r + length es + length ds

    flushed-Applies :
        (index : ℕ) (ds : List E) (u : RaftLogStore S E)
        → Reflects log entries u (take (index - 1 - start r) es ++ ds)
        → start u ≡ start r
        → Applies index ds
            (end_of_append_batch ops entries (suc (start r + length es)) (length ds) u)
    unfolding end_of_append_batch
    flushed-Applies index ds u q same =
        let now = acts.flush_log (suc (start r + length es) + length ds - 1) u.log_store in
        record {
          same_start = ap (λ l. l.truncated) now ∙ same;
          logged = ap (λ l. l.records) now ∙ q.logged;
          coherent =
              subst (λ b. Coherent b (take (index - 1 - start r) es ++ ds) u.log_entry_cache)
                (sym (ap (λ l. l.truncated) now)) q.coherent;
          durable = omega arith;
        }

    finish :
        (index : ℕ) (ds : List E) (p : RaftLogStore S E)
        → Reflects log entries p (take (index - 1 - start r) es)
        → start p ≡ start r
        → (m : RaftLogStore S E) × (Option.map
              (end_of_append_batch ops entries (suc (start r + length es)) (length ds))
              (unpack ops entries (length ds) (map entries.serialize ds) p)
            ≡ some m)
          × Applies index ds m
    finish index ds p reflects same =
        let (u, e, q, same_start) = unpack-Reflects ds p (take (index - 1 - start r) es) reflects in
        let slot : ℕ = suc (start r + length es) in
        (
          end_of_append_batch ops entries slot (length ds) u,
          ap (Option.map (end_of_append_batch ops entries slot (length ds))) e,
          flushed-Applies index ds u q (same_start ∙ same),
        )

    apply_pack-behind :
        (index n : ℕ) (bs : List (List ℕ))
        → index < suc (start r + length es)
        → apply_pack ops entries index (n, bs) r
          ≡ Option.map (end_of_append_batch ops entries (suc (start r + length es)) n) (
              unpack ops entries n bs
                (record r { log_store = (ops.rollback (index - 1) r.log_store).1 }))
    unfolding apply_pack
    apply_pack-behind index n bs lt =
        let (_, slot) = slots-Reflects ops log acts entries enc r es h in
        let inside : ltb index (suc (start r + length es)) ≡ true = ground arith in
        rw (slot, inside) refl

    apply_pack-ahead :
        (index n : ℕ) (bs : List (List ℕ))
        → suc (start r + length es) ≤ index
        → apply_pack ops entries index (n, bs) r
          ≡ Option.map
              (end_of_append_batch ops entries (suc (start r + length es)) n)
              (unpack ops entries n bs r)
    unfolding apply_pack
    apply_pack-ahead index n bs le =
        let (_, slot) = slots-Reflects ops log acts entries enc r es h in
        let at : ℕ = suc (start r + length es) in
        let outside : ltb index at ≡ false = ground arith in
        rw (slot, outside, fill_dummies-none at index at r le) (ground arith)

    -- Applying a pack at an index that is not truncated, and not above the last entry that the log store
    -- has flushed unless it is above all entries, keeps the entries before the index, drops those
    -- from it on and appends the entries of the pack. If the index is after the next slot, nothing is
    -- dropped and nothing is filled in, so the entries land before the index. The durable lsn is set as
    -- if all entries had been kept.
    pub apply_pack-Applies :
        (index : ℕ) (ds : List E)
        → start r < index
        → (index - 1 < start r + acts.flushed r.log_store) ⊎ (start r + length es ≤ index - 1)
        → (m : RaftLogStore S E) × (apply_pack ops entries index
              (length ds, map entries.serialize ds)
              r
            ≡ some m)
          × Applies index ds m
    apply_pack-Applies index ds low settled = elim (dec_lt index (suc (start r + length es))) [
      | yes behind ↦
          let (cut, same) =
            rollback-Reflects ops log acts entries (index - 1) 0 r es h (omega arith) (omega arith)
              (elim settled [ inl below ↦ inl below | inr above ↦ absurd (omega arith) ])
              (omega arith) in
          let (m, e, a) = finish index ds _ cut same in
          (
            m,
            apply_pack-behind index (length ds) (map entries.serialize ds) behind
                ∙ sym (
                    batch-durable (suc (start r + length es)) (length ds) (length ds)
                      (map entries.serialize ds)
                      (record r { log_store = (ops.rollback (index - 1) r.log_store).1 }) 0)
                ∙ e,
            a,
          )
      | no ahead ↦
          let whole : take (index - 1 - start r) es ≡ es =
            take_all (index - 1 - start r) es (omega arith) in
          let (m, e, a) = finish index ds r (rw whole h) refl in
          (m, apply_pack-ahead index (length ds) (map entries.serialize ds) (omega arith) ∙ e, a)
    ]
