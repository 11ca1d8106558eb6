-- ===== src/Raft/Append.antt =====
-- Writing to the log of a raft log store.
use home_store.Prelude.{
  ◌⊎◌, ◌<◌, inl, inr, ℕ, suc, ◌+◌, ◌-◌, ◌≤◌, ◌<◌, ◌≡◌, sym, ap, ◌∙◌, List, [], ◌∷◌, ◌++◌, length,
  take, drop, map, length-map, subst, max, length-take, length-drop, arith, false,
}
use home_store.Prelude.{map-append}
use home_store.LogStore.{Log, tail, Operations, Acts}
use home_store.Raft.{Entries, RaftLogStore, append, compact, start_index}
use home_store.Raft.View.{
  Reflects, Coherent, cache_put-Coherent, take-Coherent, drop-Coherent, length-append_one,
  length-cache_put, take-map, drop-map,
}

module _ {S E : Type 0} (ops : Operations S) (log : S → Log) (acts : Acts ops log)
    (entries : Entries E) where
  abbrev pub base : RaftLogStore S E → ℕ
  base r = (log r.log_store).truncated

  tail_of :
      (l : Log) (es : List E)
      → l.records ≡ map entries.serialize es
      → tail l ≡ l.truncated + length es
  tail_of l es e =
      ap (λ x. l.truncated + length x) e
      ∙ ap (λ x. l.truncated + x) (length-map es entries.serialize)

  -- The last index of the log.
  pub tail-Reflects :
      (r : RaftLogStore S E) (es : List E)
      → Reflects log entries r es
      → tail (log r.log_store) ≡ base r + length es
  tail-Reflects r es h = tail_of (log r.log_store) es h.logged

  -- What an append leaves: the entry at the next index.
  pub record Appends (r : RaftLogStore S E) (es : List E) (index : ℕ) (m : RaftLogStore S E)
      (ds : List E) : Type 0 where
    pub at : index ≡ suc (base r + length es)
    pub same_base : base m ≡ base r
    pub reflects : Reflects log entries m ds

  -- Appending puts the entry at the index after the last one, and changes no other.
  pub append-Appends :
      (e : E) (r : RaftLogStore S E) (es : List E)
      → Reflects log entries r es
      → Appends r es (append ops entries e r).0 (append ops entries e r).1 (es ++ e ∷ [])
  unfolding append
  append-Appends e r es h =
      let b : List ℕ = entries.serialize e in
      let s : S = (ops.append_async b r.log_store).1 in
      let lsn : ℕ = (ops.append_async b r.log_store).0 in
      let at : lsn ≡ suc (base r + length es) =
        acts.append_lsn b r.log_store ∙ ap (λ x. x + 1) (tail-Reflects r es h) ∙ omega arith in
      let now : log s ≡ record (log r.log_store) { records = (log r.log_store).records ++ b ∷ [] } =
        acts.append_log b r.log_store in
      let logged : (log s).records ≡ map entries.serialize (es ++ e ∷ []) =
        ap (λ l. l.records) now
        ∙ ap (λ x. x ++ b ∷ []) h.logged
        ∙ sym (map-append entries.serialize es (e ∷ [])) in
      let same : (log s).truncated ≡ base r = ap (λ l. l.truncated) now in
      record {
        at = at;
        same_base = same;
        reflects = record {
          logged = logged;
          cache_full = length-cache_put lsn e r.log_entry_cache ∙ h.cache_full;
          durable = omega (
            arith,
            h.durable,
            tail-Reflects r es h,
            tail_of (log s) (es ++ e ∷ []) logged,
            length-append_one es e,
            same,
          );
          coherent =
              rw (at, same)
                (cache_put-Coherent (base r) es e r.log_entry_cache h.cache_full h.coherent);
        };
      }

  -- What a log that was cut, extended, flushed or truncated in place reflects, with a new durable lsn.
  pub relog-Reflects :
      (r : RaftLogStore S E) (es ds : List E) (s : S) (lsn : ℕ)
      → Reflects log entries r es
      → (log s).records ≡ map entries.serialize ds
      → lsn ≤ (log s).truncated + length ds
      → Coherent (log s).truncated ds r.log_entry_cache
      → Reflects log entries (record r { log_store = s; last_durable_lsn = lsn }) ds
  relog-Reflects r es ds s lsn h logged durable c = record {
    logged = logged;
    cache_full = h.cache_full;
    durable = omega (arith, durable, tail_of (log s) ds logged);
    coherent = c;
  }

  -- Going back to an index of the log, the durable lsn going with it.
  pub rollback-Reflects :
      (index lsn : ℕ) (r : RaftLogStore S E) (es : List E)
      → Reflects log entries r es
      → base r ≤ index
      → index ≤ base r + length es
      → (index < base r + acts.flushed r.log_store) ⊎ (index ≡ base r + length es)
      → lsn ≤ index
      → Reflects log entries
          (record r { log_store = (ops.rollback index r.log_store).1; last_durable_lsn = lsn })
          (take (index - base r) es)
        × ((log (ops.rollback index r.log_store).1).truncated ≡ base r)
  rollback-Reflects index lsn r es h low high settled le =
      let s : S = (ops.rollback index r.log_store).1 in
      let now =
        acts.rollback_log index r.log_store low (omega (arith, high, tail-Reflects r es h))
          (elim settled [
            | inl below ↦ inl below
            | inr end ↦ inr (end ∙ sym (tail-Reflects r es h))
          ]) in
      let same : (log s).truncated ≡ base r = ap (λ l. l.truncated) now in
      (
        relog-Reflects r es (take (index - base r) es) s lsn h
            (ap (λ l. l.records) now
              ∙ ap (take (index - base r)) h.logged
              ∙ take-map entries.serialize (index - base r) es)
            (omega (arith, le, same, low, high, length-take (index - base r) es))
            (rw same (take-Coherent (base r) (index - base r) es r.log_entry_cache h.coherent)),
        same,
      )

  pub flush-Reflects :
      (lsn : ℕ) (r : RaftLogStore S E) (es : List E)
      → Reflects log entries r es
      → lsn ≤ base r + length es
      → Reflects log entries
          (record r { log_store = ops.flush lsn r.log_store; last_durable_lsn = lsn })
          es
  flush-Reflects lsn r es h le =
      let now : log (ops.flush lsn r.log_store) ≡ log r.log_store =
        acts.flush_log lsn r.log_store in
      relog-Reflects r es es (ops.flush lsn r.log_store) lsn h (ap (λ l. l.records) now ∙ h.logged)
        (rw now le) (rw now h.coherent)

  -- What a write at an index leaves.
  pub record Writes (r : RaftLogStore S E) (ds : List E) (index : ℕ) (m : RaftLogStore S E)
      : Type 0 where
    pub same_base : base m ≡ base r
    pub reflects : Reflects log entries m ds
    pub durable : m.last_durable_lsn ≡ index

  -- Compacting to an index that is not truncated drops the entries up to it and keeps the others; the
  -- log then starts after it, also where the index lies beyond the log, which is then empty.
  pub compact-Reflects :
      (index : ℕ) (r : RaftLogStore S E) (es : List E)
      → Reflects log entries r es
      → base r ≤ index
      → Reflects log entries (compact ops entries index r).1 (drop (index - base r) es)
        × (start_index ops entries (compact ops entries index r).1 ≡ suc index)
  unfolding compact start_index
  compact-Reflects index r es h low =
      let s : S = (ops.truncate index false r.log_store).1 in
      let d : ℕ = index - base r in
      let now = acts.truncate_log index false r.log_store low in
      let same : (log s).truncated ≡ index = ap (λ l. l.truncated) now in
      let up : base r + d ≡ index = omega arith in
      (
        relog-Reflects r es (drop d es) s r.last_durable_lsn h
            (ap (λ l. l.records) now ∙ ap (drop d) h.logged ∙ drop-map entries.serialize d es)
            (omega (arith, h.durable, tail-Reflects r es h, same, length-drop d es))
            (subst (λ b. Coherent b (drop d es) r.log_entry_cache) (up ∙ sym same)
              (drop-Coherent (base r) d es r.log_entry_cache h.coherent)),
        ap (λ x. max 1 (x + 1)) (acts.truncated s ∙ same) ∙ omega arith,
      )
