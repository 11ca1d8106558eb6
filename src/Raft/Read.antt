-- ===== src/Raft/Read.antt =====
-- Reading the log of a raft log store, from the cache or from the store behind it.
use mathlib.Core.Option
use home_store.Prelude.{
  ℕ, zero, suc, ◌+◌, ◌-◌, ◌<◌, ◌≡◌, sym, ap, ◌∙◌, Option, Option-cases, inl, inr, none, some, List,
  length, get_elem?, map, min, max, arith, true,
}
use home_store.LogStore.{Log, Operations, Acts}
use home_store.Raft.{
  Entries, RaftLogStore, cached, entry_at, term_at, extract_term, next_slot, start_index,
}
use home_store.Raft.View.{Reflects, IsEncoding, get_elem?-map}
use home_store.Raft.Append.{base, tail-Reflects}

module _ {S E : Type 0} (ops : Operations S) (log : S → Log) (acts : Acts ops log)
    (entries : Entries E) (enc : IsEncoding entries) (r : RaftLogStore S E) (es : List E)
    (h : Reflects log entries r es) where
  abbrev truncated : ℕ
  truncated = base ops log acts entries r

  -- The log runs from `start_index` up to before `next_slot`.
  pub slots-Reflects :
      (start_index ops entries r ≡ suc truncated)
      × (next_slot ops entries r ≡ suc (truncated + length es))
  unfolding next_slot start_index
  slots-Reflects = (
    ap (λ x. max 1 (x + 1)) (acts.truncated r.log_store) ∙ omega arith,
    ap (λ x. x + 1)
          (acts.issued r.last_durable_lsn r.log_store h.durable
            ∙ tail-Reflects ops log acts entries r es h)
        ∙ omega arith,
  )

  read_sync-get :
      (k : ℕ)
      → acts.in_range r.log_store ≡ true
      → (ops.read_sync (suc (truncated + k)) r.log_store).0
        ≡ Option.map entries.serialize (get_elem? es k)
  read_sync-get k range =
      let back : truncated + k - truncated ≡ k = omega arith in
      acts.read (truncated + k) r.log_store range (omega arith)
      ∙ ap (get_elem? (log r.log_store).records) back
      ∙ ap (λ x. get_elem? x k) h.logged
      ∙ get_elem?-map entries.serialize k es

  entry_at-missed :
      (k : ℕ)
      → cached r.log_entry_cache (suc (truncated + k)) ≡ none
      → (entry_at ops entries (suc (truncated + k)) r).0
        ≡ Option.map
            (λ b. some (entries.to_nuraft_log_entry b))
            (ops.read_sync (suc (truncated + k)) r.log_store).0
  unfolding entry_at
  entry_at-missed k e = ground arith

  entry_at-hit :
      (k : ℕ) (o : Option E)
      → cached r.log_entry_cache (suc (truncated + k)) ≡ some o
      → (entry_at ops entries (suc (truncated + k)) r).0 ≡ some o
  unfolding entry_at
  entry_at-hit k o e = ground arith

  term_at-missed :
      (k : ℕ)
      → cached r.log_entry_cache (suc (truncated + k)) ≡ none
      → (term_at ops entries (suc (truncated + k)) r).0
        ≡ Option.map extract_term (ops.read_sync (suc (truncated + k)) r.log_store).0
  unfolding term_at
  term_at-missed k e = ground arith

  term_at-hit :
      (k : ℕ) (o : Option E)
      → cached r.log_entry_cache (suc (truncated + k)) ≡ some o
      → (term_at ops entries (suc (truncated + k)) r).0 ≡ Option.map entries.get_term o
  unfolding term_at
  term_at-hit k o e = ground arith

  -- For an index of the log, `entry_at` gives the entry there, whether the cache has it or not, and
  -- whether it is flushed or not, and `term_at` its term, while the log numbers are in their range.
  pub entry_at-get :
      (k : ℕ) (e : E)
      → acts.in_range r.log_store ≡ true
      → get_elem? es k ≡ some e
      → k < length es
      → ((entry_at ops entries (suc (truncated + k)) r).0 ≡ some (some e))
        × ((term_at ops entries (suc (truncated + k)) r).0 ≡ some (entries.get_term e))
  entry_at-get k e range p lt =
      elim (Option-cases (cached r.log_entry_cache (suc (truncated + k)))) [
        | inl missed ↦
            let found : (ops.read_sync (suc (truncated + k)) r.log_store).0
                ≡ some (entries.serialize e) =
              read_sync-get k range ∙ ap (Option.map entries.serialize) p in
            (
              entry_at-missed k missed
                  ∙ ap (Option.map (λ b. some (entries.to_nuraft_log_entry b))) found
                  ∙ ap (λ x. some (some x)) (enc.round_trip e),
              term_at-missed k missed
                  ∙ ap (Option.map extract_term) found
                  ∙ ap some (enc.term_first e),
            )
        | inr (o, hit) ↦
            let same : o ≡ some e = sym (h.coherent k o lt hit) ∙ p in
            (
              entry_at-hit k o hit ∙ ap some same,
              term_at-hit k o hit ∙ ap (Option.map entries.get_term) same,
            )
      ]

  -- How many of `n` entries a hint lets through.
  abbrev pub limit : Option ℕ → ℕ → ℕ
  limit none n = 0
  limit (some zero) n = n
  limit (some (suc c)) n = min (suc c) n
