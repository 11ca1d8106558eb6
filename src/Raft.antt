-- ===== src/Raft.antt =====
-- The log store of a raft server: `HomeRaftLogStore` of
-- src/lib/replication/log_store/home_raft_log_store.cpp, over the operations of a `HomeLogStore`. A
-- raft index starts at 1. A store lsn is one below its index and is kept as the number one above it, so
-- `to_store_lsn` and `to_repl_lsn` do not change the number. Indices are far below the bounds of their
-- type, except where the code checks for an overflow.
pub mod View
pub mod Append
pub mod Read
pub mod Pack
mod Tests
use home_store.Prelude.{
  ℕ, zero, suc, ◌+◌, ◌-◌, ◌%◌, ◌^◌, min, max, Bool, true, false, ltb, ◌==◌, if◌then◌else◌, Option,
  none, some, List, [], ◌∷◌, ◌++◌, take, set, replicate, map, get_elem?, of_le_bytes,
}
use mathlib.Core.Option
use home_store.LogStore.{Operations}

-- `nuraft::log_entry`, of the NuRaft library.
pub record Entries (E : Type 0) : Type 0 where
  pub serialize : E → List ℕ
  pub to_nuraft_log_entry : List ℕ → E
  pub get_term : E → ℕ
  pub dummy_log_entry : E

abbrev pub cache_size : ℕ
cache_size = 100

pub record RaftLogStore (S E : Type 0) : Type 0 where
  pub log_store : S
  pub last_durable_lsn : ℕ
  pub log_entry_cache : List (ℕ × Option E)

-- The store once it is open: the cache holds a dummy for index 0 everywhere.
unfoldable pub make : {S E : Type 0} → S → RaftLogStore S E
make s = record {
  log_store = s;
  last_durable_lsn = 0;
  log_entry_cache = replicate cache_size (0, none);
}

abbrev pub to_store_lsn : ℕ → ℕ
to_store_lsn index = index

abbrev pub to_repl_lsn : ℕ → ℕ
to_repl_lsn lsn = lsn

-- The first field of a serialized entry.
unfoldable pub extract_term : List ℕ → ℕ
extract_term bytes = of_le_bytes (take 8 bytes)

-- The entry of the cache at the position of an index, if it is for that index.
unfoldable pub hit : {E : Type 0} → ℕ → Option (ℕ × Option E) → Option (Option E)
hit index none = none
hit index (some nle) = if nle.0 == index then some nle.1 else none

unfoldable pub cached : {E : Type 0} → List (ℕ × Option E) → ℕ → Option (Option E)
cached cache index = hit index (get_elem? cache (index % cache_size))

unfoldable pub cache_put : {E : Type 0} → ℕ → E → List (ℕ × Option E) → List (ℕ × Option E)
cache_put index entry cache = set cache (index % cache_size) (index, some entry)

-- Every cached entry after the index is taken out.
unfoldable pub cache_cut : {E : Type 0} → ℕ → List (ℕ × Option E) → List (ℕ × Option E)
cache_cut index cache = map (λ x. if ltb index x.0 then (0, none) else x) cache

module _ {S E : Type 0} (ops : Operations S) (entries : Entries E) where
  unfoldable pub next_slot : RaftLogStore S E → ℕ
  next_slot r = to_repl_lsn (ops.get_contiguous_issued_seq_num r.last_durable_lsn r.log_store) + 1

  unfoldable pub last_index : RaftLogStore S E → ℕ
  last_index r = to_repl_lsn (ops.get_contiguous_completed_seq_num r.last_durable_lsn r.log_store)

  unfoldable pub start_index : RaftLogStore S E → ℕ
  start_index r = max 1 (to_repl_lsn (ops.truncated_upto r.log_store) + 1)

  -- An entry is null only if the cache holds it so.
  unfoldable pub last_entry : RaftLogStore S E → Option E × RaftLogStore S E
  last_entry r =
      let lsn = ops.get_contiguous_issued_seq_num r.last_durable_lsn r.log_store in
      if lsn == 0 then (some entries.dummy_log_entry, r) else (elim (cached r.log_entry_cache lsn) [
        | some nle ↦ (nle, r)
        | none ↦
            let (bytes, s) = ops.read_sync lsn r.log_store in
            (
              elim bytes [
                | some b ↦ some (entries.to_nuraft_log_entry b)
                | none ↦ some entries.dummy_log_entry
              ],
              record r { log_store = s },
            )
      ])

  unfoldable pub append : E → RaftLogStore S E → ℕ × RaftLogStore S E
  unfolding cache_put
  append entry r =
      let (next_seq, s) = ops.append_async (entries.serialize entry) r.log_store in
      let lsn = to_repl_lsn next_seq in
      (lsn, record r { log_store = s; log_entry_cache = cache_put lsn entry r.log_entry_cache })

  unfoldable pub end_of_append_batch : ℕ → ℕ → RaftLogStore S E → RaftLogStore S E
  end_of_append_batch start cnt r =
      let end_lsn = to_store_lsn (start + cnt - 1) in
      record r { log_store = ops.flush end_lsn r.log_store; last_durable_lsn = end_lsn }

  -- `none` is the release assertion that the entry was appended at the index.
  unfoldable pub write_at : ℕ → E → RaftLogStore S E → Option (RaftLogStore S E)
  unfolding cache_put cache_cut end_of_append_batch
  write_at index entry r =
      let (_, rolled) = ops.rollback (to_store_lsn index - 1) r.log_store in
      let (appended_seq, s) = ops.append_async (entries.serialize entry) rolled in
      if to_repl_lsn appended_seq == index
      then some (
          end_of_append_batch index 1 (record {
            log_store = s;
            last_durable_lsn = 0;
            log_entry_cache = cache_cut index (cache_put index entry r.log_entry_cache);
          }))
      else none

  -- The callback of `foreach` in `log_entries`, on what it visits.
  unfoldable pub collect_until : ℕ → List (ℕ × List ℕ) → List E
  collect_until end [] = []
  collect_until end ((cur, b) ∷ rest) =
      let more = collect_until end rest in
      if ltb cur (to_store_lsn end)
      then entries.to_nuraft_log_entry b ∷ (if ltb cur (to_store_lsn end - 1) then more else [])
      else if ltb cur (to_store_lsn end - 1)
      then more
      else []

  unfoldable pub log_entries : ℕ → ℕ → RaftLogStore S E → List E
  log_entries start end r = collect_until end (ops.foreach (to_store_lsn start) r.log_store)

  -- The end that the hint leaves: `none` for a negative hint.
  unfoldable pub new_end : ℕ → ℕ → Option ℕ → ℕ
  new_end start end none = start
  new_end start end (some zero) = end
  new_end start end (some cnt) =
      if ltb ((start + cnt) % 2 ^ 64) start then min end end else min ((start + cnt) % 2 ^ 64) end

  unfoldable pub log_entries_ext : ℕ → ℕ → Option ℕ → RaftLogStore S E → List E
  log_entries_ext start end batch_size_hint r =
      log_entries start (new_end start end batch_size_hint) r

  -- The outer `none` is the exception for an index out of range.
  unfoldable pub entry_at : ℕ → RaftLogStore S E → Option (Option E) × RaftLogStore S E
  entry_at index r = elim (cached r.log_entry_cache index) [
    | some nle ↦ (some nle, r)
    | none ↦
        let (bytes, s) = ops.read_sync (to_store_lsn index) r.log_store in
        (Option.map (λ b. some (entries.to_nuraft_log_entry b)) bytes, record r { log_store = s })
  ]

  -- `none` is that exception, or the use of a null entry of the cache.
  unfoldable pub term_at : ℕ → RaftLogStore S E → Option ℕ × RaftLogStore S E
  term_at index r = elim (cached r.log_entry_cache index) [
    | some nle ↦ (Option.map entries.get_term nle, r)
    | none ↦
        let (bytes, s) = ops.read_sync (to_store_lsn index) r.log_store in
        (Option.map extract_term bytes, record r { log_store = s })
  ]

  -- The callback of `foreach` in `pack`, on what it visits.
  unfoldable pub pack_records : ℕ → List (ℕ × List ℕ) → List (List ℕ)
  pack_records remain_cnt [] = []
  pack_records zero (x ∷ rest) = []
  pack_records (suc remain_cnt) ((cur, b) ∷ rest) =
      let more = pack_records remain_cnt rest in b ∷ (if ltb 0 remain_cnt then more else [])

  -- The buffer: its leading count, and the records, each with its length.
  unfoldable pub pack : ℕ → ℕ → RaftLogStore S E → ℕ × List (List ℕ)
  pack index cnt r = (cnt, pack_records cnt (ops.foreach (to_store_lsn index) r.log_store))

  -- The loop `while (index++ < slot)` that appends dummies.
  unfoldable pub fill_dummies : ℕ → ℕ → ℕ → RaftLogStore S E → RaftLogStore S E
  fill_dummies zero index slot r = r
  fill_dummies (suc fuel) index slot r =
      let filled = fill_dummies fuel (index + 1) slot (append entries.dummy_log_entry r).1 in
      if ltb index slot then filled else r

  -- The loop over the records; `none` is reading past the end of the buffer.
  unfoldable pub unpack : ℕ → List (List ℕ) → RaftLogStore S E → Option (RaftLogStore S E)
  unpack zero bs r = some r
  unpack (suc n) [] r = none
  unpack (suc n) (b ∷ bs) r = unpack n bs (append (entries.to_nuraft_log_entry b) r).1

  -- The loop that fills in dummies ends within `slot` rounds.
  unfoldable pub apply_pack : ℕ → ℕ × List (List ℕ) → RaftLogStore S E → Option (RaftLogStore S E)
  apply_pack index (num_entries, bs) r =
      let slot = next_slot r in
      let placed =
        if ltb index slot
        then record r { log_store = (ops.rollback (to_store_lsn index - 1) r.log_store).1 }
        else if ltb slot index
        then fill_dummies slot index slot r
        else r in
      Option.map (end_of_append_batch slot num_entries) (unpack num_entries bs placed)

  unfoldable pub compact : ℕ → RaftLogStore S E → Bool × RaftLogStore S E
  compact compact_lsn r =
      (true, record r { log_store = (ops.truncate (to_store_lsn compact_lsn) false r.log_store).1 })

  unfoldable pub flush : RaftLogStore S E → Bool × RaftLogStore S E
  flush r = (true, record r { log_store = ops.flush_all r.log_store })

  unfoldable pub last_durable_index : RaftLogStore S E → ℕ × RaftLogStore S E
  last_durable_index r =
      let lsn = ops.get_contiguous_completed_seq_num r.last_durable_lsn r.log_store in
      (to_repl_lsn lsn, record r { last_durable_lsn = lsn })

  unfoldable pub purge_all_logs : RaftLogStore S E → RaftLogStore S E
  purge_all_logs r =
      let last_lsn = ops.get_contiguous_issued_seq_num r.last_durable_lsn r.log_store in
      record r { log_store = (ops.truncate last_lsn false r.log_store).1 }

  unfoldable pub set_last_durable_lsn : ℕ → RaftLogStore S E → RaftLogStore S E
  set_last_durable_lsn lsn r = record r { last_durable_lsn = to_store_lsn lsn }
