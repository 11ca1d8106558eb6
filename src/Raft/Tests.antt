-- ===== src/Raft/Tests.antt =====
-- Runs of the raft log store over a log store with its device, which keeps its records in a window of slots.
use home_store.Prelude.{
  ℕ, suc, ◌+◌, ◌≡◌, ◌^◌, refl, ap, ◌∙◌, some, List, [], ◌∷◌, true, arith, ltb, length, inl,
}
use home_store.LogStore.{Log, Operations, Acts}
use home_store.HomeLogStore.{new_log_store, append_async, write_async}
use home_store.HomeLogStore.Device.Good.{fresh-Good}
use home_store.HomeLogStore.Device.Window.{
  window, window-IsStreamTracker, window_scans, window-AreScans,
}
use home_store.HomeLogStore.Device.HomeOps.{Store, log_of, home_ops}
use home_store.HomeLogStore.Device.Serves.{home_ops-Acts}
use home_store.Raft.{
  Entries, RaftLogStore, make, append, end_of_append_batch, entry_at, term_at, apply_pack,
  extract_term,
}
use home_store.Raft.View.{IsEncoding, Reflects}
use home_store.Raft.Append.{Appends, append-Appends, flush-Reflects}
use home_store.Raft.Read.{entry_at-get}
use home_store.Raft.Pack.{apply_pack-Applies, Applies}

abbrev Home : Type 0
Home = Store window window-IsStreamTracker window_scans window-AreScans (λ n. n)

abbrev home : Operations Home
home = home_ops window window-IsStreamTracker window_scans window-AreScans (λ n. n)

abbrev log : Home → Log
log = log_of window window-IsStreamTracker window_scans window-AreScans (λ n. n)

abbrev acts : Acts home log
acts = (home_ops-Acts window window-IsStreamTracker window_scans window-AreScans (λ n. n)).1

acts_flushed : (o : Home) → acts.flushed o ≡ length o.ready
acts_flushed = (home_ops-Acts window window-IsStreamTracker window_scans window-AreScans (λ n. n)).2

acts_in_range : (o : Home) → acts.in_range o ≡ ltb (length o.state.device.log_records) (2 ^ 63)
acts_in_range =
    (home_ops-Acts window window-IsStreamTracker window_scans window-AreScans (λ n. n)).3

-- Entries as their bytes.
abbrev bytes : Entries (List ℕ)
bytes = record {
  serialize = λ b. b;
  to_nuraft_log_entry = λ b. b;
  get_term = extract_term;
  dummy_log_entry = [];
}

bytes-IsEncoding : IsEncoding bytes
bytes-IsEncoding = record { round_trip = λ e. refl; term_first = λ e. refl }

abbrev opened : Home
opened = record {
  state = record {
    store = new_log_store window 0;
    device = record { log_records = []; flushed = 0 };
  };
  ready = [];
  pend = [];
  good = fresh-Good window window-IsStreamTracker window_scans window-AreScans 0;
}

abbrev fresh : RaftLogStore Home (List ℕ)
fresh = make opened

opened_base : (log opened).truncated ≡ 0
unfolding new_log_store
opened_base = refl

fresh-Reflects : Reflects log bytes fresh []
unfolding make
fresh-Reflects = record {
  logged = refl;
  cache_full = refl;
  durable = omega arith;
  coherent = λ k o h p. absurd (omega arith);
}

abbrev first_entry : List ℕ
first_entry = 1 ∷ 0 ∷ 0 ∷ 0 ∷ 0 ∷ 0 ∷ 0 ∷ 0 ∷ 7 ∷ []

abbrev second_entry : List ℕ
second_entry = 2 ∷ 0 ∷ 0 ∷ 0 ∷ 0 ∷ 0 ∷ 0 ∷ 0 ∷ 8 ∷ []

abbrev one : RaftLogStore Home (List ℕ)
one = (append home bytes first_entry fresh).1

one-Appends :
    Appends home log acts bytes fresh []
      (append home bytes first_entry fresh).0
      one
      (first_entry ∷ [])
one-Appends = append-Appends home log acts bytes first_entry fresh [] fresh-Reflects

one_base : (log one.log_store).truncated ≡ 0
unfolding make
one_base = one-Appends.same_base ∙ opened_base

-- Two entries, none of which is flushed.
abbrev both : RaftLogStore Home (List ℕ)
both = (append home bytes second_entry one).1

both-Appends :
    Appends home log acts bytes one
      (first_entry ∷ [])
      (append home bytes second_entry one).0
      both
      (first_entry ∷ second_entry ∷ [])
both-Appends =
    append-Appends home log acts bytes second_entry one (first_entry ∷ []) one-Appends.reflects

both_base : (log both.log_store).truncated ≡ 0
both_base = both-Appends.same_base ∙ one_base

both_in_range : acts.in_range both.log_store ≡ true
unfolding make append home_store.HomeLogStore.Device.append append_async write_async new_log_store
both_in_range = acts_in_range both.log_store

-- The first of two entries is flushed.
abbrev kept : RaftLogStore Home (List ℕ)
kept = end_of_append_batch home bytes 1 1 one

kept-Reflects : Reflects log bytes kept (first_entry ∷ [])
unfolding end_of_append_batch
kept-Reflects =
    flush-Reflects home log acts bytes 1 one (first_entry ∷ []) one-Appends.reflects
      (omega (arith, one_base))

kept_base : (log kept.log_store).truncated ≡ 0
unfolding end_of_append_batch
kept_base = ap (λ l. l.truncated) (acts.flush_log 1 one.log_store) ∙ one_base

abbrev two : RaftLogStore Home (List ℕ)
two = (append home bytes second_entry kept).1

two-Appends :
    Appends home log acts bytes kept
      (first_entry ∷ [])
      (append home bytes second_entry kept).0
      two
      (first_entry ∷ second_entry ∷ [])
two-Appends = append-Appends home log acts bytes second_entry kept (first_entry ∷ []) kept-Reflects

two_base : (log two.log_store).truncated ≡ 0
two_base = two-Appends.same_base ∙ kept_base

two_flushed : acts.flushed two.log_store ≡ 1
unfolding make append end_of_append_batch
two_flushed = acts_flushed two.log_store

entry_at-get_example :
    ((entry_at home bytes (suc ((log both.log_store).truncated + 1)) both).0
      ≡ some (some second_entry))
    × ((term_at home bytes (suc ((log both.log_store).truncated + 1)) both).0 ≡ some 2)
unfolding extract_term
entry_at-get_example =
    entry_at-get home log acts bytes bytes-IsEncoding both (first_entry ∷ second_entry ∷ [])
      both-Appends.reflects 1 second_entry both_in_range refl (omega arith)

apply_pack-Applies_example :
    (m : RaftLogStore Home (List ℕ)) × (apply_pack home bytes 1 (1, second_entry ∷ []) two ≡ some m)
    × Applies home log acts bytes bytes-IsEncoding two
        (first_entry ∷ second_entry ∷ [])
        two-Appends.reflects
        1
        (second_entry ∷ [])
        m
apply_pack-Applies_example =
    apply_pack-Applies home log acts bytes bytes-IsEncoding two (first_entry ∷ second_entry ∷ [])
      two-Appends.reflects 1 (second_entry ∷ []) (omega (arith, two_base))
      (inl (omega (arith, two_flushed)))
