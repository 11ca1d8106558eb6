-- ===== src/Checkpoint/System.antt =====
-- The checkpoint manager with the threads that use it, as a step relation. Entering a CP is two steps, the
-- read of the pointer and the count, between which the thread is in a read-side section of RCU; leaving
-- one is two, the count and the check; a trigger holds its mutex and its guard until all readers of the
-- old pointer have gone on, which `synchronize_rcu` waits for.
pub mod Safe
pub mod Race
mod Tests
use home_store.Prelude.{
  ℕ, zero, suc, ◌+◌, ◌-◌, ◌<◌, ◌≡◌, Bool, true, false, ◌==◌, if◌then◌else◌, Option, none, some,
  List, [], ◌∷◌, ◌++◌,
}
use home_store.Checkpoint.{
  Consumer, CpManager, Triggered, switching, same, cp_ref, cp_unref, check_prepared, cp_start_flush,
  do_trigger_cp_flush, seal, persist, finish,
}

-- How far the flush of a CP is.
pub data Stage : Type 0 where
  waiting : List Consumer → Stage
  sealed : Stage
  persisted : ℕ → Stage

pub record Flush : Type 0 where
  pub cp : ℕ
  pub stage : Stage

-- How many threads hold a CP by a guard, have read its pointer without having counted themselves, or have
-- taken its count to 0 without having checked its status; the CP that a trigger holds while it
-- synchronizes; and the flushes under way. A trigger back to back is one like any other.
pub record System : Type 0 where
  pub mgr : CpManager
  pub guards : ℕ → ℕ
  pub readers : ℕ → ℕ
  pub checking : ℕ → ℕ
  pub held : Option ℕ
  pub flushes : List Flush

abbrev pub more : ℕ → (ℕ → ℕ) → ℕ → ℕ
more id f i = if i == id then f i + 1 else f i

abbrev pub fewer : ℕ → (ℕ → ℕ) → ℕ → ℕ
fewer id f i = if i == id then f i - 1 else f i

abbrev pub erase : Consumer → List Consumer → List Consumer
erase c [] = []
erase c (d ∷ ds) = if same c d then ds else d ∷ erase c ds

-- The flush that a thread starts, if it does.
abbrev pub add_flush : ℕ → Option (List Consumer) → List Flush → List Flush
add_flush id none fs = fs
add_flush id (some asked) fs = fs ++ (record { cp = id; stage = waiting asked }) ∷ []

abbrev pub holds : Triggered → Option ℕ
holds (switching id promise) = some id
holds _ = none

abbrev pub if_zero : Bool → ℕ → (ℕ → ℕ) → ℕ → ℕ
if_zero zeroed id f = if zeroed then more id f else f

-- `calm` says whether a trigger waits until no thread stands between the two halves of `cp_io_exit`,
-- which the code does not do.
pub data Step (calm : Bool) (s : System) : System → Type 0 where
  read : Step calm s (record s { readers = more s.mgr.cur_cp s.readers })
  enter :
      (id : ℕ) {m : CpManager}
      → 0 < s.readers id
      → cp_ref id s.mgr ≡ some m
      → Step calm s (record s { mgr = m; readers = fewer id s.readers; guards = more id s.guards })
  nest :
      (id : ℕ) {m : CpManager}
      → 0 < s.guards id
      → cp_ref id s.mgr ≡ some m
      → Step calm s (record s { mgr = m; guards = more id s.guards })
  leave :
      (id : ℕ) {zeroed : Bool} {m : CpManager}
      → 0 < s.guards id
      → cp_unref id s.mgr ≡ some (zeroed, m)
      → Step calm s (record s {
        mgr = m;
        guards = fewer id s.guards;
        checking = if_zero zeroed id s.checking;
      })
  check :
      (id : ℕ) {started : Option (List Consumer)} {m : CpManager}
      → 0 < s.checking id
      → check_prepared id s.mgr ≡ some (started, m)
      → Step calm s (record s {
        mgr = m;
        checking = fewer id s.checking;
        flushes = add_flush id started s.flushes;
      })
  triggered :
      (joins : Consumer → Bool) (force flush_on_shutdown : Bool) {t : Triggered} {m : CpManager}
      → s.held ≡ none
      → (calm ≡ true → (id : ℕ) → s.checking id ≡ 0)
      → do_trigger_cp_flush joins force flush_on_shutdown s.mgr ≡ some (t, m)
      → Step calm s (record s { mgr = m; held = holds t })
  synchronized :
      (id : ℕ)
      → s.held ≡ some id
      → s.readers id ≡ 0
      → Step calm s (record s { held = none; guards = more id s.guards })
  flushed :
      (before after : List Flush) (id : ℕ) (left : List Consumer) (c : Consumer)
      → s.flushes ≡ before ++ (record { cp = id; stage = waiting left }) ∷ after
      → Step calm s (record s {
        flushes = before ++ (record { cp = id; stage = waiting (erase c left) }) ∷ after;
      })
  all_flushed :
      (before after : List Flush) (id : ℕ) {m : CpManager}
      → s.flushes ≡ before ++ (record { cp = id; stage = waiting [] }) ∷ after
      → seal id s.mgr ≡ some m
      → Step calm s
          (record s { mgr = m; flushes = before ++ (record { cp = id; stage = sealed }) ∷ after })
  persists :
      (before after : List Flush) (id : ℕ) {promise : ℕ} {m : CpManager}
      → s.flushes ≡ before ++ (record { cp = id; stage = sealed }) ∷ after
      → persist id s.mgr ≡ some (promise, m)
      → Step calm s (record s {
        mgr = m;
        flushes = before ++ (record { cp = id; stage = persisted promise }) ∷ after;
      })
  finishes :
      (before after : List Flush) (id promise : ℕ)
      → s.flushes ≡ before ++ (record { cp = id; stage = persisted promise }) ∷ after
      → s.held ≡ none
      → Step calm s (record s { mgr = (finish promise s.mgr).1; flushes = before ++ after })

pub data Steps (calm : Bool) (s : System) : System → Type 0 where
  stop : Steps calm s s
  then : {t u : System} → Steps calm s t → Step calm t u → Steps calm s u
