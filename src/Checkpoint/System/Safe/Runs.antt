-- ===== src/Checkpoint/System/Safe/Runs.antt =====
-- The claims on whole runs, from a manager that has just started.
use home_store.Prelude.{
  ℕ, suc, ◌+◌, ◌<◌, ◌≡◌, ◌≢◌, ◌⊎◌, inl, inr, refl, sym, ap, ◌∙◌, true, false, none, some, List, [],
  ◌∷◌, arith, subst, ◌++◌,
}
use home_store.Checkpoint.{Status, Cp, CpManager, on_meta_blk_found, new_cp}
use home_store.Checkpoint.System.{
  System, Flush, Stage, Step, read, enter, nest, leave, check, triggered, synchronized, flushed,
  all_flushed, persists, finishes, Steps, stop, then,
}
use home_store.Checkpoint.System.Safe.{OldPhase, Phase, alone, paired, idle, IsSafe}
use home_store.Checkpoint.System.Safe.Frame.{IsOld, used, some_eq}
use home_store.Checkpoint.System.Safe.Users.{read-IsSafe, enter-IsSafe, nest-IsSafe}
use home_store.Checkpoint.System.Safe.Leaving.{leave-IsSafe, check-IsSafe}
use home_store.Checkpoint.System.Safe.Triggered.{triggered-IsSafe, synchronized-IsSafe}
use home_store.Checkpoint.System.Safe.Flushes.{at_stage, found, flushed-IsSafe, all_flushed-IsSafe}
use home_store.Checkpoint.System.Safe.Ends.{persists-IsSafe, finishes-IsSafe}

-- A manager after a restart, with nobody in it.
abbrev pub at_rest : CpManager → System
at_rest m = record {
  mgr = m;
  guards = λ i. 0;
  readers = λ i. 0;
  checking = λ i. 0;
  held = none;
  flushes = [];
}

pub Step-IsSafe : {s t : System} → Step true s t → IsSafe s → IsSafe t
Step-IsSafe read v = read-IsSafe v
Step-IsSafe (enter id h e) v = enter-IsSafe v id h e
Step-IsSafe (nest id h e) v = nest-IsSafe v id h e
Step-IsSafe (leave id h e) v = leave-IsSafe v id h e
Step-IsSafe (check id h e) v = check-IsSafe v id h e
Step-IsSafe (triggered joins f g h calm e) v = triggered-IsSafe v joins f g h (calm refl) e
Step-IsSafe (synchronized id h r) v = synchronized-IsSafe v id h r
Step-IsSafe (flushed b a id l c e) v = flushed-IsSafe v b a id l c e
Step-IsSafe (all_flushed b a id e h) v = all_flushed-IsSafe v b a id e h
Step-IsSafe (persists b a id e h) v = persists-IsSafe v b a id e h
Step-IsSafe (finishes b a id p e h) v = finishes-IsSafe v b a id p e

pub Steps-IsSafe : {s t : System} → Steps true s t → IsSafe s → IsSafe t
Steps-IsSafe stop v = v
Steps-IsSafe (then r st) v = Step-IsSafe st (Steps-IsSafe r v)

-- No CP in memory, and no flush phase.
pub record IsBlank (m : CpManager) : Type 0 where
  pub no_cp : (i : ℕ) → m.cps i ≡ none
  pub no_flush_phase : m.in_flush_phase ≡ false

pub restarted :
    (count : ℕ) (m : CpManager)
    → ((on_meta_blk_found count m).cur_cp ≡ count)
      × ((on_meta_blk_found count m).cps count ≡ some (new_cp (λ c. false) Status.io_ready))
      × ((i : ℕ) → i ≢ count → (on_meta_blk_found count m).cps i ≡ m.cps i)
      × ((on_meta_blk_found count m).sb.sb ≡ some count)
      × ((on_meta_blk_found count m).in_flush_phase ≡ m.in_flush_phase)
unfolding on_meta_blk_found
restarted count m = (refl, ground arith, λ i h. ground arith, refl, refl)

pub restarted-IsSafe :
    (count : ℕ) (m : CpManager) → IsBlank m → IsSafe (at_rest (on_meta_blk_found count m))
restarted-IsSafe count m b =
    let (cur, here, rest, sb, off) = restarted count m in
    let m' = on_meta_blk_found count m in
    record {
      cur = new_cp (λ c. false) Status.io_ready;
      here = ap m'.cps cur ∙ here;
      ready = refl;
      counted = refl;
      phase = alone (idle refl (off ∙ b.no_flush_phase) refl) (sb ∙ ap some (sym cur)) λ i h.
          record {
            gone = rest i (λ q. h (q ∙ sym cur)) ∙ b.no_cp i;
            no_guard = refl;
            no_reader = refl;
            no_check = refl;
          };
    }

abbrev pub IsOpen : Status → Type 0
IsOpen Status.io_ready = Unit {0}
IsOpen Status.flush_prepare = Unit {0}
IsOpen _ = ⊥

-- In every run after a restart in which a trigger starts a switchover only while no thread stands between
-- the two halves of `cp_io_exit`: a CP that a thread holds, or whose pointer it has read, is in memory and
-- has not begun to flush.
pub Steps-guarded :
    (count : ℕ) (m : CpManager) {t : System} (id : ℕ)
    → IsBlank m
    → Steps true (at_rest (on_meta_blk_found count m)) t
    → 0 < t.guards id + t.readers id
    → (c : Cp) × (t.mgr.cps id ≡ some c) × IsOpen c.status
Steps-guarded count m {t} id b r h =
    let v = Steps-IsSafe r (restarted-IsSafe count m b) in
    elim (used v id (omega arith)) [
      | inl at ↦ (v.cur, ap t.mgr.cps at ∙ v.here, subst IsOpen (sym v.ready) tt)
      | inr o ↦ (o.cp, o.here, go o o.old_phase)
    ]
  where
    go :
        (o : IsOld t id)
        → OldPhase id o.cp (t.guards id) (t.readers id) (t.checking id) t.held t.flushes
        → IsOpen o.cp.status
    go o (OldPhase.switching a x y z w) = subst IsOpen (sym a) tt
    go o (OldPhase.prepared a x y z w p q) = subst IsOpen (sym a) tt
    go o (OldPhase.leaving a x y z w p q) = absurd (omega arith)
    go o (OldPhase.flushing l a x y z p q) = absurd (omega arith)
    go o (OldPhase.done a x y z p q) = absurd (omega arith)

-- In every such run the superblock counts the CPs that were flushed, the current CP is the next one or the
-- one after it, which it is only in the flush phase, and at most one flush is under way; until it is
-- persisted, it is of the CP whose number the superblock holds, so the CPs are persisted one by one.
pub Steps-in_order :
    (count : ℕ) (m : CpManager) {t : System}
    → IsBlank m
    → Steps true (at_rest (on_meta_blk_found count m)) t
    → (n : ℕ) × (t.mgr.sb.sb ≡ some n)
      × ((t.mgr.cur_cp ≡ n) ⊎ ((t.mgr.cur_cp ≡ suc n) × (t.mgr.in_flush_phase ≡ true)))
      × ((before after : List Flush) (id : ℕ) (st : Stage)
          → t.flushes ≡ before ++ at_stage id st ∷ after
          → ((promise : ℕ) → st ≢ Stage.persisted promise)
          → (id ≡ n) × (before ≡ []) × (after ≡ []))
Steps-in_order count m {t} b r =
    let v = Steps-IsSafe r (restarted-IsSafe count m b) in
    let only_one =
      λ (before after : List Flush) (id : ℕ) (st : Stage)
          (e : t.flushes ≡ before ++ at_stage id st ∷ after)
          (early : (promise : ℕ) → st ≢ Stage.persisted promise).
        found v before after id st e early in
    go v.phase only_one
  where
    go :
        Phase t
        → ((before after : List Flush) (id : ℕ) (st : Stage)
            → t.flushes ≡ before ++ at_stage id st ∷ after
            → ((promise : ℕ) → st ≢ Stage.persisted promise)
            → IsOld t id × (before ≡ []) × (after ≡ []))
        → (n : ℕ) × (t.mgr.sb.sb ≡ some n)
          × ((t.mgr.cur_cp ≡ n) ⊎ ((t.mgr.cur_cp ≡ suc n) × (t.mgr.in_flush_phase ≡ true)))
          × ((before after : List Flush) (id : ℕ) (st : Stage)
              → t.flushes ≡ before ++ at_stage id st ∷ after
              → ((promise : ℕ) → st ≢ Stage.persisted promise)
              → (id ≡ n) × (before ≡ []) × (after ≡ []))
    go (alone tail sb others) one = (
      t.mgr.cur_cp,
      sb,
      inl refl,
      λ before after id st e early.
          let (o, x, y) = one before after id st e early in (some_eq (sym o.sb ∙ sb), x, y),
    )
    go (paired old c next f sb here o others) one = (
      old,
      sb,
      inr (next, f),
      λ before after id st e early.
          let (o', x, y) = one before after id st e early in (some_eq (sym o'.sb ∙ sb), x, y),
    )
