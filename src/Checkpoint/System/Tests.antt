-- ===== src/Checkpoint/System/Tests.antt =====
-- Runs of the checkpoint manager after a restart that found five flushed CPs.
use home_store.Prelude.{
  ℕ, suc, ◌<◌, ◌≡◌, ◌≢◌, ◌⊎◌, refl, true, false, none, some, List, [], ◌∷◌, ◌++◌, arith,
}
use home_store.Checkpoint.{
  Consumer, hs_client, sealer, Status, Cp, CpManager, switched_over, on_meta_blk_found, cp_ref,
  do_trigger_cp_flush, finish, switch_from, queued, switching, new_cp,
}
use home_store.Checkpoint.Pending.{do_trigger_cp_flush-queued}
use home_store.Checkpoint.System.{System, Flush, Stage, read, enter, triggered, Steps, stop, then}
use home_store.Checkpoint.System.Safe.Flushes.{at_stage}
use home_store.Checkpoint.System.Safe.Runs.{at_rest, IsBlank, IsOpen, Steps-guarded, Steps-in_order}
use home_store.Checkpoint.System.Safe.Progress.{Ended, Steps-end}
use home_store.Checkpoint.System.Race.{flush-guarded}

abbrev blank : CpManager
blank = record {
  cur_cp = 0;
  cps = λ i. none;
  registered = λ c. true;
  sb = record { sb = none; meta_blk = false; stored = none };
  shutdown_initiated = false;
  in_flush_phase = false;
  pending_trigger_cp = false;
  pending_trigger_cp_comp = 0;
  promises = 0;
  fulfilled = [];
  calls = [];
}

blank-IsBlank : IsBlank blank
blank-IsBlank = record { no_cp = λ i. refl; no_flush_phase = refl }

abbrev restarted_five : System
restarted_five = at_rest (on_meta_blk_found 5 blank)

-- One thread has entered the CP and another one has triggered its flush.
triggered_five :
    (t : System) × Steps true restarted_five t
    × (t.guards 5 ≡ 1)
    × (t.held ≡ some 5)
    × (t.mgr.in_flush_phase ≡ true)
unfolding on_meta_blk_found cp_ref do_trigger_cp_flush
triggered_five = (
  _,
  then (then (then stop read) (enter 5 (omega arith) refl))
      (triggered (λ c. true) false false refl (λ c i. refl) refl),
  refl,
  refl,
  refl,
)

-- The sealer is switched over first.
sealer_first :
    (triggered_five.0).mgr.calls
    ≡ switched_over sealer 5 6
      ∷ switched_over hs_client 5 6
      ∷ switched_over Consumer.index_svc 5 6
      ∷ switched_over Consumer.blk_data_svc 5 6
      ∷ []
unfolding triggered_five
sealer_first = refl

Steps-guarded_example : (c : Cp) × ((triggered_five.0).mgr.cps 5 ≡ some c) × IsOpen c.status
Steps-guarded_example =
    Steps-guarded 5 blank 5 blank-IsBlank (triggered_five.1) (omega (arith, triggered_five.2))

Steps-in_order_example :
    (n : ℕ) × ((triggered_five.0).mgr.sb.sb ≡ some n)
    × (((triggered_five.0).mgr.cur_cp ≡ n)
        ⊎ (((triggered_five.0).mgr.cur_cp ≡ suc n)
            × ((triggered_five.0).mgr.in_flush_phase ≡ true)))
    × ((before after : List Flush) (id : ℕ) (st : Stage)
        → (triggered_five.0).flushes ≡ before ++ at_stage id st ∷ after
        → ((promise : ℕ) → st ≢ Stage.persisted promise)
        → (id ≡ n) × (before ≡ []) × (after ≡ []))
Steps-in_order_example = Steps-in_order 5 blank blank-IsBlank (triggered_five.1)

Steps-end_example : Ended (triggered_five.0) (triggered_five.0)
Steps-end_example = Steps-end 5 blank blank-IsBlank (triggered_five.1)

flush-guarded_example :
    (t : System) × (c : Cp) × Steps false restarted_five t
    × (0 < t.guards 5)
    × (t.mgr.cps 5 ≡ some c)
    × (c.status ≡ Status.flushing)
flush-guarded_example = flush-guarded 5 blank blank-IsBlank

abbrev flushing_now : CpManager
flushing_now = record blank { in_flush_phase = true; cur_cp = 6 }

do_trigger_cp_flush-queued_example :
    (promise : ℕ) × (m' : CpManager) × (do_trigger_cp_flush (λ c. true) true false flushing_now
      ≡ some (queued promise, m'))
    × (do_trigger_cp_flush (λ c. true) true false m' ≡ some (queued promise, m'))
    × ((finish 4 m').0 ≡ true)
    × ((switch_from (λ c. true) (new_cp (λ c. false) Status.io_ready) (finish 4 m').1).0
        ≡ switching 6 promise)
do_trigger_cp_flush-queued_example =
    do_trigger_cp_flush-queued (λ c. true) (λ c. true) false flushing_now 4
      (new_cp (λ c. false) Status.io_ready) refl refl
