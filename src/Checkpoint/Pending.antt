-- ===== src/Checkpoint/Pending.antt =====
-- Triggers that come during a flush.
use home_store.Prelude.{ℕ, ◌+◌, ◌≡◌, refl, Bool, true, not, ◌||◌, some, arith, Bool-cases, inl, inr}
use home_store.Checkpoint.{
  Consumer, Cp, CpManager, queued, switching, trigger_later, do_trigger_cp_flush, switch_from,
  finish,
}

-- A trigger in the flush phase that is forced, and does not come from outside after a shutdown began, is
-- queued under a promise; another such trigger is queued under the same one and changes nothing; when the
-- flush finishes, a trigger back to back is due, and the switchover that follows takes this promise.
pub do_trigger_cp_flush-queued :
    (joins joins' : Consumer → Bool) (flush_on_shutdown : Bool) (m : CpManager) (done : ℕ) (c : Cp)
    → m.in_flush_phase ≡ true
    → (not m.shutdown_initiated || flush_on_shutdown) ≡ true
    → (promise : ℕ) × (m' : CpManager) × (do_trigger_cp_flush joins true flush_on_shutdown m
        ≡ some (queued promise, m'))
      × (do_trigger_cp_flush joins true flush_on_shutdown m' ≡ some (queued promise, m'))
      × ((finish done m').0 ≡ true)
      × ((switch_from joins' c (finish done m').1).0 ≡ switching m.cur_cp promise)
unfolding do_trigger_cp_flush trigger_later finish switch_from
do_trigger_cp_flush-queued joins joins' flush_on_shutdown m done c on may =
    elim (Bool-cases m.pending_trigger_cp) [
      | inl p ↦
          (m.pending_trigger_cp_comp, m, ground arith, ground arith, ground arith, ground arith)
      | inr p ↦ (
        m.promises,
        record m {
          pending_trigger_cp = true;
          pending_trigger_cp_comp = m.promises;
          promises = m.promises + 1;
        },
        ground arith,
        ground arith,
        refl,
        refl,
      )
    ]
