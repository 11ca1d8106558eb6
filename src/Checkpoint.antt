-- ===== src/Checkpoint.antt =====
-- The checkpoint manager: `CPManager` of src/lib/checkpoint/cp_mgr.cpp. A checkpoint (CP) is named by its
-- number, which is counted from 0; the superblock holds how many CPs were flushed, one more than
-- `m_last_flushed_cp`. A promise is a number too. What a consumer does is outside; the calls that it gets
-- are kept in order.
pub mod Pending
pub mod System
use home_store.Prelude.{
  ℕ, suc, ◌+◌, ◌-◌, Bool, true, false, not, ◌&&◌, ◌||◌, ◌==◌, if◌then◌else◌, Option, none, some,
  List, [], ◌∷◌, ◌++◌, map,
}
use home_store.Superblk.{Superblk}
use home_store.Superblk

pub data Status : Type 0 where
  io_ready trigger flush_prepare flushing flush_done cleaning : Status

pub data Consumer : Type 0 where
  hs_client index_svc blk_data_svc sealer : Consumer

abbrev pub slot : Consumer → ℕ
slot hs_client = 0
slot index_svc = 1
slot blk_data_svc = 2
slot sealer = 3

abbrev pub same : Consumer → Consumer → Bool
same c d = slot c == slot d

pub data Call : Type 0 where
  attached : Consumer → ℕ → Call
  switched_over : Consumer → ℕ → ℕ → Call
  flush_asked : Consumer → ℕ → Call
  cleaned_up : Consumer → ℕ → Call

-- `contexts` says which consumers have a context in the CP.
pub record Cp : Type 0 where
  pub status : Status
  pub enter_cnt : ℕ
  pub contexts : Consumer → Bool
  pub comp_promise : ℕ

-- `cps` is the CPs in memory; the next promise that is made is `promises`.
pub record CpManager : Type 0 where
  pub cur_cp : ℕ
  pub cps : ℕ → Option Cp
  pub registered : Consumer → Bool
  pub sb : Superblk ℕ
  pub shutdown_initiated : Bool
  pub in_flush_phase : Bool
  pub pending_trigger_cp : Bool
  pub pending_trigger_cp_comp : ℕ
  pub promises : ℕ
  pub fulfilled : List ℕ
  pub calls : List Call

abbrev pub set_cp : ℕ → Option Cp → CpManager → CpManager
set_cp id c m = record m { cps = λ i. if i == id then c else m.cps i }

abbrev pub all_consumers : List Consumer
all_consumers = hs_client ∷ index_svc ∷ blk_data_svc ∷ sealer ∷ []

-- All consumers but the sealer, in the order of the table.
abbrev pub services : List Consumer
services = hs_client ∷ index_svc ∷ blk_data_svc ∷ []

abbrev pub keep : (Consumer → Bool) → List Consumer → List Consumer
keep p [] = []
keep p (c ∷ cs) = if p c then c ∷ keep p cs else keep p cs

abbrev pub new_cp : (Consumer → Bool) → Status → Cp
new_cp contexts status = record {
  status = status;
  enter_cnt = 0;
  contexts = contexts;
  comp_promise = 0;
}

unfoldable pub create_first_cp : ℕ → CpManager → CpManager
create_first_cp flushed m =
    set_cp flushed (some (new_cp (λ c. false) Status.io_ready)) (record m { cur_cp = flushed })

-- A restart, with what the meta service found.
unfoldable pub on_meta_blk_found : ℕ → CpManager → CpManager
unfolding create_first_cp Superblk.load
on_meta_blk_found flushed m = create_first_cp flushed (record m { sb = Superblk.load flushed m.sb })

-- The first start: `m_last_flushed_cp` is -1.
unfoldable pub start : CpManager → Option CpManager
unfolding create_first_cp
start m = elim (Superblk.write (Superblk.create 0 m.sb)) [
  | none ↦ none
  | some sb ↦ some (create_first_cp 0 (record m { sb = sb }))
]

-- `none` here and below is the use of a CP that is not in memory. `joins` says whether the consumer
-- returns a context.
unfoldable pub register_consumer : Consumer → Bool → CpManager → Option CpManager
register_consumer c joins m = elim (m.cps m.cur_cp) [
  | none ↦ none
  | some cp ↦
      some
        (record (set_cp m.cur_cp
          (some (record cp { contexts = λ x. if same x c then joins else cp.contexts x })) m) {
            registered = λ x. if same x c then true else m.registered x;
            calls = m.calls ++ attached c m.cur_cp ∷ [];
          })
]

unfoldable pub cp_ref : ℕ → CpManager → Option CpManager
cp_ref id m = elim (m.cps id) [
  | none ↦ none
  | some c ↦ some (set_cp id (some (record c { enter_cnt = c.enter_cnt + 1 })) m)
]

-- The first half of `cp_io_exit`: the count, and whether it became 0.
unfoldable pub cp_unref : ℕ → CpManager → Option (Bool × CpManager)
cp_unref id m = elim (m.cps id) [
  | none ↦ none
  | some c ↦
      some (c.enter_cnt - 1 == 0, set_cp id (some (record c { enter_cnt = c.enter_cnt - 1 })) m)
]

abbrev pub is_prepared : Status → Bool
is_prepared Status.flush_prepare = true
is_prepared _ = false

-- `cp_start_flush` up to the wait: the services that it waits for.
unfoldable pub cp_start_flush : ℕ → CpManager → Option (List Consumer × CpManager)
cp_start_flush id m = elim (m.cps id) [
  | none ↦ none
  | some c ↦
      (let asked = keep (λ x. m.registered x && c.contexts x) services in
        some (
          asked,
          record (set_cp id (some (record c { status = Status.flushing })) m) {
            calls = m.calls ++ map (λ x. flush_asked x id) asked;
          },
        ))
]

-- The second half of `cp_io_exit`, once the count was 0: the status is read later than the count.
unfoldable pub check_prepared : ℕ → CpManager → Option (Option (List Consumer) × CpManager)
unfolding cp_start_flush
check_prepared id m = elim (m.cps id) [
  | none ↦ none
  | some c ↦
      (let started = cp_start_flush id m in
        if is_prepared c.status
        then elim started [ none ↦ none | some (asked, m') ↦ some (some asked, m') ]
        else some (none, m))
]

-- What `do_trigger_cp_flush` does: it starts a switchover, or gives a future of a later CP, or none at all,
-- which is a future that is false.
pub data Triggered : Type 0 where
  refused : Triggered
  queued : ℕ → Triggered
  switching : ℕ → ℕ → Triggered

-- The part in the flush phase.
unfoldable pub trigger_later : Bool → Bool → CpManager → Triggered × CpManager
trigger_later force flush_on_shutdown m =
    if force && (not m.shutdown_initiated || flush_on_shutdown)
    then if m.pending_trigger_cp then (queued m.pending_trigger_cp_comp, m) else (
      queued m.promises,
      record m {
        pending_trigger_cp = true;
        pending_trigger_cp_comp = m.promises;
        promises = m.promises + 1;
      },
    )
    else (refused, m)

-- The promise of the CP that is to be flushed.
abbrev pub take_promise : CpManager → ℕ × CpManager
take_promise m =
    if m.pending_trigger_cp
    then (m.pending_trigger_cp_comp, record m { pending_trigger_cp = false })
    else (m.promises, record m { promises = m.promises + 1 })

-- The CP after its guard was taken and all consumers switched over from it.
abbrev pub prepared_cp : ℕ → Cp → Cp
prepared_cp promise c = record c {
  status = Status.flush_prepare;
  enter_cnt = c.enter_cnt + 1;
  comp_promise = promise;
}

-- The switchover of the CP in memory, up to the exchange of the pointer: the guard on it is held.
unfoldable pub switch_from : (Consumer → Bool) → Cp → CpManager → Triggered × CpManager
switch_from joins c m =
    let id = m.cur_cp + 1 in
    let contexts = λ (x : Consumer). m.registered x && joins x in
    let called = map (λ x. switched_over x m.cur_cp id) (keep m.registered (sealer ∷ services)) in
    let (promise, m1) =
      take_promise (record m { in_flush_phase = true; calls = m.calls ++ called }) in
    (
      switching m.cur_cp promise,
      record (set_cp id (some (new_cp contexts Status.io_ready))
          (set_cp m.cur_cp (some (prepared_cp promise c)) m1)) { cur_cp = id },
    )

unfoldable pub switch_over : (Consumer → Bool) → CpManager → Option (Triggered × CpManager)
unfolding switch_from
switch_over joins m = elim (m.cps m.cur_cp) [ none ↦ none | some c ↦ some (switch_from joins c m) ]

-- `do_trigger_cp_flush` up to `synchronize_rcu`.
unfoldable pub do_trigger_cp_flush :
    (Consumer → Bool) → Bool → Bool → CpManager → Option (Triggered × CpManager)
unfolding trigger_later switch_over
do_trigger_cp_flush joins force flush_on_shutdown m =
    if m.in_flush_phase then some (trigger_later force flush_on_shutdown m) else switch_over joins m

-- The end of the wait in `cp_start_flush`, and the start of `on_cp_flush_done`.
unfoldable pub seal : ℕ → CpManager → Option CpManager
seal id m = elim (m.cps id) [
  | none ↦ none
  | some c ↦ some (record (set_cp id (some (record c { status = Status.flush_done })) m) {
    calls =
        if m.registered sealer && c.contexts sealer
        then m.calls ++ flush_asked sealer id ∷ []
        else m.calls;
  })
]

unfoldable pub cleanup_cp : ℕ → Cp → CpManager → CpManager
cleanup_cp id c m = record (set_cp id (some (record c { status = Status.cleaning })) m) {
  calls = m.calls ++ map (λ x. cleaned_up x id) (keep m.registered all_consumers);
}

abbrev count_flushed : Superblk ℕ → Option (Superblk ℕ)
count_flushed sb = elim sb.sb [
  | none ↦ none
  | some flushed ↦ Superblk.write (record sb { sb = some (suc flushed) })
]

-- The task of `on_cp_flush_done` until the CP is deleted: the promise that is left.
unfoldable pub persist : ℕ → CpManager → Option (ℕ × CpManager)
unfolding cleanup_cp Superblk.write
persist id m = elim (m.cps id) [
  | none ↦ none
  | some c ↦ (elim (count_flushed m.sb) [
    | none ↦ none
    | some sb ↦ some (c.comp_promise, set_cp id none (cleanup_cp id c (record m { sb = sb })))
  ])
]

-- Its rest: the promise is fulfilled; whether a CP is to be triggered back to back.
unfoldable pub finish : ℕ → CpManager → Bool × CpManager
finish promise m = (
  m.pending_trigger_cp,
  record m { in_flush_phase = false; fulfilled = m.fulfilled ++ promise ∷ [] },
)
