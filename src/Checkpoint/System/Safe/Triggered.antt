-- ===== src/Checkpoint/System/Safe/Triggered.antt =====
-- Triggering and synchronizing keep the manager safe.
use home_store.Prelude.{
  ℕ, suc, ◌+◌, ◌≡◌, ◌≢◌, inl, inr, refl, sym, ap, ◌∙◌, Bool, true, false, none, some, arith, subst,
  ◌&&◌, Bool-cases,
}
use home_store.Checkpoint.{
  Status, Cp, CpManager, Consumer, Triggered, prepared_cp, new_cp, trigger_later, switch_from,
  switch_over, do_trigger_cp_flush,
}
use home_store.Checkpoint.System.{System, more, holds}
use home_store.Checkpoint.System.Safe.{
  OldPhase, Phase, alone, paired, idle, ending, IsSafe, IsSafe-cur, IsSafe-old, more_ne, more_self,
}
use home_store.Checkpoint.System.Safe.Frame.{pair_eq, untouched}

-- In the flush phase a trigger changes only what is pending.
later-same :
    (force flush_on_shutdown : Bool) (m : CpManager)
    → ((trigger_later force flush_on_shutdown m).1.cur_cp ≡ m.cur_cp)
      × ((trigger_later force flush_on_shutdown m).1.in_flush_phase ≡ m.in_flush_phase)
      × ((trigger_later force flush_on_shutdown m).1.sb.sb ≡ m.sb.sb)
      × ((i : ℕ) → (trigger_later force flush_on_shutdown m).1.cps i ≡ m.cps i)
      × (holds (trigger_later force flush_on_shutdown m).0 ≡ none)
unfolding trigger_later
later-same force flush_on_shutdown m =
    (ground arith, ground arith, ground arith, λ i. ground arith, ground arith)

-- A switchover makes the next CP the current one, and the one before it prepared and held.
pub switched-sets :
    (joins : Consumer → Bool) (c : Cp) (m : CpManager)
    → (promise : ℕ) × (contexts : Consumer → Bool) × ((switch_from joins c m).1.cur_cp
        ≡ m.cur_cp + 1)
      × ((switch_from joins c m).1.in_flush_phase ≡ true)
      × ((switch_from joins c m).1.sb.sb ≡ m.sb.sb)
      × ((switch_from joins c m).1.cps (m.cur_cp + 1) ≡ some (new_cp contexts Status.io_ready))
      × ((switch_from joins c m).1.cps m.cur_cp ≡ some (prepared_cp promise c))
      × ((i : ℕ) → i ≢ m.cur_cp + 1 → i ≢ m.cur_cp → (switch_from joins c m).1.cps i ≡ m.cps i)
      × (holds (switch_from joins c m).0 ≡ some m.cur_cp)
unfolding switch_from
switched-sets joins c m =
    let contexts = λ (x : Consumer). m.registered x && joins x in
    elim (Bool-cases m.pending_trigger_cp) [
      | inl p ↦ (
        m.pending_trigger_cp_comp,
        contexts,
        ground arith,
        ground arith,
        ground arith,
        ground arith,
        ground arith,
        λ i h h'. ground arith,
        ground arith,
      )
      | inr p ↦ (
        m.promises,
        contexts,
        ground arith,
        ground arith,
        ground arith,
        ground arith,
        ground arith,
        λ i h h'. ground arith,
        ground arith,
      )
    ]

trigger-later :
    (joins : Consumer → Bool) (force flush_on_shutdown : Bool) (m : CpManager)
    → m.in_flush_phase ≡ true
    → do_trigger_cp_flush joins force flush_on_shutdown m
      ≡ some (trigger_later force flush_on_shutdown m)
unfolding do_trigger_cp_flush
trigger-later joins force flush_on_shutdown m h = ground arith

pub trigger-switch :
    (joins : Consumer → Bool) (force flush_on_shutdown : Bool) (m : CpManager) (c : Cp)
    → m.in_flush_phase ≡ false
    → m.cps m.cur_cp ≡ some c
    → do_trigger_cp_flush joins force flush_on_shutdown m ≡ some (switch_from joins c m)
unfolding do_trigger_cp_flush switch_over
trigger-switch joins force flush_on_shutdown m c h e = ground arith

pub triggered-IsSafe :
    {s : System}
    → IsSafe s
    → (joins : Consumer → Bool) (force flush_on_shutdown : Bool) {t : Triggered} {m : CpManager}
    → s.held ≡ none
    → ((id : ℕ) → s.checking id ≡ 0)
    → do_trigger_cp_flush joins force flush_on_shutdown s.mgr ≡ some (t, m)
    → IsSafe (record s { mgr = m; held = holds t })
triggered-IsSafe {s} v joins force flush_on_shutdown {t} {m} free calm e =
    elim (Bool-cases s.mgr.in_flush_phase) [ inl on ↦ later on | inr off ↦ over off v.phase ]
  where
    later : s.mgr.in_flush_phase ≡ true → IsSafe (record s { mgr = m; held = holds t })
    later on =
        let (et, em) = pair_eq (sym e ∙ trigger-later joins force flush_on_shutdown s.mgr on) in
        let (a, b, c, d, h) = later-same force flush_on_shutdown s.mgr in
        let end = trigger_later force flush_on_shutdown s.mgr in
        let held_none : holds t ≡ none = ap holds et ∙ h in
        subst (λ x. IsSafe (record s { mgr = x; held = holds t })) (sym em)
          (IsSafe-cur v v.cur (untouched a b c d (holds t) s.flushes) (held_none ∙ sym free) refl
            (d s.mgr.cur_cp ∙ v.here) v.ready v.counted)

    over : s.mgr.in_flush_phase ≡ false → Phase s → IsSafe (record s { mgr = m; held = holds t })
    over off (paired old c next f sb at o others) = absurd (cc)
    over off (alone (ending o p x y z) sb others) = absurd (cc)
    over off (alone (idle x y z) sb others) =
        let (et, em) =
          pair_eq (sym e ∙ trigger-switch joins force flush_on_shutdown s.mgr v.cur off v.here) in
        let (promise, contexts, a, b, c, next, old, rest, h) = switched-sets joins v.cur s.mgr in
        let m' = (switch_from joins v.cur s.mgr).1 in
        let held_cur : holds t ≡ some s.mgr.cur_cp = ap holds et ∙ h in
        let fresh = others (s.mgr.cur_cp + 1) (λ q. absurd (omega arith)) in
        let to_suc : s.mgr.cur_cp + 1 ≡ suc s.mgr.cur_cp = omega arith in
        subst (λ z. IsSafe (record s { mgr = z; held = holds t })) (sym em)
          (record {
            cur = new_cp contexts Status.io_ready;
            here = ap m'.cps a ∙ next;
            ready = refl;
            counted = sym fresh.no_guard ∙ ap s.guards (sym a);
            phase =
                paired s.mgr.cur_cp (prepared_cp promise v.cur) (a ∙ to_suc) b (c ∙ sb) old
                  (OldPhase.switching refl (ap (λ n. n + 1) v.counted) (calm s.mgr.cur_cp) held_cur
                    z)
                  λ i h h'.
                    let u = others i h' in
                    record {
                      gone = rest i (λ q. h (q ∙ sym a)) h' ∙ u.gone;
                      no_guard = u.no_guard;
                      no_reader = u.no_reader;
                      no_check = u.no_check;
                    };
          })

pub synchronized-IsSafe :
    {s : System}
    → IsSafe s
    → (id : ℕ) → s.held ≡ some id
    → s.readers id ≡ 0
    → IsSafe (record s { held = none; guards = more id s.guards })
synchronized-IsSafe {s} v id at no_reader = go v.phase
  where
    go : Phase s → IsSafe (record s { held = none; guards = more id s.guards })
    go (alone (idle x y z) sb others) = absurd (cc)
    go (alone (ending o p x y z) sb others) = absurd (cc)
    go (paired old c next f sb here (OldPhase.switching a b d x y) others) =
        let same : old ≡ id = cc in
        let same_guards : (i : ℕ) → i ≢ old → more id s.guards i ≡ s.guards i =
          λ i ne. more_ne id s.guards i (λ q. ne (q ∙ sym same)) in
        let grown : more id s.guards old ≡ s.guards old + 1 =
          ap (more id s.guards) same
          ∙ more_self id s.guards
          ∙ ap (λ i. s.guards i + 1) (sym same) in
        IsSafe-old v old c next f sb others
          (record {
            cur_same = refl;
            phase_same = refl;
            sb_same = refl;
            cps_same = λ i ne. refl;
            guards_same = same_guards;
            readers_same = λ i ne. refl;
            checking_same = λ i ne. refl;
          })
          here
          (OldPhase.prepared a (b ∙ sym grown) (omega arith) (ap s.readers same ∙ no_reader) d refl
            y)
    go (paired old c next f sb here (OldPhase.prepared a b w r d x y) others) = absurd (cc)
    go (paired old c next f sb here (OldPhase.leaving a b w r d x y) others) = absurd (cc)
    go (paired old c next f sb here (OldPhase.flushing l a w r d x y) others) = absurd (cc)
    go (paired old c next f sb here (OldPhase.done a w r d x y) others) = absurd (cc)
