-- ===== src/Checkpoint/System/Race.antt =====
-- What the two halves of `cp_io_exit` allow when a trigger comes between them.
use home_store.Prelude.{
  ℕ, ◌+◌, ◌-◌, ◌<◌, ◌≡◌, refl, sym, ap, ◌∙◌, true, false, ◌==◌, none, some, arith, map, ◌++◌,
}
use home_store.Checkpoint.{
  flush_asked, Consumer, Status, Cp, CpManager, on_meta_blk_found, new_cp, set_cp, prepared_cp,
  switch_from,
}
use home_store.Checkpoint.System.{
  System, read, enter, leave, check, triggered, Steps, stop, then, more, fewer, if_zero, add_flush,
  holds,
}
use home_store.Checkpoint.System.Safe.{set_cp_self, more_self, fewer_self}
use home_store.Checkpoint.System.Safe.Users.{cp_ref-eq, entered}
use home_store.Checkpoint.System.Safe.Leaving.{
  cp_unref-eq, left, check_starts, asked_of, flushes_it,
}
use home_store.Checkpoint.System.Safe.Triggered.{trigger-switch, switched-sets}
use home_store.Checkpoint.System.Safe.Runs.{at_rest, IsBlank, restarted}

not_calm : {A : Type 0} → false ≡ true → A
not_calm h = absurd (cc)

-- One thread reads the pointer and enters.
comes_in :
    {s0 s : System} (n : ℕ) (c : Cp)
    → Steps false s0 s
    → s.mgr.cur_cp ≡ n
    → s.mgr.cps n ≡ some c
    → (t : System) × Steps false s0 t
      × (t.mgr ≡ set_cp n (some (entered c)) s.mgr)
      × (t.guards n ≡ s.guards n + 1)
      × ((i : ℕ) → t.checking i ≡ s.checking i)
      × (t.held ≡ s.held)
comes_in {s0} {s} n c r e h =
    let read_it = more s.mgr.cur_cp s.readers in
    let waits : 0 < read_it n =
      omega (arith, ap read_it (sym e), more_self s.mgr.cur_cp s.readers) in
    let m' = set_cp n (some (entered c)) s.mgr in
    (
      record s { mgr = m'; readers = fewer n read_it; guards = more n s.guards },
      then (then r read) (enter n waits (cp_ref-eq n s.mgr c h)),
      refl,
      more_self n s.guards,
      λ i. refl,
      refl,
    )

-- The only thread in a CP leaves it, up to the check.
goes_out :
    {s0 s : System} (n : ℕ) (c : Cp)
    → Steps false s0 s
    → s.mgr.cps n ≡ some c
    → c.enter_cnt ≡ 1
    → s.guards n ≡ 1
    → (t : System) × Steps false s0 t
      × (t.mgr ≡ set_cp n (some (left c)) s.mgr)
      × (t.guards n ≡ 0)
      × (t.checking n ≡ s.checking n + 1)
      × (t.held ≡ s.held)
goes_out {s0} {s} n c r h one g = (
  record s {
    mgr = set_cp n (some (left c)) s.mgr;
    guards = fewer n s.guards;
    checking = if_zero (c.enter_cnt - 1 == 0) n s.checking;
  },
  then r (leave n (omega arith) (cp_unref-eq n s.mgr c h)),
  refl,
  omega (arith, fewer_self n s.guards),
  ground arith,
  refl,
)

-- After every restart there is a run in which a CP flushes while a thread holds it: one thread takes the
-- count to 0, another one enters, a third one triggers, and then the first one checks the status.
pub flush-guarded :
    (count : ℕ) (m : CpManager)
    → IsBlank m
    → (t : System) × (c : Cp) × Steps false (at_rest (on_meta_blk_found count m)) t
      × (0 < t.guards count)
      × (t.mgr.cps count ≡ some c)
      × (c.status ≡ Status.flushing)
flush-guarded count m b =
    let (cur, here, rest, sb, off) = restarted count m in
    let c0 = new_cp (λ c. false) Status.io_ready in
    let m0 = on_meta_blk_found count m in
    let (s1, r1, e1, g1, k1, h1) = comes_in count c0 stop cur here in
    let here1 : s1.mgr.cps count ≡ some (entered c0) =
      ap (λ x. x.cps count) e1 ∙ set_cp_self count (some (entered c0)) m0 in
    let (s2, r2, e2, g2, k2, h2) = goes_out count (entered c0) r1 here1 refl (omega arith) in
    let cur2 : s2.mgr.cur_cp ≡ count = ap (λ x. x.cur_cp) e2 ∙ ap (λ x. x.cur_cp) e1 ∙ cur in
    let here2 : s2.mgr.cps count ≡ some (left (entered c0)) =
      ap (λ x. x.cps count) e2 ∙ set_cp_self count (some (left (entered c0))) s1.mgr in
    let c2 = left (entered c0) in
    let (s3, r3, e3, g3, k3, h3) = comes_in count c2 r2 cur2 here2 in
    let c3 = entered c2 in
    let here3 : s3.mgr.cps count ≡ some c3 =
      ap (λ x. x.cps count) e3 ∙ set_cp_self count (some c3) s2.mgr in
    let cur3 : s3.mgr.cur_cp ≡ count = ap (λ x. x.cur_cp) e3 ∙ cur2 in
    let off3 : s3.mgr.in_flush_phase ≡ false =
      ap (λ x. x.in_flush_phase) e3
      ∙ ap (λ x. x.in_flush_phase) e2
      ∙ ap (λ x. x.in_flush_phase) e1
      ∙ off
      ∙ b.no_flush_phase in
    let free : s3.held ≡ none = h3 ∙ h2 ∙ h1 in
    let joins = λ (x : Consumer). false in
    let (promise, contexts, a, f, c, next, old, others, h) = switched-sets joins c3 s3.mgr in
    let m4 = (switch_from joins c3 s3.mgr).1 in
    let c4 = prepared_cp promise c3 in
    let here4 : m4.cps count ≡ some c4 = ap m4.cps (sym cur3) ∙ old in
    let t4 = (switch_from joins c3 s3.mgr).0 in
    let s4 = record s3 { mgr = m4; held = holds t4 } in
    let r4 = then r3 (
      triggered joins false false free not_calm
        (trigger-switch joins false false s3.mgr c3 off3 (ap s3.mgr.cps cur3 ∙ here3))) in
    let ready : 0 < s3.checking count = omega (arith, k3 count, k2) in
    let asked = asked_of m4 c4 in
    (
      record s4 {
        mgr = record (set_cp count (some (flushes_it c4)) m4) {
          calls = m4.calls ++ map (λ x. flush_asked x count) asked;
        };
        checking = fewer count s3.checking;
        flushes = add_flush count (some asked) s3.flushes;
      },
      flushes_it c4,
      then r4 (check count ready (check_starts count m4 c4 here4 refl)),
      omega (arith, g3),
      set_cp_self count (some (flushes_it c4)) m4,
      refl,
    )
