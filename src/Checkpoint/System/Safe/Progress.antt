-- ===== src/Checkpoint/System/Safe/Progress.antt =====
-- A flush phase can always be ended: what is left to do in it falls with a step that some thread can take.
use home_store.Prelude.{
  ℕ, zero, suc, ◌+◌, ◌-◌, ◌*◌, ◌<◌, ◌≤◌, ◌≡◌, refl, ap, ◌∙◌, Bool, true, false, ◌&&◌, Option, none,
  some, List, [], ◌∷◌, arith, subst, ◌⊎◌, inl, inr, ◌==◌, map, ℕ_discrete, Option-cases, ◌++◌,
  length,
}
use home_store.Checkpoint.{
  flush_asked, Consumer, Cp, CpManager, on_meta_blk_found, seal, persist, finish, keep, services,
  set_cp,
}
use home_store.Checkpoint.System.{
  System, Flush, Stage, Step, enter, leave, check, synchronized, all_flushed, persists, finishes,
  Steps, stop, then, more, fewer, if_zero, add_flush, erase,
}
use home_store.Checkpoint.System as Sys
use home_store.Checkpoint.System.Safe.{
  OldPhase, Phase, alone, paired, idle, ending, IsSafe, more_self, fewer_self,
}
use home_store.Checkpoint.System.Safe.Users.{cp_ref-eq, entered}
use home_store.Checkpoint.System.Safe.Leaving.{
  cp_unref-eq, left, check_starts, asked_of, flushes_it,
}
use home_store.Checkpoint.System.Safe.Flushes.{at_stage}
use home_store.Checkpoint.System.Safe.Runs.{
  Step-IsSafe, Steps-IsSafe, restarted-IsSafe, at_rest, IsBlank,
}

abbrev flush_left : List Flush → ℕ
flush_left [] = 7
flush_left (f ∷ fs) = elim f.stage [
  | Stage.waiting l ↦ length l + 3
  | Stage.sealed ↦ 2
  | Stage.persisted promise ↦ 1
]

abbrev held_left : Option ℕ → ℕ
held_left none = 0
held_left (some id) = 3

-- What is left of a flush of this CP.
abbrev work : ℕ → System → ℕ
work old t =
    3 * t.readers old + 2 * t.guards old + t.checking old + held_left t.held + flush_left t.flushes

-- A step that leaves less to do; it stays in the flush phase or ends it.
record Goes (old : ℕ) (t : System) : Type 0 where
  to : System
  by_step : Step true t to
  less : work old to < work old t
  cur_same : to.mgr.cur_cp ≡ t.mgr.cur_cp

asked-le : (p : Consumer → Bool) → length (keep p services) ≤ 3
asked-le p = ground arith

seal-some :
    (id : ℕ) (m : CpManager) (c : Cp)
    → m.cps id ≡ some c
    → (m' : CpManager) × (seal id m ≡ some m') × (m'.cur_cp ≡ m.cur_cp)
unfolding seal
seal-some id m c e = elim (Option-cases (seal id m)) [
  | inl q ↦ absurd (ground arith)
  | inr (m', q) ↦ (m', q, ground arith)
]

persist-some :
    (id : ℕ) (m : CpManager) (c : Cp) (n : ℕ)
    → m.cps id ≡ some c
    → m.sb.sb ≡ some n
    → (promise : ℕ) × (m' : CpManager) × (persist id m ≡ some (promise, m'))
      × (m'.cur_cp ≡ m.cur_cp)
unfolding persist
persist-some id m c n e sb = elim (Option-cases (persist id m)) [
  | inl q ↦ absurd (ground arith)
  | inr ((p, m'), q) ↦ (p, m', q, ground arith)
]

if_zero_self : (z : Bool) (id : ℕ) (f : ℕ → ℕ) → if_zero z id f id ≤ f id + 1
if_zero_self z id f = ground arith

enter_less :
    (old : ℕ) (t : System)
    → 0 < t.readers old
    → 3 * fewer old t.readers old + 2 * more old t.guards old < 3 * t.readers old + 2 * t.guards old
enter_less old t h = omega (arith, fewer_self old t.readers, more_self old t.guards)

erase_first : (c : Consumer) (cs : List Consumer) → length (erase c (c ∷ cs)) ≡ length cs
erase_first c cs = ground arith

goes :
    {t : System} (old : ℕ) (c : Cp)
    → t.mgr.sb.sb ≡ some old
    → t.mgr.cps old ≡ some c
    → OldPhase old c (t.guards old) (t.readers old) (t.checking old) t.held t.flushes
    → Goes old t
goes {t} old c sb e (OldPhase.switching a b d h y) = elim (ℕ_discrete (t.readers old) 0) [
  | yes z ↦ record {
    to = record t { held = none; guards = more old t.guards };
    by_step = synchronized old h z;
    less = omega (arith, more_self old t.guards, ap held_left h);
    cur_same = refl;
  }
  | no z ↦
      (let waits : 0 < t.readers old = omega arith in
        record {
          to = record t {
            mgr = set_cp old (some (entered c)) t.mgr;
            readers = fewer old t.readers;
            guards = more old t.guards;
          };
          by_step = enter old waits (cp_ref-eq old t.mgr c e);
          less = omega (arith, enter_less old t waits);
          cur_same = refl;
        })
]
goes {t} old c sb e (OldPhase.prepared a b w r d x y) = record {
  to = record t {
    mgr = set_cp old (some (left c)) t.mgr;
    guards = fewer old t.guards;
    checking = if_zero (c.enter_cnt - 1 == 0) old t.checking;
  };
  by_step = leave old w (cp_unref-eq old t.mgr c e);
  less = omega (arith, fewer_self old t.guards, if_zero_self (c.enter_cnt - 1 == 0) old t.checking);
  cur_same = refl;
}
goes {t} old c sb e (OldPhase.leaving a b w r d x y) =
    let asked = asked_of t.mgr c in
    let one : 0 < t.checking old = omega arith in
    record {
      to = record t {
        mgr = record (set_cp old (some (flushes_it c)) t.mgr) {
          calls = t.mgr.calls ++ map (λ z. flush_asked z old) asked;
        };
        checking = fewer old t.checking;
        flushes = add_flush old (some asked) t.flushes;
      };
      by_step = check old one (check_starts old t.mgr c e a);
      less = omega (
        arith,
        fewer_self old t.checking,
        ap flush_left y,
        asked-le (λ z. t.mgr.registered z && c.contexts z),
        ap (λ fs. flush_left (add_flush old (some asked) fs)) y,
      );
      cur_same = refl;
    }
goes {t} old c sb e (OldPhase.flushing [] a w r d x y) =
    let (m, q, cur) = seal-some old t.mgr c e in
    record {
      to = record t { mgr = m; flushes = at_stage old Stage.sealed ∷ [] };
      by_step = all_flushed [] [] old y q;
      less = omega (arith, ap flush_left y);
      cur_same = cur;
    }
goes {t} old c sb e (OldPhase.flushing (l ∷ ls) a w r d x y) = record {
  to = record t { flushes = at_stage old (Stage.waiting (erase l (l ∷ ls))) ∷ [] };
  by_step = Sys.flushed [] [] old (l ∷ ls) l y;
  less = omega (arith, ap flush_left y, erase_first l ls);
  cur_same = refl;
}
goes {t} old c sb e (OldPhase.done a w r d x y) =
    let (p, m, q, cur) = persist-some old t.mgr c old e sb in
    record {
      to = record t { mgr = m; flushes = at_stage old (Stage.persisted p) ∷ [] };
      by_step = persists [] [] old y q;
      less = omega (arith, ap flush_left y);
      cur_same = cur;
    }

-- A run on from `t` that ends the flush phase.
abbrev pub Ended : System → System → Type 0
Ended s t =
    (u : System) × Steps true s u
    × (u.mgr.in_flush_phase ≡ false)
    × (u.mgr.sb.sb ≡ some t.mgr.cur_cp)
    × (u.mgr.cur_cp ≡ t.mgr.cur_cp)

ends_last :
    {s t : System} (old promise : ℕ)
    → Steps true s t
    → t.held ≡ none
    → t.mgr.sb.sb ≡ some t.mgr.cur_cp
    → t.flushes ≡ at_stage old (Stage.persisted promise) ∷ []
    → Ended s t
unfolding finish
ends_last {s} {t} old promise r h sb y = (
  record t { mgr = (finish promise t.mgr).1; flushes = [] },
  then r (finishes [] [] old promise y h),
  refl,
  sb,
  refl,
)

-- The flush phase is over or ends with the next step, or there is a step that leaves less to do.
next_step :
    {s t : System} (old : ℕ)
    → Steps true s t
    → IsSafe t
    → t.mgr.cur_cp ≡ suc old
    → Ended s t ⊎ Goes old t
next_step {s} {t} old r v next = go v.phase
  where
    go : Phase t → Ended s t ⊎ Goes old t
    go (alone (idle x off z) sb others) = inl (t, r, off, sb, refl)
    go (alone (ending o p x y z) sb others) = inl (ends_last o p r x sb z)
    go (paired old' c next' f sb here o others) =
        let same_old : old' ≡ old = omega arith in
        inr (subst (λ x. Goes x t) same_old (goes old' c sb here o))

ends :
    (fuel old : ℕ) {s t : System}
    → Steps true s t
    → IsSafe t
    → t.mgr.cur_cp ≡ suc old
    → work old t < fuel
    → Ended s t
ends zero old r v next h = absurd (omega arith)
ends (suc fuel) old {s} {t} r v next h = elim (next_step old r v next) [
  | inl over ↦ over
  | inr g ↦
      (let (u, run, off, sb, cur) =
          ends fuel old (then r g.by_step) (Step-IsSafe g.by_step v) (g.cur_same ∙ next)
            (omega (arith, g.less)) in
        (u, run, off, sb ∙ ap some g.cur_same, cur ∙ g.cur_same))
]

-- From every state that such a run reaches, a run leads on to the end of the flush phase, after which the
-- superblock counts every CP before the one that is current then and now: no flush is lost.
pub Steps-end :
    (count : ℕ) (m : CpManager) {t : System}
    → IsBlank m
    → Steps true (at_rest (on_meta_blk_found count m)) t
    → Ended t t
Steps-end count m {t} b r = let v = Steps-IsSafe r (restarted-IsSafe count m b) in go v v.phase
  where
    go : IsSafe t → Phase t → Ended t t
    go v (alone (idle x off z) sb others) = (t, stop, off, sb, refl)
    go v (alone (ending o p x y z) sb others) = ends_last o p stop x sb z
    go v (paired old c next f sb here o others) =
        ends (suc (work old t)) old stop v next (omega arith)
