-- ===== src/Checkpoint/System/Safe/Leaving.antt =====
-- Leaving a CP keeps the manager safe, also where the flush starts.
use home_store.Prelude.{
  ℕ, ◌-◌, ◌<◌, ◌≡◌, ◌≢◌, inl, inr, refl, sym, ap, ◌∙◌, Bool, ◌==◌, Option, none, some, List, [],
  ◌∷◌, arith, subst, ℕ_discrete, ◌++◌, ◌&&◌, map,
}
use home_store.Checkpoint.{
  Status, Cp, CpManager, Consumer, Call, set_cp, cp_unref, check_prepared, keep, services,
  flush_asked,
}
use home_store.Checkpoint.System.{System, Stage, fewer, if_zero, add_flush}
use home_store.Checkpoint.System.Safe.{OldPhase, IsSafe, IsSafe-cur, fewer_ne, fewer_self}
use home_store.Checkpoint.System.Safe.Frame.{IsOld, used, at_cur, at_old, pair_eq, untouched}

abbrev pub left : Cp → Cp
left c = record c { enter_cnt = c.enter_cnt - 1 }

pub cp_unref-eq :
    (id : ℕ) (m : CpManager) (c : Cp)
    → m.cps id ≡ some c
    → cp_unref id m ≡ some (c.enter_cnt - 1 == 0, set_cp id (some (left c)) m)
unfolding cp_unref
cp_unref-eq id m c e = ground arith

if_zero_ne : (z : Bool) (id : ℕ) (f : ℕ → ℕ) (i : ℕ) → i ≢ id → if_zero z id f i ≡ f i
if_zero_ne z id f i h = ground arith

pub leave-IsSafe :
    {s : System}
    → IsSafe s
    → (id : ℕ) {zeroed : Bool} {m : CpManager} → 0 < s.guards id
    → cp_unref id s.mgr ≡ some (zeroed, m)
    → IsSafe
        (record s { mgr = m; guards = fewer id s.guards; checking = if_zero zeroed id s.checking })
leave-IsSafe {s} v id {zeroed} {m} h e = elim (used v id (omega arith)) [
  | inl at ↦
      let here : s.mgr.cps id ≡ some v.cur = ap s.mgr.cps at ∙ v.here in
      let is : m ≡ set_cp id (some (left v.cur)) s.mgr =
        (pair_eq (sym e ∙ cp_unref-eq id s.mgr v.cur here)).1 in
      let count : v.cur.enter_cnt - 1 ≡ fewer id s.guards id =
        ap (λ n. n - 1) (v.counted ∙ ap s.guards (sym at)) ∙ sym (fewer_self id s.guards) in
      subst
        (λ x. IsSafe (record s {
          mgr = x;
          guards = fewer id s.guards;
          checking = if_zero zeroed id s.checking;
        }))
        (sym is)
        (at_cur v id (left v.cur) (fewer id s.guards) s.readers (if_zero zeroed id s.checking) at
          v.ready count (fewer_ne id s.guards) (λ i h. refl) (if_zero_ne zeroed id s.checking))
  | inr o ↦
      let eq = sym e ∙ cp_unref-eq id s.mgr o.cp o.here in
      let is : m ≡ set_cp id (some (left o.cp)) s.mgr = (pair_eq eq).1 in
      let zero_test : zeroed ≡ (o.cp.enter_cnt - 1 == 0) = (pair_eq eq).0 in
      subst
        (λ x. IsSafe (record s {
          mgr = x;
          guards = fewer id s.guards;
          checking = if_zero zeroed id s.checking;
        }))
        (sym is)
        (at_old v id o (left o.cp) (fewer id s.guards) s.readers (if_zero zeroed id s.checking)
          s.flushes (fewer_ne id s.guards) (λ i h. refl) (if_zero_ne zeroed id s.checking)
          (go o zero_test o.old_phase))
]
  where
    go :
        (o : IsOld s id)
        → zeroed ≡ (o.cp.enter_cnt - 1 == 0)
        → OldPhase id o.cp (s.guards id) (s.readers id) (s.checking id) s.held s.flushes
        → OldPhase id
            (left o.cp)
            (fewer id s.guards id)
            (s.readers id)
            (if_zero zeroed id s.checking id)
            s.held
            s.flushes
    go o z (OldPhase.switching a b d x y) = OldPhase.switching a (ground arith) (ground arith) x y
    go o z (OldPhase.prepared a b x d y e f) = elim (ℕ_discrete (s.guards id) 1) [
      | yes one ↦ OldPhase.leaving a (ground arith) (ground arith) d (ground arith) e f
      | no many ↦
          OldPhase.prepared a (ground arith) (omega (arith, fewer_self id s.guards)) d
            (ground arith) e f
    ]
    go o z (OldPhase.leaving a b x d y e f) = absurd (omega arith)
    go o z (OldPhase.flushing l a x d y e f) = absurd (omega arith)
    go o z (OldPhase.done a x d y e f) = absurd (omega arith)

abbrev pub flushes_it : Cp → Cp
flushes_it c = record c { status = Status.flushing }

check_open :
    (id : ℕ) (m : CpManager) (c : Cp)
    → m.cps id ≡ some c
    → c.status ≡ Status.io_ready
    → check_prepared id m ≡ some (none, m)
unfolding check_prepared
check_open id m c e st = ground arith

abbrev pub asked_of : CpManager → Cp → List Consumer
asked_of m c = keep (λ x. m.registered x && c.contexts x) services

pub check_starts :
    (id : ℕ) (m : CpManager) (c : Cp)
    → m.cps id ≡ some c
    → c.status ≡ Status.flush_prepare
    → check_prepared id m
      ≡ some (
        some (asked_of m c),
        record (set_cp id (some (flushes_it c)) m) {
          calls = m.calls ++ map (λ x. flush_asked x id) (asked_of m c);
        },
      )
unfolding check_prepared
check_starts id m c e st = ground arith

-- The calls that consumers got have no part in safety.
pub calls-IsSafe :
    {s : System} (calls : List Call)
    → IsSafe s
    → IsSafe (record s { mgr = record s.mgr { calls = calls } })
calls-IsSafe {s} calls v =
    IsSafe-cur v v.cur (untouched refl refl refl (λ i. refl) s.held s.flushes) refl refl v.here
      v.ready v.counted

pub check-IsSafe :
    {s : System}
    → IsSafe s
    → (id : ℕ) {started : Option (List Consumer)} {m : CpManager} → 0 < s.checking id
    → check_prepared id s.mgr ≡ some (started, m)
    → IsSafe (record s {
      mgr = m;
      checking = fewer id s.checking;
      flushes = add_flush id started s.flushes;
    })
check-IsSafe {s} v id {started} {m} h e = elim (used v id (omega arith)) [
  | inl at ↦
      let here : s.mgr.cps id ≡ some v.cur = ap s.mgr.cps at ∙ v.here in
      let (nothing, is) = pair_eq (sym e ∙ check_open id s.mgr v.cur here v.ready) in
      subst
        (λ x. IsSafe (record s {
          mgr = x;
          checking = fewer id s.checking;
          flushes = add_flush id started s.flushes;
        }))
        (sym is)
        (subst
          (λ x.
            IsSafe
              (record s { checking = fewer id s.checking; flushes = add_flush id x s.flushes }))
          (sym nothing)
          (IsSafe-cur v v.cur
            (record {
              cur_same = refl;
              phase_same = refl;
              sb_same = refl;
              cps_same = λ i ne. refl;
              guards_same = λ i ne. refl;
              readers_same = λ i ne. refl;
              checking_same = λ i ne. fewer_ne id s.checking i (λ e'. ne (e' ∙ at));
            })
            refl refl v.here v.ready v.counted))
  | inr o ↦ go o o.old_phase
]
  where
    go :
        (o : IsOld s id)
        → OldPhase id o.cp (s.guards id) (s.readers id) (s.checking id) s.held s.flushes
        → IsSafe (record s {
          mgr = m;
          checking = fewer id s.checking;
          flushes = add_flush id started s.flushes;
        })
    go o (OldPhase.switching a b d x y) = absurd (omega arith)
    go o (OldPhase.prepared a b x d y g f) = absurd (omega arith)
    go o (OldPhase.leaving a b x d y g f) =
        let (asked, is) = pair_eq (sym e ∙ check_starts id s.mgr o.cp o.here a) in
        let one : fewer id s.checking id ≡ 0 = omega (arith, fewer_self id s.checking) in
        let calls = s.mgr.calls ++ map (λ x. flush_asked x id) (asked_of s.mgr o.cp) in
        let fs = (record { cp = id; stage = Stage.waiting (asked_of s.mgr o.cp) }) ∷ [] in
        let started_one : add_flush id started s.flushes ≡ fs =
          ap (λ z. add_flush id z s.flushes) asked ∙ ap (λ z. z ++ fs) f in
        subst
          (λ z. IsSafe (record s {
            mgr = z;
            checking = fewer id s.checking;
            flushes = add_flush id started s.flushes;
          }))
          (sym is)
          (subst
            (λ z. IsSafe (record s {
              mgr = record (set_cp id (some (flushes_it o.cp)) s.mgr) { calls = calls };
              checking = fewer id s.checking;
              flushes = z;
            }))
            (sym started_one)
            (calls-IsSafe calls (
              at_old v id o (flushes_it o.cp) s.guards s.readers (fewer id s.checking) fs
                (λ i ne. refl) (λ i ne. refl) (fewer_ne id s.checking)
                (OldPhase.flushing (asked_of s.mgr o.cp) refl x d one g refl))))
    go o (OldPhase.flushing l a x d y g f) = absurd (omega arith)
    go o (OldPhase.done a x d y g f) = absurd (omega arith)
