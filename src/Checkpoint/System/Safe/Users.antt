-- ===== src/Checkpoint/System/Safe/Users.antt =====
-- Entering a CP keeps the manager safe.
use home_store.Prelude.{ℕ, ◌+◌, ◌<◌, ◌≡◌, ◌≢◌, inl, inr, refl, sym, ap, ◌∙◌, some, arith, subst}
use home_store.Checkpoint.{Cp, CpManager, set_cp, cp_ref}
use home_store.Checkpoint.System.{System, more, fewer}
use home_store.Checkpoint.System.Safe.{
  OldPhase, IsSafe, IsSafe-cur, more_ne, fewer_ne, more_self, fewer_self,
}
use home_store.Checkpoint.System.Safe.Frame.{IsOld, used, at_cur, at_old, some_eq}

pub read-IsSafe :
    {s : System} → IsSafe s → IsSafe (record s { readers = more s.mgr.cur_cp s.readers })
read-IsSafe {s} v =
    IsSafe-cur v v.cur
      (record {
        cur_same = refl;
        phase_same = refl;
        sb_same = refl;
        cps_same = λ i h. refl;
        guards_same = λ i h. refl;
        readers_same = more_ne s.mgr.cur_cp s.readers;
        checking_same = λ i h. refl;
      })
      refl refl v.here v.ready v.counted

abbrev pub entered : Cp → Cp
entered c = record c { enter_cnt = c.enter_cnt + 1 }

pub cp_ref-eq :
    (id : ℕ) (m : CpManager) (c : Cp)
    → m.cps id ≡ some c
    → cp_ref id m ≡ some (set_cp id (some (entered c)) m)
unfolding cp_ref
cp_ref-eq id m c e = ground arith

-- A CP that somebody uses and that is not flushed yet may be entered.
ref-IsSafe :
    {s : System} (v : IsSafe s) (id : ℕ) {m : CpManager} (r : ℕ → ℕ)
    → 0 < s.guards id + s.readers id + s.checking id
    → 0 < s.guards id + s.readers id
    → cp_ref id s.mgr ≡ some m
    → ((i : ℕ) → i ≢ id → r i ≡ s.readers i)
    → (s.readers id ≡ 0 → r id ≡ 0)
    → IsSafe (record s { mgr = m; guards = more id s.guards; readers = r })
ref-IsSafe {s} v id {m} r h h' e er less = elim (used v id h) [
  | inl at ↦
      let here : s.mgr.cps id ≡ some v.cur = ap s.mgr.cps at ∙ v.here in
      let is : m ≡ set_cp id (some (entered v.cur)) s.mgr =
        some_eq (sym e ∙ cp_ref-eq id s.mgr v.cur here) in
      let count : v.cur.enter_cnt + 1 ≡ more id s.guards id =
        ap (λ n. n + 1) (v.counted ∙ ap s.guards (sym at)) ∙ sym (more_self id s.guards) in
      subst (λ x. IsSafe (record s { mgr = x; guards = more id s.guards; readers = r })) (sym is)
        (at_cur v id (entered v.cur) (more id s.guards) r s.checking at v.ready count
          (more_ne id s.guards) er (λ i h. refl))
  | inr o ↦
      let is : m ≡ set_cp id (some (entered o.cp)) s.mgr =
        some_eq (sym e ∙ cp_ref-eq id s.mgr o.cp o.here) in
      subst (λ x. IsSafe (record s { mgr = x; guards = more id s.guards; readers = r })) (sym is)
        (at_old v id o (entered o.cp) (more id s.guards) r s.checking s.flushes
          (more_ne id s.guards) er (λ i h. refl) (go o o.old_phase))
]
  where
    go :
        (o : IsOld s id)
        → OldPhase id o.cp (s.guards id) (s.readers id) (s.checking id) s.held s.flushes
        → OldPhase id (entered o.cp) (more id s.guards id) (r id) (s.checking id) s.held s.flushes
    go o (OldPhase.switching a b d x y) =
        OldPhase.switching a (ap (λ n. n + 1) b ∙ ap (λ n. n + 1) (sym (more_self id s.guards))) d x
          y
    go o (OldPhase.prepared a b x d y e f) =
        OldPhase.prepared a (ap (λ n. n + 1) b ∙ sym (more_self id s.guards))
          (omega (arith, more_self id s.guards)) (less d) y e f
    go o (OldPhase.leaving a b x d y e f) = absurd (omega arith)
    go o (OldPhase.flushing l a x d y e f) = absurd (omega arith)
    go o (OldPhase.done a x d y e f) = absurd (omega arith)

pub enter-IsSafe :
    {s : System}
    → IsSafe s
    → (id : ℕ) {m : CpManager} → 0 < s.readers id
    → cp_ref id s.mgr ≡ some m
    → IsSafe (record s { mgr = m; readers = fewer id s.readers; guards = more id s.guards })
enter-IsSafe {s} v id h e =
    ref-IsSafe v id (fewer id s.readers) (omega arith) (omega arith) e (fewer_ne id s.readers)
      λ z. omega (arith, fewer_self id s.readers)

pub nest-IsSafe :
    {s : System}
    → IsSafe s
    → (id : ℕ) {m : CpManager} → 0 < s.guards id
    → cp_ref id s.mgr ≡ some m
    → IsSafe (record s { mgr = m; guards = more id s.guards })
nest-IsSafe {s} v id h e =
    ref-IsSafe v id s.readers (omega arith) (omega arith) e (λ i ne. refl) (λ z. z)
