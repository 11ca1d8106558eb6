-- ===== src/Checkpoint/System/Safe/Frame.antt =====
-- Who uses a CP, and what a step on one CP may do.
use home_store.Prelude.{
  ℕ, suc, ◌+◌, ◌<◌, ◌≡◌, ◌≢◌, ◌⊎◌, inl, inr, refl, sym, ap, ◌∙◌, true, Option, some, List, arith,
  subst, ℕ_discrete,
}
use home_store.Checkpoint.{Status, Cp, CpManager, set_cp}
use home_store.Checkpoint.System.{System, Flush}
use home_store.Checkpoint.System.Safe.{
  OldPhase, IsUnused, Phase, alone, paired, IsSafe, IsSameBut, IsSafe-cur, IsSafe-old, set_cp_self,
  set_cp_ne,
}

-- The CP that is switched over from, with what holds of it.
pub record IsOld (s : System) (old : ℕ) : Type 0 where
  pub cp : Cp
  pub next : s.mgr.cur_cp ≡ suc old
  pub in_flush : s.mgr.in_flush_phase ≡ true
  pub sb : s.mgr.sb.sb ≡ some old
  pub here : s.mgr.cps old ≡ some cp
  pub old_phase : OldPhase old cp (s.guards old) (s.readers old) (s.checking old) s.held s.flushes
  pub others : (i : ℕ) → i ≢ s.mgr.cur_cp → i ≢ old → IsUnused s i

not_unused : {s : System} (i : ℕ) → 0 < s.guards i + s.readers i + s.checking i → IsUnused s i → ⊥
not_unused i h u = omega (arith, u.no_guard, u.no_reader, u.no_check)

-- A CP that somebody uses is the current one or the one that is switched over from.
pub used :
    {s : System} (v : IsSafe s) (id : ℕ)
    → 0 < s.guards id + s.readers id + s.checking id
    → (id ≡ s.mgr.cur_cp) ⊎ IsOld s id
used {s} v id h = elim (ℕ_discrete id s.mgr.cur_cp) [ yes e ↦ inl e | no ne ↦ inr (go v.phase ne) ]
  where
    go : Phase s → id ≢ s.mgr.cur_cp → IsOld s id
    go (alone tail sb others) ne = absurd (not_unused id h (others id ne))
    go (paired old c next f sb at o others) ne = elim (ℕ_discrete id old) [
      | yes e ↦ subst (IsOld s) (sym e) (record {
        cp = c;
        next = next;
        in_flush = f;
        sb = sb;
        here = at;
        old_phase = o;
        others = others;
      })
      | no ne' ↦ absurd (not_unused id h (others id ne ne'))
    ]

-- A step on one CP.
touched :
    (s : System) (id : ℕ) (c : Cp) (g r k : ℕ → ℕ) (fs : List Flush)
    → ((i : ℕ) → i ≢ id → g i ≡ s.guards i)
    → ((i : ℕ) → i ≢ id → r i ≡ s.readers i)
    → ((i : ℕ) → i ≢ id → k i ≡ s.checking i)
    → IsSameBut id s (record s {
      mgr = set_cp id (some c) s.mgr;
      guards = g;
      readers = r;
      checking = k;
      flushes = fs;
    })
touched s id c g r k fs eg er ek = record {
  cur_same = refl;
  phase_same = refl;
  sb_same = refl;
  cps_same = set_cp_ne id (some c) s.mgr;
  guards_same = eg;
  readers_same = er;
  checking_same = ek;
}

-- A step on the current CP.
pub at_cur :
    {s : System} (v : IsSafe s) (id : ℕ) (c : Cp) (g r k : ℕ → ℕ)
    → id ≡ s.mgr.cur_cp
    → c.status ≡ Status.io_ready
    → c.enter_cnt ≡ g id
    → ((i : ℕ) → i ≢ id → g i ≡ s.guards i)
    → ((i : ℕ) → i ≢ id → r i ≡ s.readers i)
    → ((i : ℕ) → i ≢ id → k i ≡ s.checking i)
    → IsSafe (record s { mgr = set_cp id (some c) s.mgr; guards = g; readers = r; checking = k })
at_cur {s} v id c g r k e st n eg er ek =
    IsSafe-cur v c
      (subst
        (λ i.
          IsSameBut i s
            (record s { mgr = set_cp id (some c) s.mgr; guards = g; readers = r; checking = k }))
        e (touched s id c g r k s.flushes eg er ek))
      refl refl (ap (set_cp id (some c) s.mgr).cps (sym e) ∙ set_cp_self id (some c) s.mgr) st
      (n ∙ ap g e)

-- A step on the CP that is switched over from.
pub at_old :
    {s : System} (v : IsSafe s) (id : ℕ) (o : IsOld s id) (c : Cp) (g r k : ℕ → ℕ) (fs : List Flush)
    → ((i : ℕ) → i ≢ id → g i ≡ s.guards i)
    → ((i : ℕ) → i ≢ id → r i ≡ s.readers i)
    → ((i : ℕ) → i ≢ id → k i ≡ s.checking i)
    → OldPhase id c (g id) (r id) (k id) s.held fs
    → IsSafe (record s {
      mgr = set_cp id (some c) s.mgr;
      guards = g;
      readers = r;
      checking = k;
      flushes = fs;
    })
at_old {s} v id o c g r k fs eg er ek ph =
    IsSafe-old v id c o.next o.in_flush o.sb o.others (touched s id c g r k fs eg er ek)
      (set_cp_self id (some c) s.mgr) ph

pub some_eq {ℓ} : {A : Type ℓ} {x y : A} → some x ≡ some y → x ≡ y
some_eq h = cc

pub pair_eq {ℓ κ} :
    {A : Type ℓ} {B : Type κ} {a a' : A} {b b' : B}
    → ◌≡◌ {A = Option (A × B)} (some (a, b)) (some (a', b'))
    → (a ≡ a') × (b ≡ b')
pair_eq h = (cc, cc)

-- The same CPs and users.
pub untouched :
    {s : System} {p : ℕ} {m : CpManager}
    → m.cur_cp ≡ s.mgr.cur_cp
    → m.in_flush_phase ≡ s.mgr.in_flush_phase
    → m.sb.sb ≡ s.mgr.sb.sb
    → ((i : ℕ) → m.cps i ≡ s.mgr.cps i)
    → (held : Option ℕ) (fs : List Flush)
    → IsSameBut p s (record s { mgr = m; held = held; flushes = fs })
untouched a b c d held fs = record {
  cur_same = a;
  phase_same = b;
  sb_same = c;
  cps_same = λ i ne. d i;
  guards_same = λ i ne. refl;
  readers_same = λ i ne. refl;
  checking_same = λ i ne. refl;
}
