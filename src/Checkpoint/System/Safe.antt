-- ===== src/Checkpoint/System/Safe.antt =====
-- What holds in every run of the checkpoint manager: its phases, and what a step may change in them.
pub mod Frame
pub mod Users
pub mod Leaving
pub mod Triggered
pub mod Flushes
pub mod Ends
pub mod Runs
pub mod Progress
use home_store.Prelude.{
  ℕ, zero, suc, ◌+◌, ◌-◌, ◌<◌, ◌≡◌, ◌≢◌, ◌⊎◌, inl, inr, refl, sym, ap, ◌∙◌, Bool, true, false, ◌==◌,
  if◌then◌else◌, Option, none, some, List, [], ◌∷◌, arith, subst, ℕ_discrete,
}
use home_store.Checkpoint.{Status, Cp, CpManager, set_cp, Consumer}
use home_store.Checkpoint.System.{System, Flush, Stage, more, fewer}

-- The CP that is switched over from: its status and count, its guards, readers and checks, the CP that
-- the trigger holds, and the flushes.
pub data OldPhase (old : ℕ) (c : Cp) (g r k : ℕ) (held : Option ℕ) (fs : List Flush) : Type 0 where
  switching :
      c.status ≡ Status.flush_prepare
      → c.enter_cnt ≡ g + 1
      → k ≡ 0
      → held ≡ some old
      → fs ≡ []
      → OldPhase old c g r k held fs
  prepared :
      c.status ≡ Status.flush_prepare
      → c.enter_cnt ≡ g
      → 0 < g
      → r ≡ 0
      → k ≡ 0
      → held ≡ none
      → fs ≡ []
      → OldPhase old c g r k held fs
  leaving :
      c.status ≡ Status.flush_prepare
      → c.enter_cnt ≡ 0
      → g ≡ 0
      → r ≡ 0
      → k ≡ 1
      → held ≡ none
      → fs ≡ []
      → OldPhase old c g r k held fs
  flushing :
      (left : List Consumer)
      → c.status ≡ Status.flushing
      → g ≡ 0
      → r ≡ 0
      → k ≡ 0
      → held ≡ none
      → fs ≡ (record { cp = old; stage = Stage.waiting left }) ∷ []
      → OldPhase old c g r k held fs
  done :
      c.status ≡ Status.flush_done
      → g ≡ 0
      → r ≡ 0
      → k ≡ 0
      → held ≡ none
      → fs ≡ (record { cp = old; stage = Stage.sealed }) ∷ []
      → OldPhase old c g r k held fs

-- Nobody uses the CP of this number, and it is not in memory.
pub record IsUnused (s : System) (i : ℕ) : Type 0 where
  pub gone : s.mgr.cps i ≡ none
  pub no_guard : s.guards i ≡ 0
  pub no_reader : s.readers i ≡ 0
  pub no_check : s.checking i ≡ 0

-- Without a flush phase, or at its end.
pub data Tail (held : Option ℕ) (in_flush : Bool) (fs : List Flush) : Type 0 where
  idle : held ≡ none → in_flush ≡ false → fs ≡ [] → Tail held in_flush fs
  ending :
      (old promise : ℕ)
      → held ≡ none
      → in_flush ≡ true
      → fs ≡ (record { cp = old; stage = Stage.persisted promise }) ∷ []
      → Tail held in_flush fs

pub data Phase (s : System) : Type 0 where
  alone :
      Tail s.held s.mgr.in_flush_phase s.flushes
      → s.mgr.sb.sb ≡ some s.mgr.cur_cp
      → ((i : ℕ) → i ≢ s.mgr.cur_cp → IsUnused s i)
      → Phase s
  paired :
      (old : ℕ) (c : Cp)
      → s.mgr.cur_cp ≡ suc old
      → s.mgr.in_flush_phase ≡ true
      → s.mgr.sb.sb ≡ some old
      → s.mgr.cps old ≡ some c
      → OldPhase old c (s.guards old) (s.readers old) (s.checking old) s.held s.flushes
      → ((i : ℕ) → i ≢ s.mgr.cur_cp → i ≢ old → IsUnused s i)
      → Phase s

pub record IsSafe (s : System) : Type 0 where
  pub cur : Cp
  pub here : s.mgr.cps s.mgr.cur_cp ≡ some cur
  pub ready : cur.status ≡ Status.io_ready
  pub counted : cur.enter_cnt ≡ s.guards s.mgr.cur_cp
  pub phase : Phase s

-- The second system is the first one but for the CP of one number.
pub record IsSameBut (p : ℕ) (s t : System) : Type 0 where
  pub cur_same : t.mgr.cur_cp ≡ s.mgr.cur_cp
  pub phase_same : t.mgr.in_flush_phase ≡ s.mgr.in_flush_phase
  pub sb_same : t.mgr.sb.sb ≡ s.mgr.sb.sb
  pub cps_same : (i : ℕ) → i ≢ p → t.mgr.cps i ≡ s.mgr.cps i
  pub guards_same : (i : ℕ) → i ≢ p → t.guards i ≡ s.guards i
  pub readers_same : (i : ℕ) → i ≢ p → t.readers i ≡ s.readers i
  pub checking_same : (i : ℕ) → i ≢ p → t.checking i ≡ s.checking i

pub set_cp_self : (id : ℕ) (c : Option Cp) (m : CpManager) → (set_cp id c m).cps id ≡ c
set_cp_self id c m = ground arith

pub set_cp_ne :
    (id : ℕ) (c : Option Cp) (m : CpManager) (i : ℕ) → i ≢ id → (set_cp id c m).cps i ≡ m.cps i
set_cp_ne id c m i h = ground arith

pub more_ne : (id : ℕ) (f : ℕ → ℕ) (i : ℕ) → i ≢ id → more id f i ≡ f i
more_ne id f i h = ground arith

pub fewer_ne : (id : ℕ) (f : ℕ → ℕ) (i : ℕ) → i ≢ id → fewer id f i ≡ f i
fewer_ne id f i h = ground arith

pub more_self : (id : ℕ) (f : ℕ → ℕ) → more id f id ≡ f id + 1
more_self id f = ground arith

pub fewer_self : (id : ℕ) (f : ℕ → ℕ) → fewer id f id ≡ f id - 1
fewer_self id f = ground arith

IsUnused-same :
    {p : ℕ} {s t : System} (i : ℕ) → i ≢ p → IsSameBut p s t → IsUnused s i → IsUnused t i
IsUnused-same i h b u = record {
  gone = b.cps_same i h ∙ u.gone;
  no_guard = b.guards_same i h ∙ u.no_guard;
  no_reader = b.readers_same i h ∙ u.no_reader;
  no_check = b.checking_same i h ∙ u.no_check;
}

OldPhase-same :
    {old : ℕ} {c : Cp} {g r k g' r' k' : ℕ} {h h' : Option ℕ} {fs fs' : List Flush}
    → g' ≡ g
    → r' ≡ r
    → k' ≡ k
    → h' ≡ h
    → fs' ≡ fs
    → OldPhase old c g r k h fs
    → OldPhase old c g' r' k' h' fs'
OldPhase-same eg er ek eh ef (switching a b d e f) =
    switching a (omega arith) (omega arith) (eh ∙ e) (ef ∙ f)
OldPhase-same eg er ek eh ef (prepared a b x d y e f) =
    prepared a (omega arith) (omega arith) (omega arith) (omega arith) (eh ∙ e) (ef ∙ f)
OldPhase-same eg er ek eh ef (leaving a b x d y e f) =
    leaving a b (omega arith) (omega arith) (omega arith) (eh ∙ e) (ef ∙ f)
OldPhase-same eg er ek eh ef (flushing l a x d y e f) =
    flushing l a (omega arith) (omega arith) (omega arith) (eh ∙ e) (ef ∙ f)
OldPhase-same eg er ek eh ef (done a x d y e f) =
    done a (omega arith) (omega arith) (omega arith) (eh ∙ e) (ef ∙ f)

Tail-same :
    {h h' : Option ℕ} {b b' : Bool} {fs fs' : List Flush}
    → h' ≡ h
    → b' ≡ b
    → fs' ≡ fs
    → Tail h b fs
    → Tail h' b' fs'
Tail-same eh eb ef (idle x y z) = idle (eh ∙ x) (eb ∙ y) (ef ∙ z)
Tail-same eh eb ef (ending o p x y z) = ending o p (eh ∙ x) (eb ∙ y) (ef ∙ z)

-- A step that touches only the current CP, and leaves it open for entry with its count right.
pub IsSafe-cur :
    {s t : System} (v : IsSafe s) (c : Cp)
    → IsSameBut s.mgr.cur_cp s t
    → t.held ≡ s.held
    → t.flushes ≡ s.flushes
    → t.mgr.cps s.mgr.cur_cp ≡ some c
    → c.status ≡ Status.io_ready
    → c.enter_cnt ≡ t.guards s.mgr.cur_cp
    → IsSafe t
IsSafe-cur {s} {t} v c b eh ef e st n = record {
  cur = c;
  here = ap t.mgr.cps b.cur_same ∙ e;
  ready = st;
  counted = n ∙ ap t.guards (sym b.cur_same);
  phase = go v.phase;
}
  where
    go : Phase s → Phase t
    go (alone tail sb others) =
        alone (Tail-same eh b.phase_same ef tail) (b.sb_same ∙ sb ∙ ap some (sym b.cur_same)) λ i h.
          IsUnused-same i (λ e'. h (e' ∙ sym b.cur_same)) b
            (others i (λ e'. h (e' ∙ sym b.cur_same)))
    go (paired old c' next f sb at o others) =
        let ne : old ≢ s.mgr.cur_cp = λ e'. absurd (omega arith) in
        paired old c' (b.cur_same ∙ next) (b.phase_same ∙ f) (b.sb_same ∙ sb)
          (b.cps_same old ne ∙ at)
          (OldPhase-same (b.guards_same old ne) (b.readers_same old ne) (b.checking_same old ne) eh
            ef o)
          λ i h h'.
            IsUnused-same i (λ e'. h (e' ∙ sym b.cur_same)) b
              (others i (λ e'. h (e' ∙ sym b.cur_same)) h')

-- A step that touches only the CP that is switched over from.
pub IsSafe-old :
    {s t : System} (v : IsSafe s) (old : ℕ) (c : Cp)
    → s.mgr.cur_cp ≡ suc old
    → s.mgr.in_flush_phase ≡ true
    → s.mgr.sb.sb ≡ some old
    → ((i : ℕ) → i ≢ s.mgr.cur_cp → i ≢ old → IsUnused s i)
    → IsSameBut old s t
    → t.mgr.cps old ≡ some c
    → OldPhase old c (t.guards old) (t.readers old) (t.checking old) t.held t.flushes
    → IsSafe t
IsSafe-old {s} {t} v old c next f sb others b e o =
    let ne : s.mgr.cur_cp ≢ old = λ e'. absurd (omega arith) in
    record {
      cur = v.cur;
      here = ap t.mgr.cps b.cur_same ∙ b.cps_same s.mgr.cur_cp ne ∙ v.here;
      ready = v.ready;
      counted = v.counted ∙ sym (b.guards_same s.mgr.cur_cp ne) ∙ ap t.guards (sym b.cur_same);
      phase =
          paired old c (b.cur_same ∙ next) (b.phase_same ∙ f) (b.sb_same ∙ sb) e o
            λ i h h'. IsUnused-same i h' b (others i (λ e'. h (e' ∙ sym b.cur_same)) h');
    }
