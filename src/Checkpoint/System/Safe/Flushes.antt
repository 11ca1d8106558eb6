-- ===== src/Checkpoint/System/Safe/Flushes.antt =====
-- Flushing keeps the manager safe.
use home_store.Prelude.{
  ℕ, ◌≡◌, ◌≢◌, refl, sym, ap, ◌∙◌, if◌then◌else◌, none, some, List, [], ◌∷◌, arith, subst, ◌++◌,
  ◌&&◌,
}
use home_store.Checkpoint.{sealer, flush_asked, Status, Cp, CpManager, Consumer, Call, set_cp, seal}
use home_store.Checkpoint.System.{System, Flush, Stage, erase}
use home_store.Checkpoint.System.Safe.{
  OldPhase, Phase, alone, paired, idle, ending, IsSafe, IsSafe-old,
}
use home_store.Checkpoint.System.Safe.Frame.{IsOld, at_old, untouched}
use home_store.Checkpoint.System.Safe.Leaving.{calls-IsSafe}

pub no_flush {ℓ} : {A : Type ℓ} (xs ys : List A) (y : A) → xs ++ y ∷ ys ≡ [] → ⊥
no_flush [] ys y h = cc
no_flush (x ∷ xs) ys y h = cc

pub one_flush {ℓ} :
    {A : Type ℓ} (xs ys : List A) (x y : A)
    → xs ++ x ∷ ys ≡ y ∷ []
    → (xs ≡ []) × (x ≡ y) × (ys ≡ [])
one_flush [] ys x y h = (refl, cc, cc)
one_flush (z ∷ xs) ys x y h = absurd (no_flush xs ys x (cc))

pub only {ℓ} : {A : Type ℓ} (xs ys : List A) (x : A) → xs ≡ [] → ys ≡ [] → xs ++ x ∷ ys ≡ x ∷ []
only xs ys x p q = ap (λ l. l ++ x ∷ ys) p ∙ ap (λ l. x ∷ l) q

abbrev pub at_stage : ℕ → Stage → Flush
at_stage id st = record { cp = id; stage = st }

-- What is known when a flush of a CP that is not yet persisted goes on.
pub found :
    {s : System} (v : IsSafe s) (before after : List Flush) (id : ℕ) (st : Stage)
    → s.flushes ≡ before ++ at_stage id st ∷ after
    → ((promise : ℕ) → st ≢ Stage.persisted promise)
    → IsOld s id × (before ≡ []) × (after ≡ [])
found {s} v before after id st e early = go v.phase
  where
    single :
        (old : ℕ) (st' : Stage)
        → s.flushes ≡ at_stage old st' ∷ []
        → (before ≡ []) × (id ≡ old) × (st ≡ st') × (after ≡ [])
    single old st' f =
        let (b, x, a) = one_flush before after (at_stage id st) (at_stage old st') (sym e ∙ f) in
        (b, ap (λ z. z.cp) x, ap (λ z. z.stage) x, a)

    old_at : (old : ℕ) → IsOld s old → (id ≡ old) → IsOld s id
    old_at old o q = subst (IsOld s) (sym q) o

    go : Phase s → IsOld s id × (before ≡ []) × (after ≡ [])
    go (alone (idle x y z) sb others) = absurd (no_flush before after (at_stage id st) (sym e ∙ z))
    go (alone (ending old p x y z) sb others) =
        let (b, i, q, a) = single old (Stage.persisted p) z in absurd (early p q)
    go (paired old c next f sb here (OldPhase.switching a b d x y) others) =
        absurd (no_flush before after (at_stage id st) (sym e ∙ y))
    go (paired old c next f sb here (OldPhase.prepared a b w r d x y) others) =
        absurd (no_flush before after (at_stage id st) (sym e ∙ y))
    go (paired old c next f sb here (OldPhase.leaving a b w r d x y) others) =
        absurd (no_flush before after (at_stage id st) (sym e ∙ y))
    go (paired old c next f sb here (OldPhase.flushing l a w r d x y) others) =
        let (b, i, q, a') = single old (Stage.waiting l) y in
        (
          old_at old
              (record {
                cp = c;
                next = next;
                in_flush = f;
                sb = sb;
                here = here;
                old_phase = OldPhase.flushing l a w r d x y;
                others = others;
              })
              i,
          b,
          a',
        )
    go (paired old c next f sb here (OldPhase.done a w r d x y) others) =
        let (b, i, q, a') = single old Stage.sealed y in
        (
          old_at old
              (record {
                cp = c;
                next = next;
                in_flush = f;
                sb = sb;
                here = here;
                old_phase = OldPhase.done a w r d x y;
                others = others;
              })
              i,
          b,
          a',
        )

-- A CP with a flush under way is not used.
pub record IsQuiet (s : System) (id : ℕ) : Type 0 where
  pub no_guard : s.guards id ≡ 0
  pub no_reader : s.readers id ≡ 0
  pub no_check : s.checking id ≡ 0
  pub free : s.held ≡ none

pub is_quiet :
    {s : System} (id : ℕ) (o : IsOld s id) (x : Flush) → s.flushes ≡ x ∷ [] → IsQuiet s id
is_quiet {s} id o x e = go o.old_phase
  where
    go :
        OldPhase id o.cp (s.guards id) (s.readers id) (s.checking id) s.held s.flushes
        → IsQuiet s id
    go (OldPhase.switching a b d h y) = absurd (cc)
    go (OldPhase.prepared a b w r d h y) = absurd (cc)
    go (OldPhase.leaving a b w r d h y) = absurd (cc)
    go (OldPhase.flushing l a w r d h y) = record {
      no_guard = w;
      no_reader = r;
      no_check = d;
      free = h;
    }
    go (OldPhase.done a w r d h y) = record { no_guard = w; no_reader = r; no_check = d; free = h }

waiting_status :
    {s : System} (id : ℕ) (o : IsOld s id) (left : List Consumer)
    → s.flushes ≡ at_stage id (Stage.waiting left) ∷ []
    → o.cp.status ≡ Status.flushing
waiting_status {s} id o left e = go o.old_phase
  where
    go :
        OldPhase id o.cp (s.guards id) (s.readers id) (s.checking id) s.held s.flushes
        → o.cp.status ≡ Status.flushing
    go (OldPhase.switching a b d h y) = absurd (cc)
    go (OldPhase.prepared a b w r d h y) = absurd (cc)
    go (OldPhase.leaving a b w r d h y) = absurd (cc)
    go (OldPhase.flushing l a w r d h y) = a
    go (OldPhase.done a w r d h y) = absurd (cc)

pub flushed-IsSafe :
    {s : System}
    → IsSafe s
    → (before after : List Flush) (id : ℕ) (left : List Consumer) (c : Consumer)
    → s.flushes ≡ before ++ (record { cp = id; stage = Stage.waiting left }) ∷ after
    → IsSafe (record s {
      flushes = before ++ (record { cp = id; stage = Stage.waiting (erase c left) }) ∷ after;
    })
flushed-IsSafe {s} v before after id left c e =
    let (o, b, a) = found v before after id (Stage.waiting left) e (λ p. λ q. cc) in
    let one = e ∙ only before after (at_stage id (Stage.waiting left)) b a in
    let q = is_quiet id o (at_stage id (Stage.waiting left)) one in
    let fs = before ++ at_stage id (Stage.waiting (erase c left)) ∷ after in
    IsSafe-old v id o.cp o.next o.in_flush o.sb o.others
      (untouched refl refl refl (λ i. refl) s.held fs) o.here
      (OldPhase.flushing (erase c left) (waiting_status id o left one) q.no_guard q.no_reader
        q.no_check q.free (only before after (at_stage id (Stage.waiting (erase c left))) b a))

seal-eq :
    (id : ℕ) (m : CpManager) (c : Cp) {m' : CpManager}
    → m.cps id ≡ some c
    → seal id m ≡ some m'
    → (calls : List Call) × (m'
        ≡ record (set_cp id (some (record c { status = Status.flush_done })) m) { calls = calls })
unfolding seal
seal-eq id m c e h = (
  (if m.registered sealer && c.contexts sealer
      then m.calls ++ flush_asked sealer id ∷ []
      else m.calls),
  ground arith,
)

pub all_flushed-IsSafe :
    {s : System}
    → IsSafe s
    → (before after : List Flush) (id : ℕ) {m : CpManager}
    → s.flushes ≡ before ++ (record { cp = id; stage = Stage.waiting [] }) ∷ after
    → seal id s.mgr ≡ some m
    → IsSafe (record s {
      mgr = m;
      flushes = before ++ (record { cp = id; stage = Stage.sealed }) ∷ after;
    })
all_flushed-IsSafe {s} v before after id {m} e h =
    let (o, b, a) = found v before after id (Stage.waiting []) e (λ p. λ q. cc) in
    let one = e ∙ only before after (at_stage id (Stage.waiting [])) b a in
    let q = is_quiet id o (at_stage id (Stage.waiting [])) one in
    let fs = before ++ at_stage id Stage.sealed ∷ after in
    let (calls, is) = seal-eq id s.mgr o.cp o.here h in
    subst (λ z. IsSafe (record s { mgr = z; flushes = fs })) (sym is)
      (calls-IsSafe calls (
        at_old v id o (record o.cp { status = Status.flush_done }) s.guards s.readers s.checking fs
          (λ i n. refl) (λ i n. refl) (λ i n. refl)
          (OldPhase.done refl q.no_guard q.no_reader q.no_check q.free
            (only before after (at_stage id Stage.sealed) b a))))
