-- ===== src/Checkpoint/System/Safe/Ends.antt =====
-- The end of a flush keeps the manager safe.
use home_store.Prelude.{
  ℕ, suc, ◌≡◌, ◌≢◌, refl, sym, ap, ◌∙◌, false, none, some, List, [], ◌∷◌, arith, ℕ_discrete, ◌++◌,
}
use home_store.Checkpoint.{Cp, CpManager, persist, finish}
use home_store.Checkpoint.System.{System, Flush, Stage}
use home_store.Checkpoint.System.Safe.{OldPhase, Phase, alone, paired, idle, ending, IsSafe}
use home_store.Checkpoint.System.Safe.Flushes.{found, is_quiet, only, no_flush, one_flush, at_stage}

-- What a persisted CP leaves: the superblock counts it, and it is out of memory.
pub persist-sets :
    (id : ℕ) (m : CpManager) (c : Cp) (flushed : ℕ) {promise : ℕ} {m' : CpManager}
    → m.cps id ≡ some c
    → m.sb.sb ≡ some flushed
    → persist id m ≡ some (promise, m')
    → (promise ≡ c.comp_promise)
      × (m'.cur_cp ≡ m.cur_cp)
      × (m'.in_flush_phase ≡ m.in_flush_phase)
      × (m'.sb.sb ≡ some (suc flushed))
      × (m'.sb.stored ≡ some (suc flushed))
      × (m'.cps id ≡ none)
      × ((i : ℕ) → i ≢ id → m'.cps i ≡ m.cps i)
unfolding persist
persist-sets id m c flushed e sb h = (
  ground arith,
  ground arith,
  ground arith,
  ground arith,
  ground arith,
  ground arith,
  λ i n. ground arith,
)

pub persists-IsSafe :
    {s : System}
    → IsSafe s
    → (before after : List Flush) (id : ℕ) {promise : ℕ} {m : CpManager}
    → s.flushes ≡ before ++ (record { cp = id; stage = Stage.sealed }) ∷ after
    → persist id s.mgr ≡ some (promise, m)
    → IsSafe (record s {
      mgr = m;
      flushes = before ++ (record { cp = id; stage = Stage.persisted promise }) ∷ after;
    })
persists-IsSafe {s} v before after id {promise} {m} e h =
    let (o, b, a) = found v before after id Stage.sealed e (λ p. λ q. cc) in
    let one = e ∙ only before after (at_stage id Stage.sealed) b a in
    let q = is_quiet id o (at_stage id Stage.sealed) one in
    let (p, cur, in_flush, sb, stored, gone, rest) = persist-sets id s.mgr o.cp id o.here o.sb h in
    let next = o.next in
    let ne : s.mgr.cur_cp ≢ id = λ z. absurd (omega arith) in
    record {
      cur = v.cur;
      here = ap m.cps cur ∙ rest s.mgr.cur_cp ne ∙ v.here;
      ready = v.ready;
      counted = v.counted ∙ ap s.guards (sym cur);
      phase =
          alone
            (ending id promise q.free (in_flush ∙ o.in_flush)
              (only before after (at_stage id (Stage.persisted promise)) b a))
            (sb ∙ ap some (sym (cur ∙ next)))
            λ i n. elim (ℕ_discrete i id) [
              | yes at ↦ record {
                gone = ap m.cps at ∙ gone;
                no_guard = ap s.guards at ∙ q.no_guard;
                no_reader = ap s.readers at ∙ q.no_reader;
                no_check = ap s.checking at ∙ q.no_check;
              }
              | no off ↦
                  (let u = o.others i (λ z. n (z ∙ sym cur)) off in
                    record {
                      gone = rest i off ∙ u.gone;
                      no_guard = u.no_guard;
                      no_reader = u.no_reader;
                      no_check = u.no_check;
                    })
            ];
    }

finish-ends :
    (promise : ℕ) (m : CpManager)
    → ((finish promise m).1.cur_cp ≡ m.cur_cp)
      × ((finish promise m).1.in_flush_phase ≡ false)
      × ((finish promise m).1.sb.sb ≡ m.sb.sb)
      × ((i : ℕ) → (finish promise m).1.cps i ≡ m.cps i)
unfolding finish
finish-ends promise m = (refl, refl, refl, λ i. refl)

pub finishes-IsSafe :
    {s : System}
    → IsSafe s
    → (before after : List Flush) (id promise : ℕ)
    → s.flushes ≡ before ++ (record { cp = id; stage = Stage.persisted promise }) ∷ after
    → IsSafe (record s { mgr = (finish promise s.mgr).1; flushes = before ++ after })
finishes-IsSafe {s} v before after id promise e = go v.phase
  where
    other :
        (old : ℕ) (st : Stage)
        → s.flushes ≡ at_stage old st ∷ []
        → (before ≡ []) × (Stage.persisted promise ≡ st) × (after ≡ [])
    other old st f =
        let (b, x, a) =
          one_flush before after (at_stage id (Stage.persisted promise)) (at_stage old st)
            (sym e ∙ f) in
        (b, ap (λ z. z.stage) x, a)

    go : Phase s → IsSafe (record s { mgr = (finish promise s.mgr).1; flushes = before ++ after })
    go (alone (idle x y z) sb others) =
        absurd (no_flush before after (at_stage id (Stage.persisted promise)) (sym e ∙ z))
    go (alone (ending old p x y z) sb others) =
        let (b, same, a) = other old (Stage.persisted p) z in
        let (cur, off, sb_same, cps) = finish-ends promise s.mgr in
        let m = (finish promise s.mgr).1 in
        record {
          cur = v.cur;
          here = ap m.cps cur ∙ cps s.mgr.cur_cp ∙ v.here;
          ready = v.ready;
          counted = v.counted ∙ ap s.guards (sym cur);
          phase =
              alone (idle x off (ap (λ l. l ++ after) b ∙ a)) (sb_same ∙ sb ∙ ap some (sym cur))
                λ i n.
                  let u = others i (λ w. n (w ∙ sym cur)) in
                  record {
                    gone = cps i ∙ u.gone;
                    no_guard = u.no_guard;
                    no_reader = u.no_reader;
                    no_check = u.no_check;
                  };
        }
    go (paired old c next f sb here (OldPhase.switching a b d x y) others) =
        absurd (no_flush before after (at_stage id (Stage.persisted promise)) (sym e ∙ y))
    go (paired old c next f sb here (OldPhase.prepared a b w r d x y) others) =
        absurd (no_flush before after (at_stage id (Stage.persisted promise)) (sym e ∙ y))
    go (paired old c next f sb here (OldPhase.leaving a b w r d x y) others) =
        absurd (no_flush before after (at_stage id (Stage.persisted promise)) (sym e ∙ y))
    go (paired old c next f sb here (OldPhase.flushing l a w r d x y) others) =
        let (b, q, a') = other old (Stage.waiting l) y in absurd (cc)
    go (paired old c next f sb here (OldPhase.done a w r d x y) others) =
        let (b, q, a') = other old Stage.sealed y in absurd (cc)
