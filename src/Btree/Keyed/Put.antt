-- ===== src/Btree/Keyed/Put.antt =====
-- `put` on a leaf, in all its kinds, without a filter.
use mathlib.Core.Option
use home_store.Prelude.{
  ℕ, ◌+◌, ◌%◌, ◌^◌, ◌<◌, ◌≡◌, refl, sym, ap, ◌∙◌, ◌⊎◌, inl, inr, Bool, true, false, Option, none,
  some, length, set, get_elem?, length-set, Ordering, arith, Bool-cases, ◌==◌, if◌then◌else◌,
}
use home_store.Prelude.Order.{IsOrder}
use home_store.Btree.Node.{Node, Traits, has_valid_edge}
use home_store.Btree.Node
use home_store.Btree.Node.Entries.{IsNode}
use home_store.Btree.Node.Insert.{insert-entries}
use home_store.Btree.Search.{find, compare_nth_key}
use home_store.Btree.Search.Lands.{Lands}
use home_store.Btree.Search.Sorted.{IsSorted, find-Lands, compare-key_at, get_elem?-some}
use home_store.Btree.Keyed.{PutType, Status, put, put_at}
use home_store.Btree.Keyed.EntryAt.{entry_at}
use home_store.Btree.Keyed.Sorted.{insert-IsSorted, key_of_some}
use home_store.Btree.Keyed.Holds.{Holds, Updated, insert-Updated, absent}
use home_store.Btree.Keyed.Replace.{replace-IsSorted, replace-Updated}

module _ {K V : Type 0} (t : Traits K V) (n : Node K V) (key : K) (v : V) where
  -- What a `put` leaves behind.
  pub record Outcome (put_type : PutType) (st : Status) (existing : Option V) (m : Node K V)
      : Type 0 where
    pub node : IsNode t m
    pub sorted : IsSorted t m
    pub effect :
        ((st ≡ Status.success) × Updated t n key v m)
        ⊎ (((st ≡ Status.already_exists)
              × (put_type ≡ PutType.insert)
              × ((w : V) × (existing ≡ some w))
              × (m ≡ n))
            ⊎ ((st ≡ Status.not_found) × (put_type ≡ PutType.update) × (existing ≡ none) × (m ≡ n)))
    pub before :
        ((w : V) × (existing ≡ some w) × Holds t n key w)
        ⊎ ((existing ≡ none) × ((w : V) → Holds t n key w → ⊥))

  update-eq :
      (idx : ℕ)
      → idx < n.nentries
      → Node.update t idx key v n
        ≡ some (record n { slots = set n.slots idx (key, v); node_gen = (n.node_gen + 1) % 2 ^ 64 })
  unfolding Node.update
  update-eq idx h = ground arith

module _ {K V : Type 0} (t : Traits K V) (o : IsOrder t.cmp) (n : Node K V) (key : K) (v : V)
    (w : IsNode t n) (s : IsSorted t n) (room : n.nentries < length n.slots) where
  -- The key was found at `idx`.
  module _ (idx : ℕ) (old : K) (v_old : V) (h : idx < n.nentries)
      (p : entry_at n idx ≡ some (old, v_old)) (q : t.cmp old key ≡ Ordering.eq) where
    abbrev written : Node K V
    written = record n { slots = set n.slots idx (key, v); node_gen = (n.node_gen + 1) % 2 ^ 64 }

    written-IsNode : IsNode t written
    written-IsNode = record {
      sized = w.sized;
      area = rw (length-set n.slots idx (key, v)) w.area;
      small = w.small;
      filled = rw (length-set n.slots idx (key, v)) w.filled;
    }

    existing_Holds :
        ((x : V) × (◌≡◌ {A = Option V} (some v_old) (some x)) × Holds t n key x)
        ⊎ ((◌≡◌ {A = Option V} (some v_old) none) × ((x : V) → Holds t n key x → ⊥))
    existing_Holds = inl (v_old, refl, (idx, old, h, p, q))

    written-Outcome :
        (put_type : PutType) → Outcome t n key v put_type Status.success (some v_old) written
    written-Outcome put_type = record {
      node = written-IsNode;
      sorted = replace-IsSorted t o n s idx old key v v_old w.filled h p q;
      effect = inl (refl, replace-Updated t o n s idx old key v v_old w.filled h p q);
      before = existing_Holds;
    }

    put_found-Outcome :
        (put_type : PutType)
        → (st : Status) × (existing : Option V) × (m : Node K V) × (put_at t true idx
              (some v_old)
              none
              key
              v
              put_type
              n
            ≡ some (st, existing, m))
          × Outcome t n key v put_type st existing m
    unfolding put_at
    put_found-Outcome PutType.insert = (
      Status.already_exists,
      some v_old,
      n,
      refl,
      record {
        node = w;
        sorted = s;
        effect = inr (inl (refl, refl, (v_old, refl), refl));
        before = existing_Holds;
      },
    )
    put_found-Outcome PutType.update = (
      Status.success,
      some v_old,
      written,
      rw (update-eq t n key v idx h),
      written-Outcome PutType.update,
    )
    put_found-Outcome PutType.upsert = (
      Status.success,
      some v_old,
      written,
      rw (update-eq t n key v idx h),
      written-Outcome PutType.upsert,
    )

  -- The key was not found, and belongs at `idx`.
  module _ (idx : ℕ) (out : Option V)
      (l : Lands (compare_nth_key t n key) n.nentries false idx) where
    nothing_Holds : (x : V) → Holds t n key x → ⊥
    nothing_Holds x (i, k, h, p, q) = absent t o n idx key l i k h (key_of_some n i (k, x) p) q

    inserted-Outcome :
        (put_type : PutType)
        → (m : Node K V) × (Node.insert t idx key v n ≡ some m)
          × Outcome t n key v put_type Status.success none m
    inserted-Outcome put_type =
        let (m, e, order, node, same_leaf, same_edge, same_size, grown) =
          insert-entries t n idx key v w l.within room in
        (
          m,
          e,
          record {
            node = node;
            sorted = insert-IsSorted t o n m idx key v w.filled grown order l s;
            effect = inl (refl, insert-Updated t o n m idx key v w.filled grown order l);
            before = inr (refl, nothing_Holds);
          },
        )

    put_missing-Outcome :
        (put_type : PutType)
        → (st : Status) × (existing : Option V) × (m : Node K V) × (put_at t false idx out none key
              v put_type n
            ≡ some (st, existing, m))
          × Outcome t n key v put_type st existing m
    unfolding put_at
    put_missing-Outcome PutType.insert =
        let (m, e, o) = inserted-Outcome PutType.insert in (Status.success, none, m, rw e, o)
    put_missing-Outcome PutType.update = (
      Status.not_found,
      none,
      n,
      refl,
      record {
        node = w;
        sorted = s;
        effect = inr (inr (refl, refl, refl, refl));
        before = inr (refl, nothing_Holds);
      },
    )
    put_missing-Outcome PutType.upsert =
        let (m, e, o) = inserted-Outcome PutType.upsert in (Status.success, none, m, rw e, o)

  put-step :
      (put_type : PutType) {found : Bool} {idx : ℕ} {out : Option V}
      → find t n key ≡ some (found, idx, out)
      → put t none key v put_type n ≡ put_at t found idx out none key v put_type n
  unfolding put
  put-step put_type e = rw e

  -- What `find` hands out.
  abbrev handed_out : ℕ → Option V
  handed_out idx =
      if idx == n.nentries
      then (if has_valid_edge n then some (t.of_link n.edge_info) else none)
      else Option.map (λ e. e.1) (get_elem? n.slots idx)

  hit-out :
      (idx : ℕ) (old : K) (v_old : V)
      → idx < n.nentries
      → entry_at n idx ≡ some (old, v_old)
      → handed_out idx ≡ some v_old
  hit-out idx old v_old h p = ground arith

  -- On a well-formed node whose keys rise and that has room, `put` without a filter ends. If the key
  -- is there, the existing value is what it holds, an insert leaves the node as it is, and an update
  -- or upsert sets the value; if not, there is no existing value, an update leaves the node as it is,
  -- and an insert or upsert adds the key. The node stays well formed and its keys keep rising.
  pub put-Outcome :
      (put_type : PutType)
      → (st : Status) × (existing : Option V) × (m : Node K V) × (put t none key v put_type n
          ≡ some (st, existing, m))
        × Outcome t n key v put_type st existing m
  put-Outcome put_type =
      let (found, idx, e, l) = find-Lands t o n w.filled key s in
      elim (Bool-cases found) [
        | inl hit ↦
            let (h, q) = l.hit hit in
            let (x, p) = get_elem?-some n.slots idx (omega (arith, h, w.filled)) in
            let q' : t.cmp x.0 key ≡ Ordering.eq =
              sym (compare-key_at t o n key x.0 idx (key_of_some n idx x p)) ∙ q in
            let (st, ex, m, r, outcome) = put_found-Outcome idx x.0 x.1 h p q' put_type in
            let out_eq = hit-out idx x.0 x.1 h p in
            (
              st,
              ex,
              m,
              put-step put_type e
                  ∙ ap (λ f. put_at t f idx (handed_out idx) none key v put_type n) hit
                  ∙ ap (λ z. put_at t true idx z none key v put_type n) out_eq
                  ∙ r,
              outcome,
            )
        | inr miss ↦
            let l' : Lands (compare_nth_key t n key) n.nentries false idx = rw (← miss) l in
            let (st, ex, m, r, outcome) = put_missing-Outcome idx (handed_out idx) l' put_type in
            (
              st,
              ex,
              m,
              put-step put_type e
                  ∙ ap (λ f. put_at t f idx (handed_out idx) none key v put_type n) miss
                  ∙ r,
              outcome,
            )
      ]
