-- ===== src/Alloc/Fixed/Queue.antt =====
-- What recovery and allocation do to the queue of free blocks.
use home_store.Prelude.{
  ℕ, suc, ◌≤◌, ◌<◌, ◌≡◌, ◌⊎◌, ◌↔◌, subst, refl, sym, ap, ◌∙◌, true, false, Bool-cases, inl, inr,
  ◌==◌, if◌then◌else◌, Option, none, some, List, [], ◌∷◌, ◌++◌, length, append-nil, append_assoc,
  length-append, arith,
}
use mathlib.Core.Option
use home_store.Blk.{BlkId, make_blkid}
use home_store.Alloc.{BlkAllocStatus}
use home_store.Alloc.Bitmap.{Bitset}
use home_store.Alloc.Fixed.{
  State, FixedBlkAllocator, is_member, erase, is_recovering, total_blks, requeue,
  recovery_completed, available_blks, take_free, alloc,
}

-- The blocks of a queue that are not reserved, in order.
abbrev pub unreserved : List ℕ → List ℕ → List ℕ
unreserved reserved [] = []
unreserved reserved (b ∷ q) =
    if is_member b reserved then unreserved reserved q else b ∷ unreserved reserved q

List-cases {ℓ} : {A : Type ℓ} (xs : List A) → (xs ≡ []) ⊎ ((x : A) × (ys : List A) × (xs ≡ x ∷ ys))
List-cases [] = inl refl
List-cases (x ∷ xs) = inr (x, xs, refl)

unreserved-skip :
    (b : ℕ) (reserved xs : List ℕ)
    → is_member b reserved ≡ true
    → unreserved reserved (b ∷ xs) ≡ unreserved reserved xs
unreserved-skip b reserved xs m = rw m refl

unreserved-keep :
    (b : ℕ) (reserved xs : List ℕ)
    → is_member b reserved ≡ false
    → unreserved reserved (b ∷ xs) ≡ b ∷ unreserved reserved xs
unreserved-keep b reserved xs m = rw m refl

unreserved-none : (xs : List ℕ) → unreserved [] xs ≡ xs
unreserved-none [] = refl
unreserved-none (x ∷ xs) = ap (◌∷◌ x) (unreserved-none xs)

module _ {B : Type 0} (ops : Bitset B) where
  stays : (reserved : List ℕ) (a : FixedBlkAllocator B) → requeue ops 0 reserved a ≡ a
  unfolding requeue
  stays reserved a = refl

  drops :
      (b : ℕ) (reserved q : List ℕ) (n : ℕ) (a : FixedBlkAllocator B)
      → a.free_blk_q ≡ b ∷ q
      → is_member b reserved ≡ true
      → requeue ops (suc n) reserved a ≡ requeue ops n reserved (record a { free_blk_q = q })
  unfolding requeue
  drops b reserved q n a e m = ground arith

  turns :
      (b : ℕ) (reserved q : List ℕ) (n : ℕ) (a : FixedBlkAllocator B)
      → a.free_blk_q ≡ b ∷ q
      → is_member b reserved ≡ false
      → length q < total_blks ops a
      → requeue ops (suc n) reserved a
        ≡ requeue ops n reserved (record a { free_blk_q = q ++ b ∷ [] })
  unfolding requeue
  turns b reserved q n a e m room = ground arith

  requeue-all :
      (reserved xs ys : List ℕ) (a : FixedBlkAllocator B)
      → a.free_blk_q ≡ xs ++ ys
      → length (xs ++ ys) ≤ total_blks ops a
      → requeue ops (length xs) reserved a ≡ record a { free_blk_q = ys ++ unreserved reserved xs }
  requeue-all reserved [] ys a e room =
      stays reserved a ∙ ap (λ q. record a { free_blk_q = q }) (e ∙ sym (append-nil ys))
  requeue-all reserved (b ∷ xs) ys a e room = elim (Bool-cases (is_member b reserved)) [
    | inl m ↦
        drops b reserved (xs ++ ys) (length xs) a e m
        ∙ requeue-all reserved xs ys (record a { free_blk_q = xs ++ ys }) refl (omega arith)
        ∙ ap (λ q. record a { free_blk_q = ys ++ q }) (sym (unreserved-skip b reserved xs m))
    | inr m ↦
        turns b reserved (xs ++ ys) (length xs) a e m (omega arith)
        ∙ requeue-all reserved xs (ys ++ b ∷ []) (record a { free_blk_q = (xs ++ ys) ++ b ∷ [] })
            (append_assoc xs ys (b ∷ []))
            (omega (
              arith,
              length-append xs (ys ++ b ∷ []),
              length-append ys (b ∷ []),
              length-append xs ys,
            ))
        ∙ ap (λ q. record a { free_blk_q = q })
            (append_assoc ys (b ∷ []) (unreserved reserved xs)
              ∙ ap (λ q. ys ++ q) (sym (unreserved-keep b reserved xs m)))
  ]

  completed-none :
      (a : FixedBlkAllocator B)
      → a.reserved_blks ≡ []
      → recovery_completed ops a ≡ record a { reserved_blks = []; state = State.active }
  unfolding recovery_completed
  completed-none a e = ground arith

  completed-some :
      (b : ℕ) (bs : List ℕ) (a : FixedBlkAllocator B)
      → a.reserved_blks ≡ b ∷ bs
      → recovery_completed ops a ≡ record (requeue ops (length a.free_blk_q) a.reserved_blks a) {
        reserved_blks = [];
        state = State.active;
      }
  unfolding recovery_completed available_blks
  completed-some b bs a e = ground arith

  -- At the end of recovery exactly the blocks of the queue that were not reserved are left in it, in
  -- order; the allocator is active and no block is reserved.
  pub recovery_completed-queue :
      (a : FixedBlkAllocator B)
      → length a.free_blk_q ≤ total_blks ops a
      → let c = recovery_completed ops a in
        (c.free_blk_q ≡ unreserved a.reserved_blks a.free_blk_q)
        × (c.state ≡ State.active)
        × (c.reserved_blks ≡ [])
  recovery_completed-queue a room = elim (List-cases a.reserved_blks) [
    | inl none_left ↦
        let c = completed-none a none_left in
        (
          ap (λ x. x.free_blk_q) c
              ∙ sym (unreserved-none a.free_blk_q)
              ∙ ap (λ r. unreserved r a.free_blk_q) (sym none_left),
          ap (λ x. x.state) c,
          ap (λ x. x.reserved_blks) c,
        )
    | inr (b, bs, some_left) ↦
        let c = completed-some b bs a some_left in
        let q = append-nil a.free_blk_q in
        let all =
          requeue-all a.reserved_blks a.free_blk_q [] a (sym q)
            (subst (λ x. length x ≤ total_blks ops a) (sym q) room) in
        (
          ap (λ x. x.free_blk_q) c ∙ ap (λ x. x.free_blk_q) all,
          ap (λ x. x.state) c,
          ap (λ x. x.reserved_blks) c,
        )
  ]

is_member-erase :
    (b x : ℕ) (reserved : List ℕ)
    → (x == b) ≡ false
    → is_member x (erase b reserved) ≡ is_member x reserved
is_member-erase b x [] ne = refl
is_member-erase b x (c ∷ cs) ne =
    let rest : is_member x (erase b cs) ≡ is_member x cs = is_member-erase b x cs ne in ground arith

-- Taking out a block that is not in the queue changes nothing for the queue.
unreserved-erase :
    (b : ℕ) (reserved q : List ℕ)
    → is_member b q ≡ false
    → unreserved (erase b reserved) q ≡ unreserved reserved q
unreserved-erase b reserved [] ne = refl
unreserved-erase b reserved (x ∷ q) ne =
    let apart : (x == b) ≡ false = ground arith in
    let rest : unreserved (erase b reserved) q ≡ unreserved reserved q =
      unreserved-erase b reserved q (ground arith) in
    rw (is_member-erase b x reserved apart, rest) refl

-- No block stands twice in the queue.
unfoldable pub IsDistinct : List ℕ → Type 0
IsDistinct [] = Unit {0}
IsDistinct (b ∷ q) = (is_member b q ≡ false) × IsDistinct q

-- What taking the first of some blocks gives, and what it leaves.
abbrev pub first_of : List ℕ → Option ℕ × List ℕ
first_of [] = (none, [])
first_of (b ∷ bs) = (some b, bs)

module _ {B : Type 0} (ops : Bitset B) where
  abbrev outcome : Option ℕ × List ℕ × List ℕ → Option ℕ × List ℕ
  outcome (got, q, reserved) = (got, unreserved reserved q)

  take_free-first :
      (reserved q : List ℕ)
      → IsDistinct q
      → outcome (take_free ops true reserved q) ≡ first_of (unreserved reserved q)
  unfolding take_free IsDistinct
  take_free-first reserved [] d = refl
  take_free-first reserved (b ∷ q) (ne, d) = elim (Bool-cases (is_member b reserved)) [
    | inl m ↦
        rw m
          (take_free-first (erase b reserved) q d ∙ ap first_of (unreserved-erase b reserved q ne))
    | inr m ↦ rw m refl
  ]

  -- The blocks that may be handed out, in the order in which they are.
  abbrev pub allocatable : FixedBlkAllocator B → List ℕ
  allocatable a = unreserved a.reserved_blks a.free_blk_q

  -- The block and the status that come from the allocatable blocks, and what is left of them.
  unfoldable pub Answer :
      FixedBlkAllocator B → BlkAllocStatus × Option BlkId × FixedBlkAllocator B → Type 0
  Answer a (st, b, c) =
      (b ≡ Option.map (λ n. make_blkid n 1 a.bitmap.chunk_id) (first_of (allocatable a)).0)
      × (allocatable c ≡ (first_of (allocatable a)).1)
      × ((st ≡ BlkAllocStatus.space_full) ↔ (allocatable a ≡ []))

  first_of-none : (xs : List ℕ) → (first_of xs).0 ≡ none → xs ≡ []
  first_of-none [] e = refl
  first_of-none (x ∷ xs) e = absurd cc

  Answer-of :
      (a : FixedBlkAllocator B) (got : Option ℕ) (q reserved : List ℕ)
      → (got, unreserved reserved q) ≡ first_of (allocatable a)
      → Answer a (elim got [
        | none ↦
            (BlkAllocStatus.space_full, none, record a { free_blk_q = q; reserved_blks = reserved })
        | some n ↦ (
          BlkAllocStatus.success,
          some (make_blkid n 1 a.bitmap.chunk_id),
          record a { free_blk_q = q; reserved_blks = reserved },
        )
      ])
  unfolding Answer
  Answer-of a none q reserved e =
      let no : none ≡ (first_of (allocatable a)).0 = ap (λ x. x.0) e in
      (
        ap (Option.map (λ n. make_blkid n 1 a.bitmap.chunk_id)) no,
        ap (λ x. x.1) e,
        (λ st. first_of-none (allocatable a) (sym no), λ empty. refl),
      )
  Answer-of a (some n) q reserved e =
      let yes_ : some n ≡ (first_of (allocatable a)).0 = ap (λ x. x.0) e in
      (
        ap (Option.map (λ k. make_blkid k 1 a.bitmap.chunk_id)) yes_,
        ap (λ x. x.1) e,
        (λ st. absurd cc, λ empty. absurd (cc (yes_, ap (λ x. (first_of x).0) empty))),
      )

  -- While recovering, `alloc` hands out the first block of the queue that is not reserved, and leaves
  -- the others that are not reserved in order; with none left it says that the space is full. No block
  -- stands twice in the queue.
  pub alloc-allocatable :
      (a : FixedBlkAllocator B)
      → a.state ≡ State.recovering
      → IsDistinct a.free_blk_q
      → Answer a (alloc ops a)
  unfolding alloc
  alloc-allocatable a s d =
      let tf = take_free ops (is_recovering a.state) a.reserved_blks a.free_blk_q in
      let e : outcome tf ≡ first_of (allocatable a) =
        ap (λ x. outcome (take_free ops (is_recovering x) a.reserved_blks a.free_blk_q)) s
        ∙ take_free-first a.reserved_blks a.free_blk_q d in
      Answer-of a tf.0 tf.1 tf.2 e
