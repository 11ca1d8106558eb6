-- ===== src/Journal/Alloc.antt =====
-- Taking space from a journal: `append_chunk` and `alloc_next_append_blk`.
use home_store.Prelude.{
  ℕ, ◌+◌, ◌-◌, ◌*◌, ◌/◌, ◌%◌, ◌≤◌, ◌<◌, ◌≡◌, refl, sym, ap, ◌∙◌, ◌==◌, if◌then◌else◌, some, List,
  [], ◌∷◌, ◌++◌, length, length-append, arith, ℕ_discrete, dec_lt,
}
use home_store.Journal.{
  Chunk, Descriptor, on_last, linked, headed, pooled, append_chunk, alloc_next_append_blk,
}
use home_store.Journal.Offsets.{tail, IsValid, mod_mul, mod_window, length-on_last}

-- A descriptor without chunks gets its first one, and one with chunks its next one.
first : ℕ → ℕ → Descriptor → Descriptor
first id time d = record d {
  total_size = d.total_size + d.chunk_size;
  end_offset = d.end_offset + d.chunk_size;
  journal_chunks = headed d.logdev_id d.chunk_size (pooled d.chunk_size id time) ∷ [];
}

next : ℕ → ℕ → Descriptor → Descriptor
next id time d = record d {
  total_size = d.total_size + d.chunk_size;
  end_offset = d.end_offset + d.chunk_size;
  journal_chunks =
      on_last (linked id (tail d % d.chunk_size)) d.journal_chunks
      ++ pooled d.chunk_size id time ∷ [];
  write_sz_in_total =
      if tail d % d.chunk_size == 0
      then d.write_sz_in_total
      else d.write_sz_in_total + (d.chunk_size - tail d % d.chunk_size);
}

append-first :
    (id time : ℕ) (d : Descriptor)
    → d.journal_chunks ≡ []
    → append_chunk id time d ≡ some (first id time d)
unfolding append_chunk first
append-first id time d e = ground arith

append-next :
    (id time : ℕ) (d : Descriptor) (c : Chunk) (cs : List Chunk)
    → d.journal_chunks ≡ c ∷ cs
    → tail d ≤ d.end_offset
    → append_chunk id time d ≡ some (next id time d)
unfolding append_chunk next
append-next id time d c cs e h = ground (arith, ap (on_last (linked id (tail d % d.chunk_size))) e)

-- What a chunk that is appended leaves.
record Appended (d d' : Descriptor) : Type 0 where
  valid : IsValid d'
  at_tail : tail d' ≡ d.end_offset
  end_grows : d'.end_offset ≡ d.end_offset + d.chunk_size
  start_same : d'.data_start_offset ≡ d.data_start_offset
  reserved_same : d'.reserved_sz ≡ d.reserved_sz
  size_same : d'.chunk_size ≡ d.chunk_size

more_chunks : (q l s : ℕ) → (q + (l + 1)) * s ≡ (q + l) * s + s
more_chunks q l s = grind arith

one_more : (l s : ℕ) → (l + 1) * s ≡ l * s + s
one_more l s = grind arith

no_gap : (d : Descriptor) → IsValid d → length d.journal_chunks ≡ 0 → tail d ≡ d.end_offset
no_gap d v e = ground (arith, v.tail_ge, v.tail_le)

pub gap :
    (d : Descriptor)
    → IsValid d
    → 0 < length d.journal_chunks
    → d.end_offset ≤ tail d + d.chunk_size
gap d v h = ground (arith, v.tail_ge)

pub gap_of : (l s e t : ℕ) → 0 < l → e ≤ t + s → e ≤ t + (if l == 0 then 0 else s)
gap_of l s e t h g = ground arith

first-Appended :
    (id time : ℕ) (d : Descriptor)
    → IsValid d
    → d.journal_chunks ≡ []
    → Appended d (first id time d)
unfolding first
first-Appended id time d v e =
    let none_yet : length d.journal_chunks ≡ 0 = ap length e in
    let s = d.chunk_size in
    let q = d.data_start_offset / s in
    let ends : d.end_offset ≡ (q + 0) * s = v.at_end ∙ ap (λ l. (q + l) * s) none_yet in
    let all : d.total_size ≡ 0 * s = v.total ∙ ap (λ l. l * s) none_yet in
    let same : tail d ≡ d.end_offset = no_gap d v none_yet in
    record {
      valid = record {
        size_pos = v.size_pos;
        at_end = omega (arith, ends, more_chunks q 0 s);
        total = omega (arith, all, one_more 0 s);
        tail_le = omega (arith, v.tail_le);
        tail_ge = omega (arith, same);
      };
      at_tail = same;
      end_grows = refl;
      start_same = refl;
      reserved_same = refl;
      size_same = refl;
    }

-- The tail is in the last chunk, too near to its end.
tail_moves :
    (d : Descriptor) (sz : ℕ)
    → IsValid d
    → 0 < length d.journal_chunks
    → sz < d.chunk_size
    → d.end_offset ≤ tail d + sz
    → d.data_start_offset
        + (if tail d % d.chunk_size == 0
            then d.write_sz_in_total
            else d.write_sz_in_total + (d.chunk_size - tail d % d.chunk_size))
        + d.reserved_sz
      ≡ d.end_offset
tail_moves d sz v some_yet less near =
    let s = d.chunk_size in
    let q = d.data_start_offset / s + length d.journal_chunks in
    let e : d.end_offset ≡ q * s = v.at_end in
    let window = gap d v some_yet in
    elim (ℕ_discrete (tail d) (q * s)) [
      | yes full ↦
          (let zero_mod : tail d % s ≡ 0 = ap (λ x. x % s) full ∙ mod_mul q s v.size_pos in
            ground (arith, v.tail_le))
      | no inside ↦
          (let part : tail d % s ≡ tail d + s - q * s =
              mod_window q s (tail d) v.size_pos (omega arith) (omega (arith, v.tail_le)) in
            ground (arith, v.tail_le))
    ]

next-Appended :
    (id time sz : ℕ) (d : Descriptor)
    → IsValid d
    → 0 < length d.journal_chunks
    → sz < d.chunk_size
    → d.end_offset ≤ tail d + sz
    → Appended d (next id time d)
unfolding next
next-Appended id time sz d v some_yet less near =
    let s = d.chunk_size in
    let q = d.data_start_offset / s in
    let l = length d.journal_chunks in
    let moved = tail_moves d sz v some_yet less near in
    let longer : length (on_last (linked id (tail d % s)) d.journal_chunks ++ pooled s id time ∷ [])
        ≡ l + 1 =
      length-append (on_last (linked id (tail d % s)) d.journal_chunks) (pooled s id time ∷ [])
      ∙ ap (λ n. n + 1) (length-on_last (linked id (tail d % s)) d.journal_chunks) in
    record {
      valid = record {
        size_pos = v.size_pos;
        at_end = omega (arith, v.at_end, more_chunks q l s) ∙ ap (λ n. (q + n) * s) (sym longer);
        total = omega (arith, v.total, one_more l s) ∙ ap (λ n. n * s) (sym longer);
        tail_le = omega (arith, moved);
        tail_ge =
            gap_of
              (length (on_last (linked id (tail d % s)) d.journal_chunks ++ pooled s id time ∷ []))
              s (d.end_offset + s) (tail (next id time d)) (omega (arith, longer))
              (omega (arith, moved));
      };
      at_tail = moved;
      end_grows = refl;
      start_same = refl;
      reserved_same = refl;
      size_same = refl;
    }

-- A chunk is appended where the tail is too near to the end for the size.
append_chunk-Appended :
    (id time sz : ℕ) (d : Descriptor)
    → IsValid d
    → sz < d.chunk_size
    → d.end_offset ≤ tail d + sz
    → (d' : Descriptor) × (append_chunk id time d ≡ some d') × Appended d d'
append_chunk-Appended id time sz d v less near = go d.journal_chunks refl
  where
    go :
        (cs : List Chunk)
        → d.journal_chunks ≡ cs
        → (d' : Descriptor) × (append_chunk id time d ≡ some d') × Appended d d'
    go [] e = (first id time d, append-first id time d e, first-Appended id time d v e)
    go (c ∷ cs) e = (
      next id time d,
      append-next id time d c cs e v.tail_le,
      next-Appended id time sz d v (omega (arith, ap length e)) less near,
    )

alloc-room :
    (id time sz : ℕ) (d : Descriptor)
    → sz < d.chunk_size
    → tail d + sz < d.end_offset
    → alloc_next_append_blk id time sz d
      ≡ some (tail d, record d { reserved_sz = d.reserved_sz + sz })
unfolding alloc_next_append_blk
alloc-room id time sz d less room = ground arith

alloc-near :
    (id time sz : ℕ) (d d' : Descriptor)
    → sz < d.chunk_size
    → tail d ≤ d.end_offset
    → d.end_offset ≤ tail d + sz
    → append_chunk id time d ≡ some d'
    → tail d' + sz < d'.end_offset
    → alloc_next_append_blk id time sz d
      ≡ some (tail d', record d' { reserved_sz = d'.reserved_sz + sz })
unfolding alloc_next_append_blk
alloc-near id time sz d d' less le near e room = ground arith

-- What a reservation leaves: the space starts at or behind the old tail, and the next byte goes behind it.
pub record IsReserved (sz at : ℕ) (d d' : Descriptor) : Type 0 where
  pub valid : IsValid d'
  pub behind : tail d ≤ at
  pub next_byte : tail d' ≡ at + sz
  pub in_last : d'.end_offset ≤ at + d'.chunk_size
  pub before_end : at + sz < d'.end_offset
  pub start_same : d'.data_start_offset ≡ d.data_start_offset
  pub reserved_more : d'.reserved_sz ≡ d.reserved_sz + sz
  pub size_same : d'.chunk_size ≡ d.chunk_size

reserved-IsValid :
    (sz : ℕ) (d : Descriptor)
    → IsValid d
    → tail d + sz ≤ d.end_offset
    → IsValid (record d { reserved_sz = d.reserved_sz + sz })
reserved-IsValid sz d v h = record {
  size_pos = v.size_pos;
  at_end = v.at_end;
  total = v.total;
  tail_le = omega arith;
  tail_ge = omega (arith, v.tail_ge);
}

-- `alloc_next_append_blk` for less than a chunk on a valid descriptor never fails. The space starts at or
-- behind the old tail, so no two spaces overlap, and lies within one chunk, the last one; the descriptor
-- stays valid, and the space counts as reserved.
pub alloc_next_append_blk-IsReserved :
    (id time sz : ℕ) (d : Descriptor)
    → IsValid d
    → sz < d.chunk_size
    → (at : ℕ) × (d' : Descriptor) × (alloc_next_append_blk id time sz d ≡ some (at, d'))
      × IsReserved sz at d d'
alloc_next_append_blk-IsReserved id time sz d v less = elim (dec_lt (tail d + sz) d.end_offset) [
  | yes room ↦
      (let some_yet : 0 < length d.journal_chunks = chunks_there room in
        (
          tail d,
          record d { reserved_sz = d.reserved_sz + sz },
          alloc-room id time sz d less room,
          record {
            valid = reserved-IsValid sz d v (omega arith);
            behind = omega arith;
            next_byte = omega arith;
            in_last = gap d v some_yet;
            before_end = room;
            start_same = refl;
            reserved_more = refl;
            size_same = refl;
          },
        ))
  | no full ↦
      (let (d1, e, a) = append_chunk-Appended id time sz d v less (omega arith) in
        let there : tail d1 + sz < d1.end_offset = omega (arith, a.at_tail, a.end_grows) in
        (
          tail d1,
          record d1 { reserved_sz = d1.reserved_sz + sz },
          alloc-near id time sz d d1 less v.tail_le (omega arith) e there,
          record {
            valid = reserved-IsValid sz d1 a.valid (omega arith);
            behind = omega (arith, a.at_tail, v.tail_le);
            next_byte = omega arith;
            in_last = omega (arith, a.at_tail, a.end_grows, a.size_same);
            before_end = there;
            start_same = a.start_same;
            reserved_more = ap (λ n. n + sz) a.reserved_same;
            size_same = a.size_same;
          },
        ))
]
  where
    chunks_there : tail d + sz < d.end_offset → 0 < length d.journal_chunks
    chunks_there room = elim (ℕ_discrete (length d.journal_chunks) 0) [
      | yes z ↦ absurd (omega (arith, no_gap d v z))
      | no nz ↦ omega arith
    ]
