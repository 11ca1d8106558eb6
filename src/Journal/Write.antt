-- ===== src/Journal/Write.antt =====
-- Writing what was reserved.
use home_store.Prelude.{
  ℕ, suc, ◌+◌, ◌-◌, ◌*◌, ◌/◌, ◌≤◌, ◌<◌, ◌≡◌, sym, ap, ◌∙◌, some, length, get_elem?, arith,
  ℕ_discrete,
}
use home_store.Journal.{
  Chunk, Descriptor, chunk_at, offset_to_chunk, process_pwrite_offset, pwrite,
  alloc_next_append_blk,
}
use home_store.Journal.Offsets.{tail, IsValid, chunk_at-finds}
use home_store.Journal.Alloc.{IsReserved, alloc_next_append_blk-IsReserved}

offset_found :
    (off : ℕ) (d : Descriptor)
    → offset_to_chunk (d.data_start_offset / d.chunk_size * d.chunk_size + off) d
      ≡ chunk_at d.chunk_size 0
          (d.data_start_offset / d.chunk_size * d.chunk_size
            + off
            - d.data_start_offset / d.chunk_size * d.chunk_size)
          d.journal_chunks
unfolding offset_to_chunk
offset_found off d = ground arith

-- The chunk of an offset, by its index and the offset in it.
pub place_at :
    (d : Descriptor) (k r : ℕ)
    → r < d.chunk_size
    → k < length d.journal_chunks
    → (c : Chunk) × (get_elem? d.journal_chunks k ≡ some c)
      × (offset_to_chunk
            (d.data_start_offset / d.chunk_size * d.chunk_size + (k * d.chunk_size + r))
            d
          ≡ some (c, k, r))
place_at d k r h l =
    let (c, g, e) = chunk_at-finds d.chunk_size k r 0 d.journal_chunks h l in
    let base = d.data_start_offset / d.chunk_size * d.chunk_size in
    let off = k * d.chunk_size + r in
    let rest : base + off - base ≡ off = omega arith in
    let same : 0 + k ≡ k = omega arith in
    (
      c,
      g,
      offset_found off d
          ∙ ap (λ o. chunk_at d.chunk_size 0 o d.journal_chunks) rest
          ∙ e
          ∙ ap (λ i. some (c, i, r)) same,
    )

pwrite-eq :
    (size offset : ℕ) (d : Descriptor) {c : Chunk} {k r : ℕ}
    → size ≤ d.reserved_sz
    → offset_to_chunk offset d ≡ some (c, k, r)
    → size ≤ d.chunk_size - r
    → pwrite size offset d
      ≡ some (
        (c, k, r),
        record d {
          reserved_sz = d.reserved_sz - size;
          write_sz_in_total = d.write_sz_in_total + size;
        },
      )
unfolding pwrite process_pwrite_offset offset_to_chunk
pwrite-eq size offset d h e l = ground arith

-- Moving what is reserved to what is written keeps the tail.
written-IsValid :
    (size : ℕ) (d : Descriptor)
    → IsValid d
    → size ≤ d.reserved_sz
    → IsValid (record d {
      reserved_sz = d.reserved_sz - size;
      write_sz_in_total = d.write_sz_in_total + size;
    })
written-IsValid size d v h = record {
  size_pos = v.size_pos;
  at_end = v.at_end;
  total = v.total;
  tail_le = omega (arith, v.tail_le);
  tail_ge = omega (arith, v.tail_ge);
}

in_chunks : (q k s : ℕ) → (q + suc k) * s ≡ q * s + k * s + s
in_chunks q k s = grind arith

-- Where a write goes, and what it leaves.
pub record IsWritten (sz at : ℕ) (d d' : Descriptor) (c : Chunk) (k r : ℕ) : Type 0 where
  pub valid : IsValid d'
  pub last_chunk : get_elem? d.journal_chunks k ≡ some c
  pub is_last : suc k ≡ length d.journal_chunks
  pub fits : r + sz < d.chunk_size
  pub place : d.end_offset + r ≡ at + d.chunk_size
  pub next_byte : tail d' ≡ tail d
  pub reserved_less : d'.reserved_sz + sz ≡ d.reserved_sz

-- On a valid descriptor, space for less than a chunk can be taken and written at once: the write goes to
-- the last chunk and fits in it, and leaves the next byte behind it and as much reserved as there was
-- before.
pub pwrite-alloc :
    (id time sz : ℕ) (d : Descriptor)
    → IsValid d
    → sz < d.chunk_size
    → (at : ℕ) × (d1 d2 : Descriptor) × (c : Chunk) × (k r : ℕ) × (alloc_next_append_blk id time sz
          d
        ≡ some (at, d1))
      × (pwrite sz at d1 ≡ some ((c, k, r), d2))
      × IsReserved sz at d d1
      × IsWritten sz at d1 d2 c k r
pwrite-alloc id time sz d v less =
    let (at, d1, e, i) = alloc_next_append_blk-IsReserved id time sz d v less in
    let (k, suc_k) = last_index at d1 i in
    let s = d1.chunk_size in
    let q = d1.data_start_offset / s in
    let ends : d1.end_offset ≡ q * s + k * s + s =
      i.valid.at_end ∙ ap (λ l. (q + l) * s) (sym suc_k) ∙ in_chunks q k s in
    let r = at + s - d1.end_offset in
    let inside : r < s = omega (arith, i.before_end, i.in_last, i.valid.size_pos) in
    let where_at : q * s + (k * s + r) ≡ at = omega (arith, i.before_end, i.in_last) in
    let (c, g, found) = place_at d1 k r inside (omega arith) in
    let found_at : offset_to_chunk at d1 ≡ some (c, k, r) =
      ap (λ o. offset_to_chunk o d1) (sym where_at) ∙ found in
    let enough : sz ≤ d1.reserved_sz = omega (arith, i.reserved_more) in
    let d2 = record d1 {
      reserved_sz = d1.reserved_sz - sz;
      write_sz_in_total = d1.write_sz_in_total + sz;
    } in
    (
      at,
      d1,
      d2,
      c,
      k,
      r,
      e,
      pwrite-eq sz at d1 enough found_at (omega (arith, i.before_end, i.in_last)),
      i,
      record {
        valid = written-IsValid sz d1 i.valid enough;
        last_chunk = g;
        is_last = suc_k;
        fits = omega (arith, i.before_end, i.in_last);
        place = omega (arith, i.in_last);
        next_byte = omega arith;
        reserved_less = omega arith;
      },
    )
  where
    last_index :
        (at : ℕ) (d1 : Descriptor)
        → IsReserved sz at d d1
        → (k : ℕ) × (suc k ≡ length d1.journal_chunks)
    last_index at d1 i = elim (ℕ_discrete (length d1.journal_chunks) 0) [
      | yes z ↦ absurd (ground (arith, i.valid.tail_ge, i.before_end, i.next_byte))
      | no nz ↦ (length d1.journal_chunks - 1, omega arith)
    ]
