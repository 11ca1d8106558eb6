-- ===== src/Journal/Truncate.antt =====
-- Giving up the front of a journal: `truncate` of `JournalVirtualDev::Descriptor`, and the other uses of
-- its offsets.
pub mod Released
pub mod Kept
use home_store.Prelude.{
  ℕ, zero, suc, ◌+◌, ◌-◌, ◌*◌, ◌/◌, ◌%◌, ◌^◌, Bool, true, false, ◌||◌, ◌&&◌, ltb, leb, ◌==◌,
  if◌then◌else◌, Option, none, some, List, [], ◌∷◌, length, get_elem?, min,
}
use home_store.Journal.{
  Chunk, Descriptor, round_down, round_up, tail_offset, offset_to_chunk, update_data_start_offset,
}

-- The chunk at an index becomes a head.
abbrev pub mark_head : ℕ → ℕ → List Chunk → List Chunk
mark_head logdev k [] = []
mark_head logdev zero (c ∷ cs) = record c { is_head = true; logdev_id = logdev } ∷ cs
mark_head logdev (suc k) (c ∷ cs) = c ∷ mark_head logdev k cs

-- Whether a chunk is covered, by the offset of its end and the size of the hole before it.
abbrev pub is_covered : ℕ → ℕ → ℕ → Bool
is_covered truncate_offset cover hole =
    leb cover truncate_offset || leb cover (truncate_offset + hole)

-- One round of the loop of `truncate`: what the rest keeps, releases, and leaves of the total size.
abbrev pub keep_or_release :
    Bool → Chunk → List Chunk × List Chunk × ℕ → List Chunk × List Chunk × ℕ
keep_or_release true c (kept, released, total) = (kept, c ∷ released, total)
keep_or_release false c (kept, released, total) = (c ∷ kept, released, total)

-- The loop over the chunks, from the offset that is covered so far: the last chunk counts up to the tail.
unfoldable pub release_covered : ℕ → ℕ → ℕ → ℕ → ℕ → List Chunk → List Chunk × List Chunk × ℕ
release_covered size truncate_offset tail_off cover total [] = ([], [], total)
release_covered size truncate_offset tail_off cover total (c ∷ []) =
    let gone = is_covered truncate_offset (cover + tail_off % size) 0 in
    keep_or_release gone c ([], [], if gone then total - size else total)
release_covered size truncate_offset tail_off cover total (c ∷ d ∷ cs) =
    let gone = is_covered truncate_offset (cover + size) (size - c.end_of_chunk) in
    keep_or_release gone c (
      release_covered size truncate_offset tail_off (cover + size)
        (if gone then total - size else total) (d ∷ cs))

-- The chunk that is to be the new head, whether the offset moves on to it, and the size that goes.
abbrev pub new_head : ℕ → Descriptor → Chunk × ℕ × ℕ → ℕ × Bool × ℕ
new_head truncate_offset d (c, index, offset_in_chunk) =
    let size_to_truncate = truncate_offset - d.data_start_offset in
    if leb c.end_of_chunk offset_in_chunk
    then if leb (index + 1) (length d.journal_chunks - 1)
      then (index + 1, true, size_to_truncate + (d.chunk_size - c.end_of_chunk))
      else (index, false, size_to_truncate)
    else (index, false, size_to_truncate)

-- From the new head on: the chunks that are released, and the descriptor.
abbrev pub cut : ℕ → ℕ × Bool × ℕ → Descriptor → Option (List Chunk × Descriptor)
cut truncate_offset (index, moves, size_to_truncate) d =
    let size = d.chunk_size in
    let tail_off = d.data_start_offset + d.write_sz_in_total + d.reserved_sz in
    let (kept, released, total) =
      release_covered size truncate_offset tail_off (round_down d.data_start_offset size)
        d.total_size (mark_head d.logdev_id index d.journal_chunks) in
    let offset = if moves then round_up truncate_offset size else truncate_offset in
    if leb offset d.end_offset
    then elim (update_data_start_offset offset
        (record d { journal_chunks = kept; total_size = total })) [
          | none ↦ none
          | some d' ↦ some (
            released,
            record d' {
              write_sz_in_total = (d.write_sz_in_total + 2 ^ 64 - size_to_truncate) % 2 ^ 64;
              truncate_done = true;
            },
          )
        ]
    else none

-- What is returned is the new start offset, which the descriptor has.
unfoldable pub truncate : ℕ → Descriptor → Option (List Chunk × Descriptor)
unfolding offset_to_chunk update_data_start_offset release_covered
truncate truncate_offset d =
    if leb d.data_start_offset truncate_offset
    then elim (offset_to_chunk truncate_offset d) [
      | none ↦ none
      | some place ↦ cut truncate_offset (new_head truncate_offset d place) d
    ]
    else none

unfoldable pub is_offset_at_last_chunk : ℕ → Descriptor → Bool
unfolding offset_to_chunk
is_offset_at_last_chunk offset d = elim (offset_to_chunk offset d) [
  | none ↦ true
  | some (c, index, off) ↦ index == length d.journal_chunks - 1
]

unfoldable pub is_alloc_accross_chunk : ℕ → Descriptor → Option Bool
unfolding tail_offset offset_to_chunk
is_alloc_accross_chunk size d = elim (tail_offset d) [
  | none ↦ none
  | some tail ↦ (elim (offset_to_chunk tail d) [
    | none ↦ none
    | some (c, index, offset_in_chunk) ↦ some (ltb d.chunk_size (offset_in_chunk + size))
  ])
]

-- The loop of `dev_offset` over the chunks.
unfoldable pub skip_data : ℕ → ℕ → ℕ → ℕ → List Chunk → ℕ
skip_data size start remaining vdev_offset [] = vdev_offset
skip_data size start remaining vdev_offset (c ∷ cs) =
    let num_data_bytes = min c.end_of_chunk size - start in
    if ltb remaining num_data_bytes
    then vdev_offset + remaining
    else skip_data size 0 (remaining - num_data_bytes) (vdev_offset + (size - start)) cs

unfoldable pub dev_offset : ℕ → Descriptor → ℕ
unfolding skip_data
dev_offset nbytes d =
    if nbytes == 0
    then d.data_start_offset
    else skip_data d.chunk_size (d.data_start_offset % d.chunk_size) nbytes d.data_start_offset
        d.journal_chunks

-- `sync_next_read` of at most this size, with a buffer or without one: the size that is read, none for
-- the end of the journal, and the cursor behind it.
unfoldable pub sync_next_read : Bool → ℕ → Descriptor → Option (Option ℕ × Descriptor)
unfolding offset_to_chunk
sync_next_read buf size_rd d = elim d.journal_chunks [
  | [] ↦ some (none, d)
  | _ ∷ _ ↦
      if ltb d.end_offset d.seek_cursor
      then none
      else if leb d.end_offset d.seek_cursor
      then some (none, d)
      else elim (offset_to_chunk d.seek_cursor d) [
        | none ↦ none
        | some (c, index, offset_in_chunk) ↦
            (let left = (c.end_of_chunk + 2 ^ 64 - offset_in_chunk) % 2 ^ 64 in
              let hole = d.chunk_size - c.end_of_chunk in
              let across = leb left size_rd in
              let size = if across then left else size_rd in
              let cursor = if across && size == 0 then d.seek_cursor + hole else d.seek_cursor in
              if leb c.end_of_chunk d.chunk_size
              then if buf
                then elim (offset_to_chunk cursor d) [
                  | none ↦ none
                  | some place ↦ some (
                    some size,
                    record d { seek_cursor = cursor + size + (if across then hole else 0) },
                  )
                ]
                else some (some size, record d { seek_cursor = cursor })
              else none)
      ]
]
