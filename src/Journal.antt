-- ===== src/Journal.antt =====
-- The journal device: `JournalVirtualDev::Descriptor` of src/lib/device/journal_vdev.cpp, the list of chunks
-- of one log device with its offsets. All chunks have the size of the device's chunks; a chunk from the
-- pool has had its private data reset. Reads and writes of the bytes are left out.
pub mod Offsets
pub mod Alloc
pub mod Write
pub mod Truncate
mod Tests
use home_store.Prelude.{
  ℕ, zero, suc, ◌+◌, ◌-◌, ◌*◌, ◌/◌, ◌%◌, Bool, true, false, not, ◌&&◌, ◌||◌, ltb, leb, ◌==◌,
  if◌then◌else◌, Option, none, some, List, [], ◌∷◌, ◌++◌, length, get_elem?, min,
}

-- `JournalChunkPrivate` with the chunk's number.
pub record Chunk : Type 0 where
  pub chunk_id : ℕ
  pub logdev_id : ℕ
  pub is_head : Bool
  pub created_at : ℕ
  pub end_of_chunk : ℕ
  pub next_chunk : ℕ

pub record Descriptor : Type 0 where
  pub logdev_id : ℕ
  pub chunk_size : ℕ
  pub journal_chunks : List Chunk
  pub seek_cursor : ℕ
  pub data_start_offset : ℕ
  pub end_offset : ℕ
  pub write_sz_in_total : ℕ
  pub reserved_sz : ℕ
  pub total_size : ℕ
  pub truncate_done : Bool

abbrev pub round_down : ℕ → ℕ → ℕ
round_down x size = x / size * size

abbrev pub round_up : ℕ → ℕ → ℕ
round_up x size = (x + size - 1) / size * size

-- A chunk as the pool hands it out, by its number and time.
abbrev pub pooled : ℕ → ℕ → ℕ → Chunk
pooled size id time = record {
  chunk_id = id;
  logdev_id = 0;
  is_head = false;
  created_at = time;
  end_of_chunk = size;
  next_chunk = 0;
}

-- `none` here and below is a failed release assertion, or the use of a null chunk.
unfoldable pub tail_offset : Descriptor → Option ℕ
tail_offset d =
    let tail = d.data_start_offset + d.write_sz_in_total + d.reserved_sz in
    if leb tail d.end_offset then some tail else none

unfoldable pub used_size : Descriptor → ℕ
used_size d = d.write_sz_in_total + d.reserved_sz

-- A change of the last chunk of a list.
abbrev pub on_last : (Chunk → Chunk) → List Chunk → List Chunk
on_last f [] = []
on_last f (c ∷ []) = f c ∷ []
on_last f (c ∷ d ∷ cs) = c ∷ on_last f (d ∷ cs)

-- What the chunk that was the last one is told of the new one.
abbrev pub linked : ℕ → ℕ → Chunk → Chunk
linked id offset_in_chunk c = record c {
  next_chunk = id;
  end_of_chunk = if offset_in_chunk == 0 then c.end_of_chunk else offset_in_chunk;
}

abbrev pub headed : ℕ → ℕ → Chunk → Chunk
headed logdev size c = record c { is_head = true; logdev_id = logdev; end_of_chunk = size }

-- The number and the time of the chunk that the pool hands out are given.
unfoldable pub append_chunk : ℕ → ℕ → Descriptor → Option Descriptor
unfolding tail_offset
append_chunk id time d =
    let new_chunk = pooled d.chunk_size id time in
    let grown = record d {
      total_size = d.total_size + d.chunk_size;
      end_offset = d.end_offset + d.chunk_size;
    } in
    elim d.journal_chunks [
      | [] ↦ some (record grown { journal_chunks = headed d.logdev_id d.chunk_size new_chunk ∷ [] })
      | c ∷ cs ↦ (elim (tail_offset grown) [
        | none ↦ none
        | some tail ↦
            (let offset_in_chunk = tail % d.chunk_size in
              some (record grown {
                journal_chunks = on_last (linked id offset_in_chunk) (c ∷ cs) ++ new_chunk ∷ [];
                write_sz_in_total =
                    if offset_in_chunk == 0
                    then d.write_sz_in_total
                    else d.write_sz_in_total + (d.chunk_size - offset_in_chunk);
              }))
      ])
    ]

-- The reservation once there is room.
abbrev pub reserve : ℕ → Descriptor → Option (ℕ × Descriptor)
reserve sz d = elim (tail_offset d) [
  | none ↦ none
  | some tail ↦
      if leb d.data_start_offset tail
      then some (tail, record d { reserved_sz = d.reserved_sz + sz })
      else none
]

unfoldable pub alloc_next_append_blk : ℕ → ℕ → ℕ → Descriptor → Option (ℕ × Descriptor)
unfolding tail_offset append_chunk
alloc_next_append_blk id time sz d =
    if ltb sz d.chunk_size
    then elim (tail_offset d) [
      | none ↦ none
      | some tail ↦
          if leb d.end_offset (tail + sz)
          then elim (append_chunk id time d) [
            | none ↦ none
            | some d' ↦ (elim (tail_offset d') [
              | none ↦ none
              | some tail' ↦ if ltb (tail' + sz) d'.end_offset then reserve sz d' else none
            ])
          ]
          else reserve sz d
    ]
    else none

-- The walk over the chunks: the chunk, its index and the offset in it.
unfoldable pub chunk_at : ℕ → ℕ → ℕ → List Chunk → Option (Chunk × ℕ × ℕ)
chunk_at size index off [] = none
chunk_at size index off (c ∷ cs) =
    if leb size off then chunk_at size (index + 1) (off - size) cs else some (c, index, off)

-- An offset before the first chunk is a very large one in the code's unsigned arithmetic, and so in no
-- chunk.
unfoldable pub offset_to_chunk : ℕ → Descriptor → Option (Chunk × ℕ × ℕ)
unfolding chunk_at
offset_to_chunk log_offset d =
    let aligned = round_down d.data_start_offset d.chunk_size in
    if leb aligned log_offset
    then chunk_at d.chunk_size 0 (log_offset - aligned) d.journal_chunks
    else none

-- A write of this length may go to the chunk.
unfoldable pub process_pwrite_offset : ℕ → ℕ → Descriptor → Option ((Chunk × ℕ × ℕ) × Descriptor)
unfolding offset_to_chunk
process_pwrite_offset len offset d = elim (offset_to_chunk offset d) [
  | none ↦ none
  | some (c, index, offset_in_chunk) ↦
      if leb len (d.chunk_size - offset_in_chunk)
      then some
          ((c, index, offset_in_chunk), record d { write_sz_in_total = d.write_sz_in_total + len })
      else none
]

unfoldable pub validate_append_size : ℕ → Descriptor → Bool
unfolding used_size
validate_append_size req_sz d = not (ltb d.total_size (used_size d + req_sz)) && d.reserved_sz == 0

-- `async_append`: whether there was room, and where the bytes go.
unfoldable pub append : ℕ → Descriptor → Option (Option (Chunk × ℕ × ℕ) × Descriptor)
unfolding validate_append_size process_pwrite_offset
append size d =
    if validate_append_size size d
    then elim (process_pwrite_offset size d.seek_cursor d) [
      | none ↦ none
      | some (place, d') ↦ some (some place, record d' { seek_cursor = d.seek_cursor + size })
    ]
    else some (none, d)

-- `async_pwrite`, `async_pwritev`, `sync_pwrite` and `sync_pwritev`: where the bytes go.
unfoldable pub pwrite : ℕ → ℕ → Descriptor → Option ((Chunk × ℕ × ℕ) × Descriptor)
unfolding process_pwrite_offset
pwrite size offset d =
    if leb size d.reserved_sz
    then process_pwrite_offset size offset (record d { reserved_sz = d.reserved_sz - size })
    else none

unfoldable pub update_data_start_offset : ℕ → Descriptor → Option Descriptor
update_data_start_offset offset d = elim d.journal_chunks [
  | [] ↦ some (record d {
    data_start_offset = round_up offset d.chunk_size;
    end_offset = round_up offset d.chunk_size;
  })
  | c ∷ cs ↦
      (let e = round_down offset d.chunk_size + length (c ∷ cs) * d.chunk_size in
        if e - round_down offset d.chunk_size == d.total_size
        then some (record d { data_start_offset = offset; end_offset = e })
        else none)
]

unfoldable pub update_tail_offset : ℕ → Descriptor → Option Descriptor
update_tail_offset tail d =
    if leb d.data_start_offset tail
    then some (record d { write_sz_in_total = tail - d.data_start_offset; seek_cursor = tail })
    else if tail == 0
    then some (record d { seek_cursor = tail })
    else none
