-- ===== src/LogGroup/Layout/Reads.antt =====
-- Reading the records of a group back.
use native.Mathlib.Nat.{div-mul-le_self, lt-div-mul-add}
use home_store.Prelude.{
  ℕ, zero, suc, ◌+◌, ◌-◌, ◌^◌, ◌≤◌, ◌<◌, ◌≡◌, refl, ap, ◌∙◌, Bool, ltb, true, false, if◌then◌else◌,
  some, get_elem?, List, [], ◌∷◌, ◌++◌, length, take, drop, arith, min, subst,
}
use home_store.LogGroup.{
  LogRecord, SerializedLogRecord, LogGroup, Header, data_start, reset, add_records, u32, round_up,
  footer_size, max_records_in_a_batch, round_down, initial_read_size, new_iovec_for_footer, finish,
  data_offset, read_record,
}
use home_store.LogGroup.Slices.{slice, slice-append, slice-behind, slice-take, slice-drop}
use home_store.LogGroup.Layout.{IsStored, AllStored, bytes_of}
use home_store.LogGroup.Layout.Adds.{
  add_records-IsFilled, add_records-sizes, reset-IsFilled, reset-sizes,
}

round_up_bounds : (x f : ℕ) → 0 < f → (x ≤ round_up x f) × (round_up x f < x + f)
round_up_bounds x f h =
    let y = x + f - 1 in
    (omega (arith, lt-div-mul-add {a = y} {b = f} h), omega (arith, div-mul-le_self y f))

inner_footer : (g : LogGroup) → new_iovec_for_footer g ≡ false → g.oob_data_pos ≡ 0
unfolding new_iovec_for_footer
inner_footer g h = ground arith

lays :
    (own : Bool) (inline iov oob f footer : ℕ)
    → 0 < f
    → iov ≡ inline
    → (own ≡ false → oob ≡ 0)
    → inline + oob + footer_size + f + footer < 2 ^ 31
    → (inline ≤ u32 (round_up (if own then iov else iov + footer_size) f))
      × (u32 (round_up (if own then iov else iov + footer_size) f) + oob ≤ (
          if own
          then u32 (u32 (round_up (if own then iov else iov + footer_size) f) + oob + footer)
          else u32 (round_up (if own then iov else iov + footer_size) f)))
      × ((if own
            then u32 (u32 (round_up (if own then iov else iov + footer_size) f) + oob + footer)
            else u32 (round_up (if own then iov else iov + footer_size) f))
          < 2 ^ 31)
lays true inline iov oob f footer pos e none_yet small =
    let (ge, lt) = round_up_bounds iov f pos in (omega arith, omega arith, omega arith)
lays false inline iov oob f footer pos e none_yet small =
    let (ge, lt) = round_up_bounds (iov + footer_size) f pos in
    let z = none_yet refl in (omega arith, omega arith, omega arith)

-- How the header lays out a group that is small enough.
finish-lays_out :
    (logdev crc : ℕ) (g : LogGroup)
    → 0 < g.flush_multiple_size
    → g.first_iov_len ≡ g.inline_data_pos
    → g.inline_data_pos + g.oob_data_pos + footer_size + g.flush_multiple_size + g.footer_buf_len
      < 2 ^ 31
    → (g.inline_data_pos ≤ (finish logdev crc g).oob_data_offset)
      × ((finish logdev crc g).oob_data_offset + g.oob_data_pos ≤ (finish logdev crc g).group_size)
      × ((finish logdev crc g).group_size < 2 ^ 31)
unfolding finish
finish-lays_out logdev crc g pos iov small =
    lays (new_iovec_for_footer g) g.inline_data_pos g.first_iov_len g.oob_data_pos
      g.flush_multiple_size g.footer_buf_len pos iov (inner_footer g) small

some_is : {r r' : LogRecord} → some r ≡ some r' → r ≡ r'
some_is h = cc

slot_at :
    {start : ℕ} (inlined oob : List ℕ) (ss : List SerializedLogRecord) (rs : List LogRecord) (i : ℕ)
    {r : LogRecord}
    → AllStored start inlined oob ss rs
    → get_elem? rs i ≡ some r
    → (s : SerializedLogRecord) × (get_elem? ss i ≡ some s) × IsStored start inlined oob s r
slot_at inlined oob [] [] i h e = absurd (cc)
slot_at inlined oob [] (x ∷ rs) i h e = absurd h
slot_at inlined oob (x ∷ ss) [] i h e = absurd h
slot_at {start} inlined oob (s ∷ ss) (x ∷ rs) zero (h, k) e =
    (s, refl, subst (IsStored start inlined oob s) (some_is e) h)
slot_at inlined oob (s ∷ ss) (x ∷ rs) (suc i) (h, k) e = slot_at inlined oob ss rs i k e

-- The bytes of a group: what stands before the data, the data in the buffer, its rest, the data out of
-- band, and what follows.
abbrev pub written : List ℕ → List ℕ → List ℕ → List ℕ → List ℕ → List ℕ
written front inlined rest oob back = front ++ (inlined ++ (rest ++ (oob ++ back)))

inline-read :
    (pos n : ℕ) (front inlined rest oob back : List ℕ)
    → pos + n ≤ length inlined
    → slice (length front + pos) n (written front inlined rest oob back) ≡ slice pos n inlined
inline-read pos n front inlined rest oob back h =
    slice-behind pos n front (inlined ++ (rest ++ (oob ++ back)))
    ∙ slice-append pos n inlined (rest ++ (oob ++ back)) h

oob-read :
    (off n : ℕ) (front inlined rest oob back : List ℕ)
    → off + n ≤ length oob
    → slice
        (length front + (length inlined + (length rest + off)))
        n
        (written front inlined rest oob back)
      ≡ slice off n oob
oob-read off n front inlined rest oob back h =
    slice-behind (length inlined + (length rest + off)) n front (inlined ++ (rest ++ (oob ++ back)))
    ∙ slice-behind (length rest + off) n inlined (rest ++ (oob ++ back))
    ∙ slice-behind off n rest (oob ++ back)
    ∙ slice-append off n oob back h

-- Both ways to read give the same slice of the group.
read_record-slice :
    (align : ℕ) (h : Header) (s : SerializedLogRecord) (group : List ℕ)
    → 0 < align
    → read_record align h s group ≡ slice (data_offset h s) s.size group
unfolding read_record
read_record-slice align h s group pos =
    let at = data_offset h s in
    let rounded = round_down at align in
    let le : rounded ≤ at = omega (arith, div-mul-le_self at align) in
    let (fits, _) = round_up_bounds (s.size + at - rounded) align pos in
    let near = slice-take at s.size initial_read_size group in
    let far =
      slice-take (at - rounded) s.size (round_up (s.size + at - rounded) align) (drop rounded group)
        (omega arith)
      ∙ slice-drop rounded (at - rounded) s.size group
      ∙ ap (λ o. slice o s.size group) (omega arith) in
    go (ltb (at + s.size) initial_read_size) refl near far
  where
    go :
        (b : Bool)
        → ltb (data_offset h s + s.size) initial_read_size ≡ b
        → (data_offset h s + s.size ≤ initial_read_size
            → slice (data_offset h s) s.size (take initial_read_size group)
              ≡ slice (data_offset h s) s.size group)
        → slice (data_offset h s - round_down (data_offset h s) align) s.size (
            take
              (round_up (s.size + data_offset h s - round_down (data_offset h s) align) align)
              (drop (round_down (data_offset h s) align) group))
          ≡ slice (data_offset h s) s.size group
        → (if b
            then take s.size (drop (data_offset h s) (take initial_read_size group))
            else take s.size (
                drop (data_offset h s - round_down (data_offset h s) align) (
                  take
                    (round_up (s.size + data_offset h s - round_down (data_offset h s) align) align)
                    (drop (round_down (data_offset h s) align) group))))
          ≡ slice (data_offset h s) s.size group
    go true e near far = near (ground arith)
    go false e near far = far

-- Where a stored record is read.
read-stored :
    {start : ℕ} (h : Header) (s : SerializedLogRecord) (r : LogRecord)
    (front inlined rest oob back : List ℕ)
    → IsStored start inlined oob s r
    → length front ≡ start
    → start + length inlined + length rest ≡ h.oob_data_offset
    → h.oob_data_offset + length oob < 2 ^ 31
    → (slice (data_offset h s) s.size (written front inlined rest oob back) ≡ r.bytes)
      × (data_offset h s + s.size ≤ h.oob_data_offset + length oob)
unfolding data_offset
read-stored {start} h s r front inlined rest oob back v at off small = go s.is_inlined refl
  where
    go :
        (b : Bool)
        → s.is_inlined ≡ b
        → (slice
              (u32 (s.offset + (if s.is_inlined then 0 else h.oob_data_offset)))
              s.size
              (written front inlined rest oob back)
            ≡ r.bytes)
          × (u32 (s.offset + (if s.is_inlined then 0 else h.oob_data_offset)) + s.size
              ≤ h.oob_data_offset + length oob)
    go true e =
        let (pos, place, le, is) = v.in_buffer e in
        let off_is : u32 (s.offset + (if s.is_inlined then 0 else h.oob_data_offset))
            ≡ length front + pos =
          ground arith in
        (
          ap (λ o. slice o s.size (written front inlined rest oob back)) off_is
              ∙ ap (λ n. slice (length front + pos) n (written front inlined rest oob back))
                  v.size_is
              ∙ inline-read pos (length r.bytes) front inlined rest oob back le
              ∙ is,
          omega (arith, off_is, v.size_is),
        )
    go false e =
        let (le, is) = v.out_of_band e in
        let off_is : u32 (s.offset + (if s.is_inlined then 0 else h.oob_data_offset))
            ≡ length front + (length inlined + (length rest + s.offset)) =
          ground arith in
        (
          ap (λ o. slice o s.size (written front inlined rest oob back)) off_is
              ∙ ap
                  (λ n.
                    slice (length front + (length inlined + (length rest + s.offset))) n
                      (written front inlined rest oob back))
                  v.size_is
              ∙ oob-read s.offset (length r.bytes) front inlined rest oob back le
              ∙ is,
          omega (arith, off_is, v.size_is),
        )

-- All the records are added to a group that is reset, as many as it takes, and the one at i has a slot
-- with its store and number. When the group is written, with the data of the buffer behind the header and
-- the slots and the data out of band where the header says, whatever stands in the rest, reading the
-- record of that slot gives its bytes, and they lie within the size of the group. The flush multiple and
-- the alignment are not 0 and the group is smaller than 2 ^ 31 bytes.
pub read_record-add_records :
    (optimal logdev crc align log_idx max_records : ℕ) (g : LogGroup) (rs : List LogRecord) (i : ℕ)
    (r : LogRecord) (front rest back : List ℕ)
    → 0 < align
    → 0 < g.flush_multiple_size
    → length rs ≤ min max_records max_records_in_a_batch
    → data_start max_records + bytes_of rs + footer_size + g.flush_multiple_size + g.footer_buf_len
      < 2 ^ 31
    → get_elem? rs i ≡ some r
    → length front ≡ data_start max_records
    → (add_records optimal rs log_idx (reset max_records g)).1.inline_data_pos + length rest
      ≡ (finish logdev crc (add_records optimal rs log_idx (reset max_records g)).1).oob_data_offset
    → let filled = add_records optimal rs log_idx (reset max_records g) in
      let h = finish logdev crc filled.1 in
      (filled.0 ≡ length rs)
      × (s : SerializedLogRecord) × (get_elem? filled.1.record_slots i ≡ some s)
      × (s.store_id ≡ r.store_id)
      × (s.store_seq_num ≡ r.seq_num)
      × (read_record align h s (written front filled.1.inline_data rest filled.1.oob_data back)
          ≡ r.bytes)
      × (data_offset h s + s.size ≤ h.group_size)
read_record-add_records optimal logdev crc align log_idx max_records g rs i r front rest back
      align_pos pos fits small is_r at off =
    let g0 = reset max_records g in
    let filled = add_records optimal rs log_idx g0 in
    let h = finish logdev crc filled.1 in
    let (max_is, flush_is, footer_is) = reset-sizes max_records g in
    let (n, v) =
      add_records-IsFilled optimal rs log_idx g0 [] (reset-IsFilled max_records g (omega arith))
        (omega arith) (omega (arith, max_is)) in
    let (flush, footer) = add_records-sizes optimal rs log_idx g0 in
    let (ge, in_group, group_small) =
      finish-lays_out logdev crc filled.1 (omega (arith, flush, flush_is)) v.iov
        (omega (arith, flush, flush_is, footer, footer_is, v.inline_pos, v.oob_pos, v.total)) in
    let (s, is_slot, stored) =
      slot_at filled.1.inline_data filled.1.oob_data filled.1.record_slots rs i v.slots is_r in
    let group = written front filled.1.inline_data rest filled.1.oob_data back in
    let (bytes_are, le) =
      read-stored h s r front filled.1.inline_data rest filled.1.oob_data back stored at
        (omega (arith, v.inline_pos, off)) (omega (arith, v.oob_pos)) in
    (
      n,
      s,
      is_slot,
      stored.store_is,
      stored.seq_is,
      read_record-slice align h s group align_pos ∙ bytes_are,
      omega (arith, v.oob_pos),
    )
