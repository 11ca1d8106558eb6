-- ===== src/LogGroup.antt =====
-- The group of log records that a log device writes at once: `LogGroup` of src/lib/logstore/log_group.cpp
-- and the reading of a record from it in src/lib/logstore/log_dev.cpp. The buffers are the bytes that the
-- records put into them; a group is written as its first buffer, the data out of band, and its footer.
pub mod Slices
pub mod Layout
mod Tests
use home_store.Prelude.{
  ℕ, zero, suc, ◌+◌, ◌-◌, ◌*◌, ◌/◌, ◌%◌, ◌^◌, Bool, true, false, not, ◌||◌, ltb, leb, ◌==◌,
  if◌then◌else◌, List, [], ◌∷◌, ◌++◌, length, take, drop, min, max,
}

abbrev pub initial_read_size : ℕ
initial_read_size = 4096

abbrev pub header_size : ℕ
header_size = 48

abbrev pub record_size : ℕ
record_size = 20

abbrev pub footer_size : ℕ
footer_size = 24

abbrev pub inline_log_buf_size : ℕ
inline_log_buf_size = 8192

abbrev pub max_records_in_a_batch : ℕ
max_records_in_a_batch = (initial_read_size - header_size) / record_size

abbrev pub u32 : ℕ → ℕ
u32 n = n % 2 ^ 32

abbrev pub round_up : ℕ → ℕ → ℕ
round_up x size = (x + size - 1) / size * size

-- A record that is to be written; `aligned` says whether its buffer may be written as it is.
pub record LogRecord : Type 0 where
  pub bytes : List ℕ
  pub store_id : ℕ
  pub seq_num : ℕ
  pub aligned : Bool

pub record SerializedLogRecord : Type 0 where
  pub size : ℕ
  pub offset : ℕ
  pub is_inlined : Bool
  pub store_seq_num : ℕ
  pub store_id : ℕ

-- `inline_data` is what the buffer holds behind the slots, and `oob_data` is the bytes of the other
-- iovecs.
pub record LogGroup : Type 0 where
  pub flush_multiple_size : ℕ
  pub cur_buf_len : ℕ
  pub footer_buf_len : ℕ
  pub record_slots : List SerializedLogRecord
  pub inline_data : List ℕ
  pub oob_data : List ℕ
  pub inline_data_pos : ℕ
  pub oob_data_pos : ℕ
  pub nrecords : ℕ
  pub max_records : ℕ
  pub actual_data_size : ℕ
  pub first_iov_len : ℕ
  pub start_log_idx : ℕ

-- The optimal size of inlined data is configured.
unfoldable pub is_inlineable : ℕ → ℕ → LogRecord → Bool
is_inlineable optimal flush_multiple_size r =
    ltb (length r.bytes) optimal || not (length r.bytes % flush_multiple_size == 0) || not r.aligned

-- Where the data start, behind the header and the slots.
abbrev pub data_start : ℕ → ℕ
data_start max_records = header_size + record_size * max_records

abbrev pub start : ℕ → LogGroup → LogGroup
start flush_multiple_size g = record g {
  flush_multiple_size = flush_multiple_size;
  cur_buf_len = u32 (round_up inline_log_buf_size flush_multiple_size);
  footer_buf_len = u32 (round_up footer_size flush_multiple_size);
}

unfoldable pub reset : ℕ → LogGroup → LogGroup
reset max_records g = record g {
  cur_buf_len = u32 (round_up inline_log_buf_size g.flush_multiple_size);
  record_slots = [];
  inline_data = [];
  oob_data = [];
  inline_data_pos = u32 (data_start max_records);
  oob_data_pos = 0;
  nrecords = 0;
  max_records = min max_records max_records_in_a_batch;
  actual_data_size = 0;
  first_iov_len = u32 (data_start max_records);
}

unfoldable pub create_overflow_buf : ℕ → LogGroup → LogGroup
create_overflow_buf min_needed g = record g {
  cur_buf_len = u32 (round_up (max min_needed (u32 (g.cur_buf_len * 2))) g.flush_multiple_size);
}

-- The slot of a record, whose offset has 31 bits.
abbrev pub slot : Bool → ℕ → LogRecord → SerializedLogRecord
slot inlined offset r = record {
  size = u32 (length r.bytes);
  offset = offset % 2 ^ 31;
  is_inlined = inlined;
  store_seq_num = r.seq_num;
  store_id = r.store_id;
}

-- The record in its slot and its place.
abbrev pub place : Bool → LogRecord → LogGroup → LogGroup
place true r g = record g {
  record_slots = g.record_slots ++ slot true g.inline_data_pos r ∷ [];
  inline_data = g.inline_data ++ r.bytes;
  inline_data_pos = u32 (g.inline_data_pos + length r.bytes);
  first_iov_len = u32 (g.inline_data_pos + length r.bytes);
  nrecords = g.nrecords + 1;
}
place false r g = record g {
  record_slots = g.record_slots ++ slot false g.oob_data_pos r ∷ [];
  oob_data = g.oob_data ++ r.bytes;
  oob_data_pos = u32 (g.oob_data_pos + length r.bytes);
  nrecords = g.nrecords + 1;
}

-- The group with room for the record in its buffer, and with the number of its first record.
unfoldable pub make_room : LogRecord → ℕ → LogGroup → LogGroup
unfolding create_overflow_buf
make_room r log_idx g =
    let counted = record g { actual_data_size = u32 (g.actual_data_size + length r.bytes) } in
    let roomy =
      if leb counted.cur_buf_len (counted.inline_data_pos + length r.bytes)
      then create_overflow_buf (u32 (counted.inline_data_pos + length r.bytes)) counted
      else counted in
    if g.nrecords == 0 then record roomy { start_log_idx = log_idx } else roomy

unfoldable pub add_record : ℕ → LogRecord → ℕ → LogGroup → Bool × LogGroup
unfolding is_inlineable make_room
add_record optimal r log_idx g =
    if leb g.max_records g.nrecords
    then (false, g)
    else (true, place (is_inlineable optimal g.flush_multiple_size r) r (make_room r log_idx g))

-- Records with consecutive numbers, until one is refused, as the log device adds them: how many were
-- added.
unfoldable pub add_records : ℕ → List LogRecord → ℕ → LogGroup → ℕ × LogGroup
unfolding add_record
add_records optimal [] log_idx g = (0, g)
add_records optimal (r ∷ rs) log_idx g =
    let rest = add_records optimal rs (log_idx + 1) (add_record optimal r log_idx g).1 in
    if (add_record optimal r log_idx g).0 then (rest.0 + 1, rest.1) else (0, g)

-- The fields of the header that lay the group out.
pub record Header : Type 0 where
  pub n_log_records : ℕ
  pub start_log_idx : ℕ
  pub group_size : ℕ
  pub inline_data_offset : ℕ
  pub oob_data_offset : ℕ
  pub footer_offset : ℕ
  pub prev_grp_crc : ℕ
  pub logdev_id : ℕ

unfoldable pub new_iovec_for_footer : LogGroup → Bool
new_iovec_for_footer g =
    leb g.cur_buf_len (g.inline_data_pos + footer_size) || not (g.oob_data_pos == 0)

-- `finish` without the checksum of the group.
unfoldable pub finish : ℕ → ℕ → LogGroup → Header
unfolding new_iovec_for_footer
finish logdev prev_crc g =
    let own = new_iovec_for_footer g in
    let iov_len = u32 (
      round_up (if own then g.first_iov_len else g.first_iov_len + footer_size)
        g.flush_multiple_size) in
    record {
      n_log_records = g.nrecords;
      start_log_idx = g.start_log_idx;
      group_size = if own then u32 (iov_len + g.oob_data_pos + g.footer_buf_len) else iov_len;
      inline_data_offset = u32 (data_start g.max_records);
      oob_data_offset = iov_len;
      footer_offset = if own then u32 (iov_len + g.oob_data_pos) else g.inline_data_pos;
      prev_grp_crc = prev_crc;
      logdev_id = logdev;
    }

-- Where the data of a record lie in the group.
unfoldable pub data_offset : Header → SerializedLogRecord → ℕ
data_offset h s = u32 (s.offset + (if s.is_inlined then 0 else h.oob_data_offset))

abbrev pub round_down : ℕ → ℕ → ℕ
round_down x size = x / size * size

-- The data of a record, from what is read of the group's bytes: its start, or the aligned bytes that hold
-- the data.
unfoldable pub read_record : ℕ → Header → SerializedLogRecord → List ℕ → List ℕ
unfolding data_offset
read_record align h s group =
    let at = data_offset h s in
    let rounded = round_down at align in
    if ltb (at + s.size) initial_read_size
    then take s.size (drop at (take initial_read_size group))
    else take s.size
        (drop (at - rounded) (take (round_up (s.size + at - rounded) align) (drop rounded group)))
