-- ===== src/LogGroup/Tests.antt =====
-- Groups of records of src/lib/logstore/log_group.cpp at concrete inputs.
use home_store.Prelude.{
  ℕ, ◌+◌, ◌≤◌, ◌≡◌, refl, Bool, true, false, some, get_elem?, List, [], ◌∷◌, arith, replicate,
}
use home_store.LogGroup.{
  LogRecord, SerializedLogRecord, LogGroup, start, reset, add_records, finish, data_offset,
  read_record,
}
use home_store.LogGroup.Layout.Reads.{written, read_record-add_records}

-- Groups with a flush multiple of 4 bytes.
abbrev empty_group : LogGroup
empty_group = start 4 (record {
  flush_multiple_size = 0;
  cur_buf_len = 0;
  footer_buf_len = 0;
  record_slots = [];
  inline_data = [];
  oob_data = [];
  inline_data_pos = 0;
  oob_data_pos = 0;
  nrecords = 0;
  max_records = 0;
  actual_data_size = 0;
  first_iov_len = 0;
  start_log_idx = 0;
})

abbrev log_record : List ℕ → Bool → ℕ → LogRecord
log_record bytes aligned seq = record {
  bytes = bytes;
  store_id = 5;
  seq_num = seq;
  aligned = aligned;
}

-- One record of 3 bytes goes into the buffer, an aligned one of 4 bytes out of band.
abbrev two_records : List LogRecord
two_records = log_record (1 ∷ 2 ∷ 3 ∷ []) false 10 ∷ log_record (4 ∷ 5 ∷ 6 ∷ 7 ∷ []) true 11 ∷ []

abbrev two_group : LogGroup
two_group = (add_records 4 two_records 100 (reset 2 empty_group)).1

two_slots :
    two_group.record_slots
    ≡ record { size = 3; offset = 88; is_inlined = true; store_seq_num = 10; store_id = 5 }
      ∷ record { size = 4; offset = 0; is_inlined = false; store_seq_num = 11; store_id = 5 }
      ∷ []
unfolding add_records reset
two_slots = refl

two_pos : two_group.inline_data_pos ≡ 91
unfolding add_records reset
two_pos = refl

two_offset : (finish 7 0 two_group).oob_data_offset ≡ 92
unfolding add_records reset finish
two_offset = refl

read_record-add_records_example :
    let h = finish 7 0 two_group in
    ((add_records 4 two_records 100 (reset 2 empty_group)).0 ≡ 2)
    × (s : SerializedLogRecord) × (get_elem? two_group.record_slots 1 ≡ some s)
    × (s.store_id ≡ 5)
    × (s.store_seq_num ≡ 11)
    × (read_record 4 h s (
          written
            (replicate 88 0)
            two_group.inline_data
            (9 ∷ [])
            two_group.oob_data
            (replicate 24 8))
        ≡ 4 ∷ 5 ∷ 6 ∷ 7 ∷ [])
    × (data_offset h s + s.size ≤ h.group_size)
read_record-add_records_example =
    read_record-add_records 4 7 0 4 100 2 empty_group two_records 1
      (log_record (4 ∷ 5 ∷ 6 ∷ 7 ∷ []) true 11) (replicate 88 0) (9 ∷ []) (replicate 24 8)
      (ground arith) (ground arith) (ground arith) (ground arith) refl refl
      (omega (arith, two_pos, two_offset))
