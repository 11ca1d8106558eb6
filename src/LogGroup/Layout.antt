-- ===== src/LogGroup/Layout.antt =====
-- Where the records of a group lie.
pub mod Adds
pub mod Reads
use home_store.Prelude.{
  ℕ, zero, suc, ◌+◌, ◌-◌, ◌*◌, ◌%◌, ◌^◌, ◌≤◌, ◌<◌, ◌≡◌, refl, sym, ap, ◌∙◌, Bool, true, false, ◌==◌,
  if◌then◌else◌, List, [], ◌∷◌, ◌++◌, length, length-append, take, drop, arith, leb, min, max,
  append-nil, append_assoc, subst,
}
use home_store.LogGroup.{
  LogRecord, SerializedLogRecord, LogGroup, is_inlineable, data_start, reset, create_overflow_buf,
  slot, place, make_room, add_record, add_records, u32, max_records_in_a_batch,
}
use home_store.LogGroup.Slices.{slice, slice-append, slice-end}

-- The slot describes the record, whose data stand in their area; `start` is where the inlined data start.
pub record IsStored (start : ℕ) (inlined oob : List ℕ) (s : SerializedLogRecord) (r : LogRecord)
    : Type 0 where
  pub size_is : s.size ≡ length r.bytes
  pub store_is : s.store_id ≡ r.store_id
  pub seq_is : s.store_seq_num ≡ r.seq_num
  pub in_buffer :
      s.is_inlined ≡ true
      → (pos : ℕ) × (s.offset ≡ start + pos)
        × (pos + length r.bytes ≤ length inlined)
        × (slice pos (length r.bytes) inlined ≡ r.bytes)
  pub out_of_band :
      s.is_inlined ≡ false
      → (s.offset + length r.bytes ≤ length oob) × (slice s.offset (length r.bytes) oob ≡ r.bytes)

abbrev pub AllStored : ℕ → List ℕ → List ℕ → List SerializedLogRecord → List LogRecord → Type 0
AllStored start inlined oob [] [] = Unit {0}
AllStored start inlined oob (s ∷ ss) (r ∷ rs) =
    IsStored start inlined oob s r × AllStored start inlined oob ss rs
AllStored start inlined oob _ _ = ⊥

IsStored-more :
    {start : ℕ} {inlined oob : List ℕ} {s : SerializedLogRecord} {r : LogRecord} (xs ys : List ℕ)
    → IsStored start inlined oob s r
    → IsStored start (inlined ++ xs) (oob ++ ys) s r
IsStored-more {start} {inlined} {oob} {s} {r} xs ys v = record {
  size_is = v.size_is;
  store_is = v.store_is;
  seq_is = v.seq_is;
  in_buffer = λ h.
      let (pos, at, le, data_is) = v.in_buffer h in
      (
        pos,
        at,
        omega (arith, length-append inlined xs),
        slice-append pos (length r.bytes) inlined xs le ∙ data_is,
      );
  out_of_band = λ h.
      let (le, data_is) = v.out_of_band h in
      (
        omega (arith, length-append oob ys),
        slice-append s.offset (length r.bytes) oob ys le ∙ data_is,
      );
}

AllStored-add :
    {start : ℕ} (inlined oob xs ys : List ℕ) {s : SerializedLogRecord} {r : LogRecord}
    (ss : List SerializedLogRecord) (rs : List LogRecord)
    → AllStored start inlined oob ss rs
    → IsStored start (inlined ++ xs) (oob ++ ys) s r
    → AllStored start (inlined ++ xs) (oob ++ ys) (ss ++ s ∷ []) (rs ++ r ∷ [])
AllStored-add inlined oob xs ys [] [] h v = (v, tt)
AllStored-add inlined oob xs ys [] (x ∷ rs) h v = absurd h
AllStored-add inlined oob xs ys (x ∷ ss) [] h v = absurd h
AllStored-add inlined oob xs ys (x ∷ ss) (y ∷ rs) (h, k) v =
    (IsStored-more xs ys h, AllStored-add inlined oob xs ys ss rs k v)

abbrev pub bytes_of : List LogRecord → ℕ
bytes_of [] = 0
bytes_of (r ∷ rs) = length r.bytes + bytes_of rs

pub bytes_of-add :
    (rs : List LogRecord) (r : LogRecord) → bytes_of (rs ++ r ∷ []) ≡ bytes_of rs + length r.bytes
bytes_of-add [] r = omega arith
bytes_of-add (x ∷ rs) r = omega (arith, bytes_of-add rs r)

-- The group holds these records.
pub record IsFilled (start : ℕ) (g : LogGroup) (rs : List LogRecord) : Type 0 where
  pub inline_pos : g.inline_data_pos ≡ start + length g.inline_data
  pub iov : g.first_iov_len ≡ g.inline_data_pos
  pub oob_pos : g.oob_data_pos ≡ length g.oob_data
  pub counted : g.nrecords ≡ length rs
  pub total : length g.inline_data + length g.oob_data ≡ bytes_of rs
  pub slots : AllStored start g.inline_data g.oob_data g.record_slots rs

add_nil : (xs : List ℕ) → xs ++ [] ≡ xs
add_nil [] = refl
add_nil (x ∷ xs) = ap (λ l. x ∷ l) (add_nil xs)

pub place-IsFilled :
    {start : ℕ} (inlined : Bool) (r : LogRecord) (g : LogGroup) (rs : List LogRecord)
    → IsFilled start g rs
    → start + bytes_of rs + length r.bytes < 2 ^ 31
    → IsFilled start (place inlined r g) (rs ++ r ∷ [])
place-IsFilled {start} true r g rs v h =
    let len = length-append g.inline_data r.bytes in
    let pos : g.inline_data_pos < 2 ^ 31 = omega (arith, v.inline_pos, v.total) in
    let all =
      subst
        (λ oob.
          AllStored start (g.inline_data ++ r.bytes) oob
            (g.record_slots ++ slot true g.inline_data_pos r ∷ []) (rs ++ r ∷ []))
        (add_nil g.oob_data)
        (AllStored-add g.inline_data g.oob_data r.bytes [] g.record_slots rs v.slots (record {
          size_is = omega arith;
          store_is = refl;
          seq_is = refl;
          in_buffer = λ q. (
            length g.inline_data,
            omega (arith, v.inline_pos),
            omega (arith, len),
            slice-end g.inline_data r.bytes,
          );
          out_of_band = λ q. absurd (cc);
        })) in
    record {
      inline_pos = omega (arith, v.inline_pos, len, v.total);
      iov = refl;
      oob_pos = v.oob_pos;
      counted = omega (arith, v.counted, length-append rs (r ∷ []));
      total = omega (arith, v.total, len, bytes_of-add rs r);
      slots = all;
    }
place-IsFilled {start} false r g rs v h =
    let len = length-append g.oob_data r.bytes in
    let pos : g.oob_data_pos < 2 ^ 31 = omega (arith, v.oob_pos, v.total) in
    let at : g.oob_data_pos % 2 ^ 31 ≡ length g.oob_data = omega (arith, v.oob_pos) in
    let all =
      subst
        (λ inlined.
          AllStored start inlined (g.oob_data ++ r.bytes)
            (g.record_slots ++ slot false g.oob_data_pos r ∷ []) (rs ++ r ∷ []))
        (add_nil g.inline_data)
        (AllStored-add g.inline_data g.oob_data [] r.bytes g.record_slots rs v.slots (record {
          size_is = omega arith;
          store_is = refl;
          seq_is = refl;
          in_buffer = λ q. absurd (cc);
          out_of_band = λ q. (
            omega (arith, len, at),
            ap (λ o. slice o (length r.bytes) (g.oob_data ++ r.bytes)) at
                ∙ slice-end g.oob_data r.bytes,
          );
        })) in
    record {
      inline_pos = v.inline_pos;
      iov = v.iov;
      oob_pos = omega (arith, v.oob_pos, len, v.total);
      counted = omega (arith, v.counted, length-append rs (r ∷ []));
      total = omega (arith, v.total, len, bytes_of-add rs r);
      slots = all;
    }

-- Making room changes no data and no position.
pub room-same :
    (r : LogRecord) (log_idx : ℕ) (g : LogGroup)
    → ((make_room r log_idx g).inline_data ≡ g.inline_data)
      × ((make_room r log_idx g).oob_data ≡ g.oob_data)
      × ((make_room r log_idx g).record_slots ≡ g.record_slots)
      × ((make_room r log_idx g).inline_data_pos ≡ g.inline_data_pos)
      × ((make_room r log_idx g).oob_data_pos ≡ g.oob_data_pos)
      × ((make_room r log_idx g).first_iov_len ≡ g.first_iov_len)
      × ((make_room r log_idx g).nrecords ≡ g.nrecords)
      × ((make_room r log_idx g).max_records ≡ g.max_records)
      × ((make_room r log_idx g).flush_multiple_size ≡ g.flush_multiple_size)
unfolding make_room
room-same r log_idx g = (
  ground arith,
  ground arith,
  ground arith,
  ground arith,
  ground arith,
  ground arith,
  ground arith,
  ground arith,
  ground arith,
)

pub room-IsFilled :
    {start : ℕ} (r : LogRecord) (log_idx : ℕ) (g : LogGroup) (rs : List LogRecord)
    → IsFilled start g rs
    → IsFilled start (make_room r log_idx g) rs
room-IsFilled {start} r log_idx g rs v =
    let (a, b, c, d, e, f, n, m, k) = room-same r log_idx g in
    record {
      inline_pos = d ∙ v.inline_pos ∙ ap (λ x. start + length x) (sym a);
      iov = f ∙ v.iov ∙ sym d;
      oob_pos = e ∙ v.oob_pos ∙ ap length (sym b);
      counted = n ∙ v.counted;
      total =
          ap (λ x. length x + length (make_room r log_idx g).oob_data) a
          ∙ ap (λ x. length g.inline_data + length x) b
          ∙ v.total;
      slots =
          subst
            (λ x.
              AllStored start x (make_room r log_idx g).oob_data
                (make_room r log_idx g).record_slots rs)
            (sym a)
            (subst (λ x. AllStored start g.inline_data x (make_room r log_idx g).record_slots rs)
              (sym b) (subst (λ x. AllStored start g.inline_data g.oob_data x rs) (sym c) v.slots));
    }
