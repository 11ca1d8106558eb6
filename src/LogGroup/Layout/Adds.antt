-- ===== src/LogGroup/Layout/Adds.antt =====
-- Adding records to a group, from a group that is reset.
use home_store.Prelude.{
  ℕ, ◌+◌, ◌^◌, ◌≤◌, ◌<◌, ◌≡◌, refl, sym, ap, ◌∙◌, Bool, true, false, if◌then◌else◌, List, [], ◌∷◌,
  ◌++◌, length, length-append, arith, min, append-nil, append_assoc, subst,
}
use home_store.LogGroup.{
  LogRecord, LogGroup, is_inlineable, data_start, reset, place, make_room, add_record, add_records,
  max_records_in_a_batch,
}
use home_store.LogGroup.Layout.{
  IsFilled, bytes_of, bytes_of-add, place-IsFilled, room-same, room-IsFilled,
}

place_max : (b : Bool) (r : LogRecord) (g : LogGroup) → (place b r g).max_records ≡ g.max_records
place_max true r g = refl
place_max false r g = refl

added :
    (optimal : ℕ) (r : LogRecord) (log_idx : ℕ) (g : LogGroup)
    → g.nrecords < g.max_records
    → add_record optimal r log_idx g
      ≡ (true, place (is_inlineable optimal g.flush_multiple_size r) r (make_room r log_idx g))
unfolding add_record
added optimal r log_idx g h = ground arith

-- A record for which there is a slot is added.
add_record-IsFilled :
    {start : ℕ} (optimal : ℕ) (r : LogRecord) (log_idx : ℕ) (g : LogGroup) (rs : List LogRecord)
    → IsFilled start g rs
    → start + bytes_of rs + length r.bytes < 2 ^ 31
    → length rs < g.max_records
    → ((add_record optimal r log_idx g).0 ≡ true)
      × IsFilled start (add_record optimal r log_idx g).1 (rs ++ r ∷ [])
      × ((add_record optimal r log_idx g).1.max_records ≡ g.max_records)
add_record-IsFilled {start} optimal r log_idx g rs v h slot_left =
    let b = is_inlineable optimal g.flush_multiple_size r in
    let room = make_room r log_idx g in
    let e = added optimal r log_idx g (omega (arith, v.counted)) in
    let same_max : room.max_records ≡ g.max_records = (room-same r log_idx g).7 in
    (
      ap (λ x. x.0) e,
      subst (λ x. IsFilled start x (rs ++ r ∷ [])) (sym (ap (λ x. x.1) e))
          (place-IsFilled b r room rs (room-IsFilled r log_idx g rs v) h),
      ap (λ x. x.1.max_records) e ∙ place_max b r room ∙ same_max,
    )

more_added :
    (optimal : ℕ) (r : LogRecord) (rs : List LogRecord) (log_idx : ℕ) (g : LogGroup)
    → (add_record optimal r log_idx g).0 ≡ true
    → add_records optimal (r ∷ rs) log_idx g ≡ (
      (add_records optimal rs (log_idx + 1) (add_record optimal r log_idx g).1).0 + 1,
      (add_records optimal rs (log_idx + 1) (add_record optimal r log_idx g).1).1,
    )
unfolding add_records
more_added optimal r rs log_idx g h =
    let rest = add_records optimal rs (log_idx + 1) (add_record optimal r log_idx g).1 in
    ap (λ b. if b then (rest.0 + 1, rest.1) else (0, g)) h

-- As many records are added as there are, where there are slots for all.
pub add_records-IsFilled :
    {start : ℕ} (optimal : ℕ) (rs : List LogRecord) (log_idx : ℕ) (g : LogGroup)
    (old : List LogRecord)
    → IsFilled start g old
    → start + bytes_of old + bytes_of rs < 2 ^ 31
    → length old + length rs ≤ g.max_records
    → ((add_records optimal rs log_idx g).0 ≡ length rs)
      × IsFilled start (add_records optimal rs log_idx g).1 (old ++ rs)
unfolding add_records
add_records-IsFilled {start} optimal [] log_idx g old v h slots_left =
    (refl, subst (IsFilled start g) (sym (append-nil old)) v)
add_records-IsFilled {start} optimal (r ∷ rs) log_idx g old v h slots_left =
    let (yes_, filled, same_max) =
      add_record-IsFilled optimal r log_idx g old v (omega arith) (omega arith) in
    let (n, all) =
      add_records-IsFilled optimal rs (log_idx + 1) (add_record optimal r log_idx g).1
        (old ++ r ∷ []) filled (omega (arith, bytes_of-add old r))
        (omega (arith, same_max, length-append old (r ∷ []))) in
    let whole : (old ++ r ∷ []) ++ rs ≡ old ++ r ∷ rs = append_assoc old (r ∷ []) rs in
    let e = more_added optimal r rs log_idx g yes_ in
    (
      ap (λ x. x.0) e ∙ omega (arith, n),
      subst (λ x. IsFilled start x (old ++ r ∷ rs)) (sym (ap (λ x. x.1) e))
          (subst
            (IsFilled start
              (add_records optimal rs (log_idx + 1) (add_record optimal r log_idx g).1).1)
            whole all),
    )

-- Adding records changes no configured size.
place-sizes :
    (b : Bool) (r : LogRecord) (g : LogGroup)
    → ((place b r g).flush_multiple_size ≡ g.flush_multiple_size)
      × ((place b r g).footer_buf_len ≡ g.footer_buf_len)
place-sizes true r g = (refl, refl)
place-sizes false r g = (refl, refl)

room-footer :
    (r : LogRecord) (log_idx : ℕ) (g : LogGroup)
    → (make_room r log_idx g).footer_buf_len ≡ g.footer_buf_len
unfolding make_room
room-footer r log_idx g = ground arith

add_record-sizes :
    (optimal : ℕ) (r : LogRecord) (log_idx : ℕ) (g : LogGroup)
    → ((add_record optimal r log_idx g).1.flush_multiple_size ≡ g.flush_multiple_size)
      × ((add_record optimal r log_idx g).1.footer_buf_len ≡ g.footer_buf_len)
unfolding add_record
add_record-sizes optimal r log_idx g =
    let (f, k) =
      place-sizes (is_inlineable optimal g.flush_multiple_size r) r (make_room r log_idx g) in
    let flush = f ∙ (room-same r log_idx g).8 in
    let footer = k ∙ room-footer r log_idx g in (ground arith, ground arith)

pub add_records-sizes :
    (optimal : ℕ) (rs : List LogRecord) (log_idx : ℕ) (g : LogGroup)
    → ((add_records optimal rs log_idx g).1.flush_multiple_size ≡ g.flush_multiple_size)
      × ((add_records optimal rs log_idx g).1.footer_buf_len ≡ g.footer_buf_len)
unfolding add_records
add_records-sizes optimal [] log_idx g = (refl, refl)
add_records-sizes optimal (r ∷ rs) log_idx g =
    let (f, k) = add_record-sizes optimal r log_idx g in
    let (f', k') = add_records-sizes optimal rs (log_idx + 1) (add_record optimal r log_idx g).1 in
    (ground arith, ground arith)

pub reset-IsFilled :
    (max_records : ℕ) (g : LogGroup)
    → data_start max_records < 2 ^ 31
    → IsFilled (data_start max_records) (reset max_records g) []
unfolding reset
reset-IsFilled max_records g h = record {
  inline_pos = omega arith;
  iov = refl;
  oob_pos = refl;
  counted = refl;
  total = omega arith;
  slots = tt;
}

pub reset-sizes :
    (max_records : ℕ) (g : LogGroup)
    → ((reset max_records g).max_records ≡ min max_records max_records_in_a_batch)
      × ((reset max_records g).flush_multiple_size ≡ g.flush_multiple_size)
      × ((reset max_records g).footer_buf_len ≡ g.footer_buf_len)
unfolding reset
reset-sizes max_records g = (refl, refl, refl)
