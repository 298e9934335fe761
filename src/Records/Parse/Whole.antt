-- ===== src/Records/Parse/Whole.antt =====
-- A whole record body: what was encoded is parsed back.
use growatt_datalogger.Base.{
  ==_iff, All, List, [], ap, append-nil, append_assoc, arith, length, length-append, ltb, lt→ltb,
  refl, some, sym, true, ℕ, ◌*◌, ◌++◌, ◌+◌, ◌==◌, ◌∙◌, ◌∷◌, ◌≡◌, ◌≤◌,
}
use growatt_datalogger.Python.{Bytes, Datetime, Str, index, is_datetime, ok, strip}
use growatt_datalogger.Records.Parse.{
  RecordPayload, RegisterGroup, parse_body, parse_groups, read_serial, read_timestamp,
}
use growatt_datalogger.Records.Parse.Fields.{
  IsSerial, length-serial_bytes, read_serial_field, read_timestamp_field, serial_bytes,
  timestamp_bytes,
}
use growatt_datalogger.Records.Parse.Groups.{IsGroup, encode_groups, parse_groups-encode_groups}
use growatt_datalogger.Records.Parse.Slices.{index_field}

-- The body of a record, as the comment at the head of records.py lays it out.
unfoldable pub encode_body : ℕ → Str → Str → Datetime → List RegisterGroup → Bytes
encode_body width datalogger inverter t groups =
    serial_bytes width datalogger
    ++ (serial_bytes width inverter
        ++ (timestamp_bytes t ++ (length groups ∷ encode_groups groups)))

pub record IsRecord (width : ℕ) (datalogger inverter : Str) (t : Datetime)
    (groups : List RegisterGroup) : Type 0 where
  pub datalogger_serial : IsSerial width datalogger
  pub inverter_serial : IsSerial width inverter
  pub since : 2000 ≤ t.year
  pub date : is_datetime t ≡ true
  pub groups_fit : All IsGroup groups

abbrev pub payload_of : Str → Str → Datetime → List RegisterGroup → RecordPayload
payload_of datalogger inverter t groups = record {
  datalogger_serial = strip datalogger;
  inverter_serial = strip inverter;
  timestamp = some t;
  groups = groups;
}

pub parse_body-encode_body :
    (width : ℕ) (datalogger inverter : Str) (t : Datetime) (groups : List RegisterGroup)
    → IsRecord width datalogger inverter t groups
    → parse_body (encode_body width datalogger inverter t groups) width
      ≡ ok (payload_of datalogger inverter t groups)
unfolding parse_body
parse_body-encode_body width datalogger inverter t groups h =
    let d : Bytes = serial_bytes width datalogger in
    let i : Bytes = serial_bytes width inverter in
    let g : Bytes = encode_groups groups in
    let rest : Bytes = length groups ∷ g in
    let whole : Bytes = encode_body width datalogger inverter t groups in
    let ld = length-serial_bytes width datalogger h.datalogger_serial.fits in
    let li = length-serial_bytes width inverter h.inverter_serial.fits in
    let di = length-append d i in
    let dit = length-append (d ++ i) (timestamp_bytes t) in
    let ditc = length-append ((d ++ i) ++ timestamp_bytes t) (length groups ∷ []) in
    let ditcg = length-append (((d ++ i) ++ timestamp_bytes t) ++ (length groups ∷ [])) g in
    let w2 : whole ≡ (d ++ i) ++ (timestamp_bytes t ++ rest) =
      unfold encode_body in sym (append_assoc d i _) in
    let w3 : whole ≡ ((d ++ i) ++ timestamp_bytes t) ++ rest =
      w2 ∙ sym (append_assoc (d ++ i) (timestamp_bytes t) rest) in
    let w4 : whole ≡ (((d ++ i) ++ timestamp_bytes t) ++ (length groups ∷ [])) ++ g =
      w3 ∙ sym (append_assoc ((d ++ i) ++ timestamp_bytes t) (length groups ∷ []) g) in
    let size : length whole ≡ width * 2 + 7 + length g = ap length w4 ∙ omega arith in
    let first : read_serial whole 0 width ≡ ok (strip datalogger) =
      unfold encode_body in read_serial_field [] _ datalogger 0 width refl h.datalogger_serial in
    let second : read_serial whole width width ≡ ok (strip inverter) =
      unfold encode_body in read_serial_field d _ inverter width width (sym ld) h.inverter_serial in
    let third : read_timestamp whole (width * 2) ≡ ok (some t) =
      ap (λ (b : Bytes). read_timestamp b (width * 2)) w2
      ∙ read_timestamp_field (d ++ i) rest t (width * 2) (omega arith) h.since h.date in
    let count : index whole (width * 2 + 6) ≡ ok (length groups) =
      ap (λ (b : Bytes). index b (width * 2 + 6)) w3
      ∙ index_field ((d ++ i) ++ timestamp_bytes t) g (width * 2 + 6) (length groups)
          (omega arith) in
    let last : parse_groups (length groups) whole (width * 2 + 6 + 1)
        ≡ ok (groups, width * 2 + 6 + 1 + length g) =
      ap (λ (b : Bytes). parse_groups (length groups) b (width * 2 + 6 + 1))
        (w4
          ∙ ap (λ (b : Bytes). (((d ++ i) ++ timestamp_bytes t) ++ (length groups ∷ [])) ++ b)
              (sym (append-nil g)))
      ∙ parse_groups-encode_groups (((d ++ i) ++ timestamp_bytes t) ++ (length groups ∷ [])) []
          groups (width * 2 + 6 + 1) (omega arith) h.groups_fit in
    let room : ltb (width * 2 + 6) (length whole) ≡ true = lt→ltb _ _ (omega arith) in
    let all : (width * 2 + 6 + 1 + length g == length whole) ≡ true =
      (==_iff _ _).1 (omega arith) in
    rw (first, second, third, room, count, last, all)
