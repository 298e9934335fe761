-- ===== src/Records/Parse.antt =====
-- `parse_register_record`: a 0x03, 0x04 or 0x50 record into its serials, timestamp and registers.
pub mod Slices
pub mod Groups
pub mod Fields
pub mod Whole
use growatt_datalogger.Base.{
  List, Option, [], contains, leb, length, ltb, none, some, suc, zero, ℕ, ◌*◌, ◌+◌, ◌-◌, ◌==◌, ◌∷◌,
}
use growatt_datalogger.Base.Dict.{update}
use growatt_datalogger.Python.{
  Bytes, Datetime, Result, Str, before_nul, decode_ascii, err, from_bytes, guard, index,
  make_datetime, ok, record_error, slice, strip, ◌>>=◌, ◌>>◌,
}
use growatt_datalogger.Records.Frame.{Frame, body, frame_serial_width, function}
use growatt_datalogger.Records.Function.{register_record_functions}

pub record RegisterGroup : Type 0 where
  pub start : ℕ
  pub end : ℕ
  pub values : List ℕ

abbrev pub group_count : RegisterGroup → ℕ
group_count group = group.end + 1 - group.start

enumerate_from : ℕ → List ℕ → List (ℕ × ℕ)
enumerate_from i [] = []
enumerate_from i (v ∷ values) = (i, v) ∷ enumerate_from (i + 1) values

pub as_mapping : RegisterGroup → List (ℕ × ℕ)
as_mapping group = enumerate_from group.start group.values

pub record RecordPayload : Type 0 where
  pub datalogger_serial : Str
  pub inverter_serial : Str
  pub timestamp : Option Datetime
  pub groups : List RegisterGroup

merge_groups : List (ℕ × ℕ) → List RegisterGroup → List (ℕ × ℕ)
merge_groups merged [] = merged
merge_groups merged (group ∷ groups) = merge_groups (update merged (as_mapping group)) groups

pub registers : RecordPayload → List (ℕ × ℕ)
registers payload = merge_groups [] payload.groups

pub read_serial : Bytes → ℕ → ℕ → Result Str
read_serial body offset width = do
  let field = slice body offset (offset + width)
  guard (leb width (length field)) record_error
  ok (strip (decode_ascii (before_nul field)))

abbrev pub timestamp_length : ℕ
timestamp_length = 6

-- The year is an offset from 2000; a date that `datetime` refuses is None.
abbrev pub or_none {ℓ} : {A : Type ℓ} → Result A → Option A
or_none (ok a) = some a
or_none (err e) = none

pub timestamp_of : Bytes → Result (Option Datetime)
timestamp_of (year ∷ month ∷ day ∷ hour ∷ minute ∷ second ∷ []) = ok (
    or_none (
      make_datetime (record {
        year = 2000 + year;
        month = month;
        day = day;
        hour = hour;
        minute = minute;
        second = second;
      })))
timestamp_of field = err record_error

pub read_timestamp : Bytes → ℕ → Result (Option Datetime)
read_timestamp body offset = timestamp_of (slice body offset (offset + timestamp_length))

-- Big-endian 16-bit words; an odd byte at the end is left out.
pub words : Bytes → List ℕ
words [] = []
words (high ∷ []) = []
words (high ∷ low ∷ rest) = from_bytes (high ∷ low ∷ []) ∷ words rest

-- `int.from_bytes(body[offset : offset + 2], "big")`
pub read_word : Bytes → ℕ → ℕ
read_word body offset = from_bytes (slice body offset (offset + 2))

-- One round of the loop over the groups: the group at `offset`, and the offset behind it.
pub parse_group : Bytes → ℕ → Result (RegisterGroup × ℕ)
parse_group body offset = do
  guard (leb (offset + 4) (length body)) record_error
  let start = read_word body offset
  let end = read_word body (offset + 2)
  guard (leb start end) record_error
  let needed = (end - start + 1) * 2
  let chunk = slice body (offset + 4) (offset + 4 + needed)
  guard (leb needed (length chunk)) record_error
  ok (record { start = start; end = end; values = words chunk }, offset + 4 + needed)

pub parse_groups : ℕ → Bytes → ℕ → Result (List RegisterGroup × ℕ)
parse_groups zero body offset = ok ([], offset)
parse_groups (suc count) body offset = do
  (group, next) ← parse_group body offset
  (groups, last) ← parse_groups count body next
  ok (group ∷ groups, last)

unfoldable pub parse_body : Bytes → ℕ → Result RecordPayload
parse_body body width = do
  datalogger ← read_serial body 0 width
  inverter ← read_serial body width width
  let offset = width * 2
  timestamp ← read_timestamp body offset
  guard (ltb (offset + timestamp_length) (length body)) record_error
  count ← index body (offset + timestamp_length)
  (groups, last) ← parse_groups count body (offset + timestamp_length + 1)
  guard (last == length body) record_error
  ok (record {
    datalogger_serial = datalogger;
    inverter_serial = inverter;
    timestamp = timestamp;
    groups = groups;
  })

unfoldable pub parse_register_record : Frame → Result RecordPayload
parse_register_record frame = do
  f ← function frame
  guard (contains register_record_functions f) record_error
  bytes ← body frame
  width ← frame_serial_width frame
  parse_body bytes width
