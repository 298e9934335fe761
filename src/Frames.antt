-- ===== src/Frames.antt =====
-- testing/frames.py: the builders of synthetic frames, which assemble a record the way a
-- datalogger does.
pub mod Roundtrip
pub mod Replies
mod Tests
use growatt_datalogger.Base.{
  List, [], concat, contains, if◌then◌else◌, leb, length, ℕ, ◌++◌, ◌+◌, ◌-◌, ◌==◌, ◌∷◌,
}
use growatt_datalogger.Crc.{append_crc}
use growatt_datalogger.Crypt.{obfuscated_protocols, xor_payload}
use growatt_datalogger.Python.{
  Bytes, Datetime, Result, Str, encode_ascii, err, guard, ljust, ok, one_byte, overflow_error,
  to_bytes, value_error, ◌>>=◌, ◌>>◌,
}
use growatt_datalogger.Records.Frame.{body, device_id, function, protocol, sequence, serial_width}
use growatt_datalogger.Records.Parse.{RegisterGroup}

pub build_frame : Bytes → ℕ → ℕ → ℕ → ℕ → Result Bytes
build_frame body protocol function device_id sequence = do
  seq ← to_bytes sequence
  version ← one_byte protocol
  declared ← to_bytes (2 + length body)
  device ← one_byte device_id
  code ← one_byte function
  let frame = seq ++ (0 ∷ version ++ (declared ++ (device ++ (code ++ body))))
  ok (if contains obfuscated_protocols protocol then append_crc (xor_payload frame) else frame)

pub serial_field : Str → ℕ → Result Bytes
serial_field serial protocol = do
  width ← serial_width protocol
  encoded ← encode_ascii serial
  guard (leb (length encoded) width) value_error
  ok (ljust encoded width)

-- `for value in values: out += value.to_bytes(2, "big")`
pub append_words : Bytes → List ℕ → Result Bytes
append_words out [] = ok out
append_words out (value ∷ values) = do word ← to_bytes value; append_words (out ++ word) values

-- `start + len(values) - 1`; with no values and start 0 that is -1, which `to_bytes` refuses
pub last_register : ℕ → List ℕ → Result ℕ
last_register start values =
    if start + length values == 0 then err overflow_error else ok (start + length values - 1)

pub build_group : ℕ → List ℕ → Result Bytes
build_group start values = do
  first ← to_bytes start
  end ← last_register start values
  last ← to_bytes end
  append_words (first ++ last) values

-- `bytes([timestamp.year - 2000, …])`
pub timestamp_field : Datetime → Result Bytes
timestamp_field t = do
  guard (leb 2000 t.year) value_error
  year ← one_byte (t.year - 2000)
  ok (year ++ t.month ∷ t.day ∷ t.hour ∷ t.minute ∷ t.second ∷ [])

pub build_register_body : ℕ → Str → Str → Datetime → List Bytes → Result Bytes
build_register_body protocol datalogger_serial inverter_serial timestamp groups = do
  datalogger ← serial_field datalogger_serial protocol
  inverter ← serial_field inverter_serial protocol
  time ← timestamp_field timestamp
  count ← one_byte (length groups)
  ok (datalogger ++ (inverter ++ (time ++ (count ++ concat groups))))

-- `build_data_record`, the groups given as start and values
pub build_groups : List RegisterGroup → Result (List Bytes)
build_groups [] = ok []
build_groups (group ∷ groups) = do
  one ← build_group group.start group.values
  rest ← build_groups groups
  ok (one ∷ rest)

pub build_data_record : ℕ → ℕ → ℕ → Str → Str → Datetime → List Bytes → Result Bytes
build_data_record protocol function sequence datalogger inverter timestamp groups = do
  body ← build_register_body protocol datalogger inverter timestamp groups
  build_frame body protocol function 1 sequence
