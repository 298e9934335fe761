-- ===== src/Commands/Build.antt =====
-- The builders of commands. A value to write may be negative, an `int` of Python; a register number
-- and a sequence number are not.
use Prim.Native.Nat.{bit_and}
use growatt_datalogger.Base.{
  List, Option, [], contains, if◌then◌else◌, leb, length, none, not, some, ℕ, ◌++◌, ◌+◌, ◌-◌, ◌∷◌,
}
use growatt_datalogger.Crc.{append_crc}
use growatt_datalogger.Crypt.{obfuscate, obfuscated_protocols}
use growatt_datalogger.Python.{
  Bytes, Datetime, Result, Str, encode_ascii, encode_utf8, err, format_datetime, guard, is_empty,
  ljust, ok, one_byte, record_error, to_bytes, value_error, word_bytes, ◌>>=◌, ◌>>◌,
}
use growatt_datalogger.Records.Frame.{body, device_id, function, protocol, sequence, serial_width}
use growatt_datalogger.Records.Function.{
  config_read, config_write, inverter_read, inverter_write, inverter_write_multi,
}

abbrev pub register_time : ℕ
register_time = 0x1F

-- A Python `int`: `negsuc n` is -(n + 1).
pub data ℤ : Type 0 where
  pos : ℕ → ℤ
  negsuc : ℕ → ℤ

-- `if not 0 <= value <= 0xFFFF: raise ValueError`
abbrev pub in_word : ℤ → Result ℕ
in_word (pos value) = if leb value 0xFFFF then ok value else err value_error
in_word (negsuc n) = err value_error

unfoldable pub serial_field : Str → ℕ → Result Bytes
serial_field serial protocol = do
  width ← serial_width protocol
  encoded ← encode_ascii serial
  guard (leb (length encoded) width) record_error
  ok (ljust encoded width)

-- `_frame`; the sequence number is masked to 16 bits, so that `to_bytes` takes it
unfoldable pub assemble : ℕ → ℕ → ℕ → ℕ → Bytes → Result Bytes
assemble sequence protocol device_id function body = do
  version ← one_byte protocol
  declared ← to_bytes (2 + length body)
  device ← one_byte device_id
  code ← one_byte function
  let frame =
      word_bytes (bit_and sequence 0xFFFF)
      ++ (0 ∷ version ++ (declared ++ (device ++ (code ++ body))))
  ok (
      if contains obfuscated_protocols protocol
      then append_crc (obfuscate frame protocol)
      else frame)

pub record Command : Type 0 where
  pub function : ℕ
  pub register : ℕ
  pub body : Bytes
  pub device_id : ℕ

abbrev pub response_function : Command → ℕ
response_function command = command.function

unfoldable pub build : Command → ℕ → ℕ → Result Bytes
unfolding assemble
build command sequence protocol =
    assemble sequence protocol command.device_id command.function command.body

-- `Command(function, register, body)`
abbrev pub command_of : ℕ → ℕ → Bytes → Command
command_of function register body = record {
  function = function;
  register = register;
  body = body;
  device_id = 0x01;
}

unfoldable pub read_datalogger : Str → ℕ → ℕ → Result Command
unfolding serial_field
read_datalogger serial protocol register = do
  field ← serial_field serial protocol
  first ← to_bytes register
  last ← to_bytes register
  ok (command_of config_read register (field ++ (first ++ last)))

unfoldable pub write_datalogger : Str → ℕ → ℕ → Str → Result Command
unfolding serial_field
write_datalogger serial protocol register value = do
  encoded ← encode_utf8 value
  field ← serial_field serial protocol
  address ← to_bytes register
  size ← to_bytes (length encoded)
  ok (command_of config_write register (field ++ (address ++ (size ++ encoded))))

unfoldable pub set_time : Str → ℕ → Datetime → Result Command
unfolding write_datalogger
set_time serial protocol when =
    write_datalogger serial protocol register_time (format_datetime when)

abbrev pub or_start : ℕ → Option ℕ → ℕ
or_start start none = start
or_start start (some end) = end

unfoldable pub read_inverter : Str → ℕ → ℕ → Option ℕ → Result Command
unfolding serial_field
read_inverter serial protocol start end = do
  let last = or_start start end
  guard (leb start last) value_error
  field ← serial_field serial protocol
  first ← to_bytes start
  second ← to_bytes last
  ok (command_of inverter_read start (field ++ (first ++ second)))

unfoldable pub write_inverter : Str → ℕ → ℕ → ℤ → Result Command
unfolding serial_field
write_inverter serial protocol register value = do
  word ← in_word value
  field ← serial_field serial protocol
  address ← to_bytes register
  content ← to_bytes word
  ok (command_of inverter_write register (field ++ (address ++ content)))

append_values : Bytes → List ℤ → Result Bytes
append_values body [] = ok body
append_values body (value ∷ values) = do
  word ← in_word value
  content ← to_bytes word
  append_values (body ++ content) values

unfoldable pub write_inverter_range : Str → ℕ → ℕ → List ℤ → Result Command
unfolding serial_field append_values
write_inverter_range serial protocol start values = do
  guard (not (is_empty values)) value_error
  let end = start + length values - 1
  field ← serial_field serial protocol
  first ← to_bytes start
  last ← to_bytes end
  body ← append_values (field ++ (first ++ last)) values
  ok (command_of inverter_write_multi start body)
