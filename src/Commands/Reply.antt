-- ===== src/Commands/Reply.antt =====
-- `CommandResponse` and `parse_command_response`.
use growatt_datalogger.Base.{
  Bool, List, Option, [], drop, false, if◌then◌else◌, leb, length, ltb, none, some, true, ℕ, ◌+◌,
  ◌==◌, ◌∷◌,
}
use growatt_datalogger.Python.{
  Bytes, Result, Str, err, from_bytes, guard, ok, record_error, rstrip, slice, ◌>>=◌, ◌>>◌,
}
use growatt_datalogger.Records.Frame.{Frame, body, frame_serial_width, function}
use growatt_datalogger.Records.Function.{
  config_read, config_write, inverter_read, inverter_write, inverter_write_multi,
}
use growatt_datalogger.Records.Parse.{words}

-- `int | str | None`
pub data Value : Type 0 where
  nothing : Value
  integer : ℕ → Value
  text : Str → Value

pub record CommandResponse : Type 0 where
  pub function : ℕ
  pub register : Option ℕ
  pub value : Value
  pub result : Option ℕ
  pub empty : Bool
  pub end_register : Option ℕ
  pub values : List ℕ

-- `CommandResponse(function, register)`, all else at its default
abbrev pub response_of : ℕ → ℕ → CommandResponse
response_of function register = record {
  function = function;
  register = some register;
  value = nothing;
  result = none;
  empty = false;
  end_register = none;
  values = [];
}

abbrev result_ok : Option ℕ → Bool
result_ok none = true
result_ok (some result) = result == 0

-- `response.ok`
abbrev pub is_ok : CommandResponse → Bool
is_ok response = result_ok response.result

-- `int.from_bytes(rest[:2], "big")`, and what follows
abbrev pub first_word : Bytes → ℕ
first_word rest = from_bytes (slice rest 0 2)

read_values : ℕ → ℕ → ℕ → List ℕ → CommandResponse
read_values function register end [] = record (response_of function register) {
  end_register = some end;
  empty = true;
}
read_values function register end (value ∷ values) = record (response_of function register) {
  value = integer value;
  end_register = some end;
  values = value ∷ values;
}

-- 0x05: the range is echoed before any value
unfoldable pub read_reply : ℕ → ℕ → Bytes → CommandResponse
unfolding read_values
read_reply function register rest =
    if ltb (length rest) 4
    then record (response_of function register) { empty = true }
    else read_values function register (first_word rest) (words (drop 2 rest))

-- 0x06: the status byte, then the value the device settled on
unfoldable pub write_reply : ℕ → ℕ → Bytes → Result CommandResponse
write_reply function register [] = err record_error
write_reply function register (result ∷ rest) = ok (record (response_of function register) {
  value = if leb 2 (length rest) then integer (first_word rest) else nothing;
  result = some result;
})

-- 0x10: the end of the range, then the status byte
unfoldable pub range_write_reply : ℕ → ℕ → Bytes → Result CommandResponse
range_write_reply function register (high ∷ low ∷ result ∷ rest) =
    ok (record (response_of function register) {
      result = some result;
      end_register = some (from_bytes (high ∷ low ∷ []));
    })
range_write_reply function register rest = err record_error

-- 0x18
unfoldable pub config_write_reply : ℕ → ℕ → Bytes → Result CommandResponse
config_write_reply function register [] = err record_error
config_write_reply function register (result ∷ rest) =
    ok (record (response_of function register) { result = some result })

-- `text.rstrip("\x00")`
abbrev rstrip_nul : Str → Str
rstrip_nul s = rstrip (λ c. c == 0) s

-- 0x19: a length-prefixed string, each byte a code point of ISO-8859-1
unfoldable pub config_read_reply : ℕ → ℕ → Bytes → CommandResponse
config_read_reply function register rest =
    if ltb (length rest) 2
    then record (response_of function register) { empty = true }
    else record (response_of function register) {
      value = text (rstrip_nul (slice rest 2 (2 + first_word rest)));
    }

unfoldable pub parse_reply : ℕ → ℕ → Bytes → Result CommandResponse
unfolding read_reply write_reply range_write_reply config_write_reply config_read_reply
parse_reply code register rest =
    if code == inverter_read
    then ok (read_reply code register rest)
    else if code == inverter_write
    then write_reply code register rest
    else if code == inverter_write_multi
    then range_write_reply code register rest
    else if code == config_write
    then config_write_reply code register rest
    else if code == config_read
    then ok (config_read_reply code register rest)
    else err record_error

unfoldable pub parse_command_response : Frame → Result CommandResponse
unfolding parse_reply
parse_command_response frame = do
  code ← function frame
  content ← body frame
  width ← frame_serial_width frame
  guard (leb (width + 2) (length content)) record_error
  let register = from_bytes (slice content width (width + 2))
  parse_reply code register (drop (width + 2) content)
