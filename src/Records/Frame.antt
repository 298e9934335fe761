-- ===== src/Records/Frame.antt =====
-- `Frame`, `serial_width`, and the two replies that a session builds from a frame.
use growatt_datalogger.Base.{
  Bool, [], contains, if◌then◌else◌, length, ℕ, ◌++◌, ◌-◌, ◌==◌, ◌||◌, ◌∷◌,
}
use growatt_datalogger.Crc.{append_crc}
use growatt_datalogger.Crypt.{deobfuscate, header_length, obfuscated_protocols}
use growatt_datalogger.Python.{
  Bytes, Result, err, from_bytes, index, ok, record_error, slice, word_bytes, ◌>>=◌,
}

abbrev pub serial_width : ℕ → Result ℕ
serial_width protocol =
    if protocol == 2 || protocol == 5
    then ok 10
    else if protocol == 6
    then ok 30
    else err record_error

pub record Frame : Type 0 where
  pub raw : Bytes

abbrev pub sequence : Frame → ℕ
sequence frame = from_bytes (slice frame.raw 0 2)

abbrev pub protocol : Frame → Result ℕ
protocol frame = index frame.raw 3

abbrev pub declared_length : Frame → ℕ
declared_length frame = from_bytes (slice frame.raw 4 6)

abbrev pub device_id : Frame → Result ℕ
device_id frame = index frame.raw 6

abbrev pub function : Frame → Result ℕ
function frame = index frame.raw 7

abbrev pub has_crc : Frame → Result Bool
has_crc frame = do p ← protocol frame; ok (contains obfuscated_protocols p)

unfoldable pub plaintext : Frame → Result Bytes
plaintext frame = do p ← protocol frame; ok (deobfuscate frame.raw p)

-- The plaintext has the four bytes at least that the protocol version was read from, so that the
-- end of the slice is not negative.
unfoldable pub body : Frame → Result Bytes
body frame = do
  plain ← plaintext frame
  crc ← has_crc frame
  let end = length plain - (if crc then 2 else 0)
  ok (slice plain header_length end)

abbrev pub frame_serial_width : Frame → Result ℕ
frame_serial_width frame = do p ← protocol frame; serial_width p

-- The numbers put into the header are bytes of the received frame, which `bytes` accepts.
unfoldable pub build_ack : Frame → Result Bytes
build_ack frame = do
  p ← protocol frame
  d ← device_id frame
  f ← function frame
  let header = slice frame.raw 0 2 ++ 0 ∷ p ∷ word_bytes 3 ++ d ∷ f ∷ []
  ok (
      if contains obfuscated_protocols p
      then append_crc (header ++ 0x47 ∷ [])
      else header ++ 0x00 ∷ [])

unfoldable pub build_ping_echo : Frame → Bytes
build_ping_echo frame = frame.raw
