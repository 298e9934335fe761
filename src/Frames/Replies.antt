-- ===== src/Frames/Replies.antt =====
-- The builders of a device's replies to commands, in testing/frames.py.
use growatt_datalogger.Base.{List, Option, [], length, none, some, ℕ, ◌++◌, ◌+◌, ◌-◌, ◌∷◌}
use growatt_datalogger.Frames.{append_words, build_frame, serial_field}
use growatt_datalogger.Python.{Bytes, Result, Str, one_byte, to_bytes, ◌>>=◌}
use growatt_datalogger.Records.Frame.{function, protocol, sequence}

unfoldable pub build_command_response : Str → ℕ → ℕ → Bytes → ℕ → ℕ → Result Bytes
build_command_response serial function register tail protocol sequence = do
  field ← serial_field serial protocol
  address ← to_bytes register
  build_frame (field ++ (address ++ tail)) protocol function 1 sequence

-- The end of the range: the one given, or the last of the values, or else the register itself.
unfoldable pub read_end : ℕ → List ℕ → Option ℕ → ℕ
read_end register values (some end) = end
read_end register [] none = register
read_end register (value ∷ values) none = register + length (value ∷ values) - 1

unfoldable pub build_read_response : Str → ℕ → List ℕ → Option ℕ → ℕ → ℕ → Result Bytes
unfolding read_end
build_read_response serial register values end_register protocol sequence = do
  end ← to_bytes (read_end register values end_register)
  tail ← append_words end values
  build_command_response serial 0x05 register tail protocol sequence

unfoldable pub build_write_response : Str → ℕ → ℕ → ℕ → ℕ → ℕ → Result Bytes
build_write_response serial register value result protocol sequence = do
  status ← one_byte result
  word ← to_bytes value
  build_command_response serial 0x06 register (status ++ word) protocol sequence

unfoldable pub build_range_write_response : Str → ℕ → ℕ → ℕ → ℕ → ℕ → Result Bytes
build_range_write_response serial start end result protocol sequence = do
  last ← to_bytes end
  status ← one_byte result
  build_command_response serial 0x10 start (last ++ status) protocol sequence
