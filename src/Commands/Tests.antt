-- ===== src/Commands/Tests.antt =====
-- Instances of the commands' theorems.
use growatt_datalogger.Base.{[], arith, none, refl, some, ◌∷◌, ◌≡◌}
use growatt_datalogger.Commands.Answered.{
  parse-build_range_write_response, parse-build_read_response, parse-build_write_response,
}
use growatt_datalogger.Commands.Build.{
  Command, assemble, build, command_of, pos, serial_field, write_inverter,
}
use growatt_datalogger.Commands.Reply.{integer, parse_command_response, response_of}
use growatt_datalogger.Commands.Sent.{IsSent, build-IsSent}
use growatt_datalogger.Frames.Replies.{
  build_range_write_response, build_read_response, build_write_response,
}
use growatt_datalogger.Python.{Bytes, Str, ok, ◌>>=◌}
use growatt_datalogger.Records.Parse.Fields.{IsSerial}

abbrev logger : Str
logger = 88 ∷ 71 ∷ 68 ∷ []

abbrev write_three : Command
write_three = command_of 0x06 3 (88 ∷ 71 ∷ 68 ∷ 0 ∷ 0 ∷ 0 ∷ 0 ∷ 0 ∷ 0 ∷ 0 ∷ 0 ∷ 3 ∷ 0 ∷ 50 ∷ [])

write_three_built : write_inverter logger 2 3 (pos 50) ≡ ok write_three
unfolding write_inverter serial_field
write_three_built = refl

abbrev write_three_frame : Bytes
write_three_frame = 0 ∷ 7 ∷ 0 ∷ 2 ∷ 0 ∷ 16 ∷ 1 ∷ 6 ∷ write_three.body

build-IsSent_example : IsSent write_three 7 2 write_three_frame
build-IsSent_example =
    build-IsSent write_three 7 2 write_three_frame (unfold build assemble in refl)

logger-IsSerial : IsSerial 10 logger
logger-IsSerial = record { fits = omega arith; ascii = omega arith }

parse-build_read_response_example :
    (do
      raw ← build_read_response logger 3 (100 ∷ 7 ∷ []) none 2 9
      parse_command_response (record { raw = raw }))
    ≡ ok (record (response_of 0x05 3) {
      value = integer 100;
      end_register = some 4;
      values = 100 ∷ 7 ∷ [];
    })
parse-build_read_response_example =
    parse-build_read_response 2 10 refl logger logger-IsSerial 3 9 (omega arith) (omega arith) 100
      (7 ∷ []) (omega arith) (omega arith) (omega arith)

parse-build_write_response_example :
    (do raw ← build_write_response logger 3 50 0 2 9; parse_command_response (record { raw = raw }))
    ≡ ok (record (response_of 0x06 3) { value = integer 50; result = some 0 })
parse-build_write_response_example =
    parse-build_write_response 2 10 refl logger logger-IsSerial 3 9 (omega arith) (omega arith) 50 0
      (omega arith) (omega arith)

parse-build_range_write_response_example :
    (do
      raw ← build_range_write_response logger 1080 1082 0 2 9
      parse_command_response (record { raw = raw }))
    ≡ ok (record (response_of 0x10 1080) { result = some 0; end_register = some 1082 })
parse-build_range_write_response_example =
    parse-build_range_write_response 2 10 refl logger logger-IsSerial 1080 9 (omega arith)
      (omega arith) 1082 0 (omega arith) (omega arith)
