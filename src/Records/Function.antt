-- ===== src/Records/Function.antt =====
-- `Function`, the frame function codes, and the sets of them that the session tells apart.
use growatt_datalogger.Base.{List, [], ℕ, ◌∷◌}

abbrev pub announce : ℕ
announce = 0x03

-- DATA
abbrev pub telemetry : ℕ
telemetry = 0x04

abbrev pub ping : ℕ
ping = 0x16

abbrev pub config_write : ℕ
config_write = 0x18

abbrev pub config_read : ℕ
config_read = 0x19

abbrev pub inverter_read : ℕ
inverter_read = 0x05

abbrev pub inverter_write : ℕ
inverter_write = 0x06

abbrev pub inverter_write_multi : ℕ
inverter_write_multi = 0x10

abbrev pub buffered : ℕ
buffered = 0x50

abbrev pub meter_1b : ℕ
meter_1b = 0x1B

abbrev pub meter_1e : ℕ
meter_1e = 0x1E

abbrev pub meter_20 : ℕ
meter_20 = 0x20

abbrev pub session_key : ℕ
session_key = 0x41

abbrev pub ignored : ℕ
ignored = 0x29

abbrev pub register_record_functions : List ℕ
register_record_functions = announce ∷ telemetry ∷ buffered ∷ []

abbrev pub meter_functions : List ℕ
meter_functions = meter_1b ∷ meter_1e ∷ meter_20 ∷ []

abbrev pub command_response_functions : List ℕ
command_response_functions =
    inverter_read ∷ inverter_write ∷ inverter_write_multi ∷ config_read ∷ config_write ∷ []
