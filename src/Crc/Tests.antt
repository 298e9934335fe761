-- ===== src/Crc/Tests.antt =====
-- Runs and instances of the checksum.
use growatt_datalogger.Base.{[], arith, refl, true, ◌++◌, ◌∷◌, ◌≡◌, ◌≢◌}
use growatt_datalogger.Crc.{
  append_crc, build_table, build_table_from, check_crc, crc_byte, crc_from, modbus_crc, shift_bit,
  shift_bits, table_entry,
}
use growatt_datalogger.Crc.Bitwise.{crc_from-eq-serial_crc_from, serial_crc_from}
use growatt_datalogger.Crc.Check.{check_crc-append_crc, modbus_crc_one_byte}
use growatt_datalogger.Python.{Bytes}

abbrev ping_frame : Bytes
ping_frame = 0 ∷ 1 ∷ 0 ∷ 6 ∷ 0 ∷ 3 ∷ 1 ∷ 22 ∷ 71 ∷ []

-- the check value of CRC-16/MODBUS over "123456789"
check_value : modbus_crc (49 ∷ 50 ∷ 51 ∷ 52 ∷ 53 ∷ 54 ∷ 55 ∷ 56 ∷ 57 ∷ []) ≡ 0x4B37
unfolding modbus_crc crc_from crc_byte table_entry build_table build_table_from shift_bits shift_bit
check_value = refl

crc_from-eq-serial_crc_from_example : crc_from 0xFFFF ping_frame ≡ serial_crc_from 0xFFFF ping_frame
crc_from-eq-serial_crc_from_example = crc_from-eq-serial_crc_from 0xFFFF ping_frame (omega arith)

check_crc-append_crc_example : check_crc (append_crc ping_frame) ≡ true
check_crc-append_crc_example = check_crc-append_crc ping_frame (omega arith) (omega arith)

modbus_crc_one_byte_example :
    modbus_crc ((0 ∷ 1 ∷ []) ++ 5 ∷ 7 ∷ []) ≢ modbus_crc ((0 ∷ 1 ∷ []) ++ 6 ∷ 7 ∷ [])
modbus_crc_one_byte_example =
    modbus_crc_one_byte (0 ∷ 1 ∷ []) (7 ∷ []) 5 6 (omega arith) (omega arith) (omega arith)
      (omega arith) (omega arith)
