-- ===== src/Crc.antt =====
-- crc.py: the table-driven CRC-16/MODBUS, appended big-endian and checked.
pub mod Bitwise
pub mod Check
mod Tests
use Prim.Native.Nat.{bit_and, bit_xor}
use growatt_datalogger.Base.{
  Bool, List, [], drop, false, get_elem?, if◌then◌else◌, length, ltb, none, some, suc, take, zero,
  ℕ, ◌++◌, ◌-◌, ◌/◌, ◌==◌, ◌∷◌,
}
use growatt_datalogger.Python.{Bytes, from_bytes, word_bytes}

abbrev pub poly : ℕ
poly = 0xA001

-- one round of the inner loop of `_build_table`
pub shift_bit : ℕ → ℕ
shift_bit crc = if bit_and crc 1 == 1 then bit_xor (crc / 2) poly else crc / 2

pub shift_bits : ℕ → ℕ → ℕ
unfolding shift_bit
shift_bits zero crc = crc
shift_bits (suc n) crc = shift_bits n (shift_bit crc)

pub build_table_from : ℕ → ℕ → List ℕ
build_table_from zero byte = []
build_table_from (suc left) byte = shift_bits 8 byte ∷ build_table_from left (suc byte)

pub build_table : List ℕ
build_table = build_table_from 256 0

-- `_TABLE[i]`; the index is always masked to a byte, and the table has 256 entries
pub table_entry : ℕ → ℕ
table_entry i = elim (get_elem? build_table i) [ none ↦ 0 | some entry ↦ entry ]

pub crc_byte : ℕ → ℕ → ℕ
crc_byte crc byte = bit_xor (crc / 256) (table_entry (bit_and (bit_xor crc byte) 0xFF))

pub crc_from : ℕ → Bytes → ℕ
unfolding crc_byte
crc_from crc [] = crc
crc_from crc (byte ∷ frame) = crc_from (crc_byte crc byte) frame

unfoldable pub modbus_crc : Bytes → ℕ
unfolding crc_from
modbus_crc frame = crc_from 0xFFFF frame

-- The checksum is below 2 ^ 16 (`Crc.Check.modbus_crc-lt`), so `to_bytes(2, "big")` does not raise.
unfoldable pub append_crc : Bytes → Bytes
append_crc frame = frame ++ word_bytes (modbus_crc frame)

unfoldable pub check_crc : Bytes → Bool
check_crc frame =
    if ltb (length frame) 3
    then false
    else modbus_crc (take (length frame - 2) frame) == from_bytes (drop (length frame - 2) frame)
