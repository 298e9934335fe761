-- ===== src/Crc/Bitwise.antt =====
-- The table-driven checksum is the bit-serial CRC: eight shifts for every byte.
use Prim.Native.Nat.{bit_and, bit_xor}
use native.Mathlib.Nat.{pow-suc}
use growatt_datalogger.Base.{
  Bool-cases, [], ap, ap₂, arith, get_elem?, if◌then◌else◌, inl, inr, refl, some, suc, sym, zero, ℕ,
  ◌%◌, ◌*◌, ◌+◌, ◌/◌, ◌<◌, ◌==◌, ◌^◌, ◌∙◌, ◌∷◌, ◌≡◌,
}
use growatt_datalogger.Base.Bits.{
  bit_and_mask, bit_xor-div, bit_xor-zero, bit_xor_assoc, bit_xor_comm, bit_xor_fields,
  bit_xor_step,
}
use growatt_datalogger.Crc.{
  build_table, build_table_from, crc_byte, crc_from, poly, shift_bit, shift_bits, table_entry,
}
use growatt_datalogger.Python.{Bytes, IsBytes}

-- The definition of CRC-16/MODBUS: the byte is mixed into the low end, then eight shifts.
unfoldable pub serial_crc_from : ℕ → Bytes → ℕ
serial_crc_from crc [] = crc
serial_crc_from crc (byte ∷ frame) = serial_crc_from (shift_bits 8 (bit_xor crc byte)) frame

pub shift_bit_by_parity :
    (x : ℕ) → shift_bit x ≡ (if x % 2 == 1 then bit_xor (x / 2) poly else x / 2)
unfolding shift_bit
shift_bit_by_parity x = rw (bit_and_mask 1 x)

-- A shift lets the digits above the lowest pass.
shift_bit-bit_xor : (x y : ℕ) → shift_bit (bit_xor x (2 * y)) ≡ bit_xor (shift_bit x) y
shift_bit-bit_xor x y =
    let e : 2 * y / 2 ≡ y = omega arith in
    let half : bit_xor x (2 * y) / 2 ≡ bit_xor (x / 2) y =
      omega (arith, bit_xor_step x (2 * y), ap (bit_xor (x / 2)) e) in
    let parity : bit_xor x (2 * y) % 2 ≡ x % 2 = omega (arith, bit_xor_step x (2 * y)) in
    let swap : bit_xor (bit_xor (x / 2) y) poly ≡ bit_xor (bit_xor (x / 2) poly) y =
      bit_xor_assoc (x / 2) y poly
      ∙ ap (bit_xor (x / 2)) (bit_xor_comm y poly)
      ∙ sym (bit_xor_assoc (x / 2) poly y) in
    rw (shift_bit_by_parity (bit_xor x (2 * y)), shift_bit_by_parity x, parity, half)
      (elim (Bool-cases (x % 2 == 1)) [ inl odd ↦ rw odd swap | inr even ↦ rw even ])

shift_bits-bit_xor : (k x y : ℕ) → shift_bits k (bit_xor x (2 ^ k * y)) ≡ bit_xor (shift_bits k x) y
unfolding shift_bits
shift_bits-bit_xor zero x y = ap (bit_xor x) (omega arith)
shift_bits-bit_xor (suc k) x y =
    let e : 2 ^ suc k * y ≡ 2 * (2 ^ k * y) = rw (pow-suc 2 k) (omega arith) in
    rw e (rw (shift_bit-bit_xor x (2 ^ k * y)) (shift_bits-bit_xor k (shift_bit x) y))

build_table_from-get_elem? :
    (left byte i : ℕ)
    → i < left
    → get_elem? (build_table_from left byte) i ≡ some (shift_bits 8 (byte + i))
unfolding build_table_from
build_table_from-get_elem? zero byte i h = elim h [ ]
build_table_from-get_elem? (suc left) byte zero h =
    ap (λ (t : ℕ). some (shift_bits 8 t)) (omega arith)
build_table_from-get_elem? (suc left) byte (suc i) h =
    build_table_from-get_elem? left (suc byte) i (omega arith)
    ∙ ap (λ (t : ℕ). some (shift_bits 8 t)) (omega arith)

table_entry_of : (i v : ℕ) → get_elem? (build_table_from 256 0) i ≡ some v → table_entry i ≡ v
unfolding table_entry build_table
table_entry_of i v e = rw (e, table_entry)

table_entry-eq-shift_bits : (i : ℕ) → i < 256 → table_entry i ≡ shift_bits 8 i
table_entry-eq-shift_bits i h =
    rw (table_entry_of i _ (build_table_from-get_elem? 256 0 i h)) (ap (shift_bits 8) (omega arith))

-- A number is its low byte, with the digits above mixed in.
low_byte_split : (x : ℕ) → x ≡ bit_xor (x % 256) (256 * (x / 256))
low_byte_split x = omega (arith, bit_xor_fields 8 (x / 256) (x % 256) (omega arith))

-- One table step is the eight shifts.
pub crc_byte-eq-shift_bits :
    (crc byte : ℕ) → byte < 256 → crc_byte crc byte ≡ shift_bits 8 (bit_xor crc byte)
unfolding crc_byte
crc_byte-eq-shift_bits crc byte h =
    let x : ℕ = bit_xor crc byte in
    let high : x / 256 ≡ crc / 256 =
      bit_xor-div 8 crc byte ∙ ap (bit_xor (crc / 256)) (omega arith) ∙ bit_xor-zero (crc / 256) in
    let low : table_entry (bit_and x 0xFF) ≡ shift_bits 8 (x % 256) =
      ap table_entry (bit_and_mask 8 x) ∙ table_entry-eq-shift_bits (x % 256) (omega arith) in
    let whole : shift_bits 8 x ≡ bit_xor (shift_bits 8 (x % 256)) (x / 256) =
      ap (shift_bits 8) (low_byte_split x) ∙ shift_bits-bit_xor 8 (x % 256) (x / 256) in
    ap₂ bit_xor (sym high) low ∙ bit_xor_comm (x / 256) (shift_bits 8 (x % 256)) ∙ sym whole

-- For any bytes and any starting value, the table-driven loop computes what shifting out one bit
-- after the other computes.
pub crc_from-eq-serial_crc_from :
    (crc : ℕ) (frame : Bytes) → IsBytes frame → crc_from crc frame ≡ serial_crc_from crc frame
unfolding crc_from serial_crc_from
crc_from-eq-serial_crc_from crc [] h = refl
crc_from-eq-serial_crc_from crc (byte ∷ frame) h =
    rw (crc_byte-eq-shift_bits crc byte h.0)
      (crc_from-eq-serial_crc_from (shift_bits 8 (bit_xor crc byte)) frame h.1)
