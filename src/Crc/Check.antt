-- ===== src/Crc/Check.antt =====
-- What the checksum is good for: it fits two bytes, an appended one checks, and a change confined
-- to one byte of a frame never goes unnoticed.
use Prim.Native.Nat.{bit_xor}
use growatt_datalogger.Base.{
  ==_iff, Bool-cases, [], ap, arith, drop-append, false, ge→ltb, inl, inr, length, length-append,
  suc, sym, take-append, true, zero, ℕ, ◌%◌, ◌++◌, ◌+◌, ◌-◌, ◌/◌, ◌<◌, ◌==◌, ◌^◌, ◌∙◌, ◌∷◌, ◌≡◌,
  ◌≢◌, ◌≤◌,
}
use growatt_datalogger.Base.Bits.{bit_xor-div, bit_xor-lt, bit_xor_cancel, bit_xor_comm}
use growatt_datalogger.Crc.{append_crc, check_crc, modbus_crc, poly, shift_bit, shift_bits}
use growatt_datalogger.Crc.Bitwise.{
  crc_from-eq-serial_crc_from, serial_crc_from, shift_bit_by_parity,
}
use growatt_datalogger.Python.{Bytes, IsBytes, from_bytes, word_bytes}
use growatt_datalogger.Python.Roundtrip.{from_bytes-word_bytes}

shift_bit-lt : (x : ℕ) → x < 65536 → shift_bit x < 65536
shift_bit-lt x h = rw (shift_bit_by_parity x) (elim (Bool-cases (x % 2 == 1)) [
  | inl odd ↦ rw odd (bit_xor-lt 16 (x / 2) poly (omega arith) (omega arith))
  | inr even ↦ rw even (omega arith)
])

shift_bits-lt : (n x : ℕ) → x < 65536 → shift_bits n x < 65536
unfolding shift_bits
shift_bits-lt zero x h = h
shift_bits-lt (suc n) x h = shift_bits-lt n (shift_bit x) (shift_bit-lt x h)

serial_crc_from-lt :
    (crc : ℕ) (frame : Bytes) → crc < 65536 → IsBytes frame → serial_crc_from crc frame < 65536
unfolding serial_crc_from
serial_crc_from-lt crc [] h b = h
serial_crc_from-lt crc (byte ∷ frame) h b =
    serial_crc_from-lt (shift_bits 8 (bit_xor crc byte)) frame
      (shift_bits-lt 8 _ (bit_xor-lt 16 crc byte h (omega arith))) b.1

-- The checksum of any bytes is a 16-bit number.
pub modbus_crc-lt : (frame : Bytes) → IsBytes frame → modbus_crc frame < 65536
unfolding modbus_crc
modbus_crc-lt frame h =
    rw (crc_from-eq-serial_crc_from 0xFFFF frame h)
      (serial_crc_from-lt 0xFFFF frame (omega arith) h)

-- Any bytes, one at least, with their checksum appended pass the check.
pub check_crc-append_crc :
    (frame : Bytes) → IsBytes frame → 0 < length frame → check_crc (append_crc frame) ≡ true
unfolding check_crc append_crc
check_crc-append_crc frame h pos =
    let w : Bytes = word_bytes (modbus_crc frame) in
    let n : length (frame ++ w) ≡ length frame + 2 = length-append frame w in
    let cut : length (frame ++ w) - 2 ≡ length frame = omega arith in
    rw
      (
        ge→ltb (length (frame ++ w)) 3 (omega arith),
        take-append frame w _ cut,
        drop-append frame w _ cut,
      )
      ((==_iff (modbus_crc frame) (from_bytes w)).1
        (sym (from_bytes-word_bytes (modbus_crc frame))))

bit_xor_cancel_right : (x y b : ℕ) → bit_xor x b ≡ bit_xor y b → x ≡ y
bit_xor_cancel_right x y b e =
    sym (bit_xor_cancel x b) ∙ ap (λ (t : ℕ). bit_xor t b) e ∙ bit_xor_cancel y b

odd_shift : (x : ℕ) → (x % 2 == 1) ≡ true → shift_bit x ≡ bit_xor (x / 2) poly
odd_shift x p = rw (shift_bit_by_parity x, p)

even_shift : (x : ℕ) → (x % 2 == 1) ≡ false → shift_bit x ≡ x / 2
even_shift x p = rw (shift_bit_by_parity x, p)

odd_shift-top : (x : ℕ) → x < 65536 → (x % 2 == 1) ≡ true → 0x8000 ≤ shift_bit x
odd_shift-top x h p =
    let low : x / 2 / 2 ^ 15 ≡ 0 = omega arith in
    let top : bit_xor (x / 2) poly / 2 ^ 15 ≡ 1 =
      bit_xor-div 15 (x / 2) poly ∙ ap (λ (t : ℕ). bit_xor t 1) low in
    rw (odd_shift x p) (omega arith)

-- With the top bit of the polynomial a shift tells odd from even, and loses nothing.
shift_bit_injective : (x y : ℕ) → x < 65536 → y < 65536 → shift_bit x ≡ shift_bit y → x ≡ y
shift_bit_injective x y hx hy e = elim (Bool-cases (x % 2 == 1)) [
  | inl p ↦ elim (Bool-cases (y % 2 == 1)) [
    | inl q ↦
        let h : x / 2 ≡ y / 2 =
          bit_xor_cancel_right (x / 2) (y / 2) poly (sym (odd_shift x p) ∙ e ∙ odd_shift y q) in
        let d : x % 2 ≡ y % 2 = ground arith in omega arith
    | inr q ↦ absurd (omega (arith, odd_shift-top x hx p, even_shift y q))
  ]
  | inr p ↦ elim (Bool-cases (y % 2 == 1)) [
    | inl q ↦ absurd (omega (arith, odd_shift-top y hy q, even_shift x p))
    | inr q ↦ let d : x % 2 ≡ y % 2 = ground arith in omega (arith, even_shift x p, even_shift y q)
  ]
]

shift_bits_injective : (n x y : ℕ) → x < 65536 → y < 65536 → shift_bits n x ≡ shift_bits n y → x ≡ y
unfolding shift_bits
shift_bits_injective zero x y hx hy e = e
shift_bits_injective (suc n) x y hx hy e =
    shift_bit_injective x y hx hy
      (shift_bits_injective n (shift_bit x) (shift_bit y) (shift_bit-lt x hx) (shift_bit-lt y hy) e)

serial_crc_from_injective :
    (frame : Bytes) (c d : ℕ)
    → c < 65536
    → d < 65536
    → IsBytes frame
    → serial_crc_from c frame ≡ serial_crc_from d frame
    → c ≡ d
unfolding serial_crc_from
serial_crc_from_injective [] c d hc hd b e = e
serial_crc_from_injective (byte ∷ frame) c d hc hd b e =
    let p : bit_xor c byte < 65536 = bit_xor-lt 16 c byte hc (omega arith) in
    let q : bit_xor d byte < 65536 = bit_xor-lt 16 d byte hd (omega arith) in
    bit_xor_cancel_right c d byte (
      shift_bits_injective 8 _ _ p q
        (serial_crc_from_injective frame _ _ (shift_bits-lt 8 _ p) (shift_bits-lt 8 _ q) b.1 e))

serial_crc_one_byte :
    (pre post : Bytes) (crc a b : ℕ)
    → crc < 65536
    → IsBytes (pre ++ a ∷ post)
    → a < 256
    → b < 256
    → serial_crc_from crc (pre ++ a ∷ post) ≡ serial_crc_from crc (pre ++ b ∷ post)
    → a ≡ b
unfolding serial_crc_from
serial_crc_one_byte [] post crc a b h bytes ha hb e =
    let p : bit_xor crc a < 65536 = bit_xor-lt 16 crc a h (omega arith) in
    let q : bit_xor crc b < 65536 = bit_xor-lt 16 crc b h (omega arith) in
    bit_xor_cancel_right a b crc (
      bit_xor_comm a crc
      ∙ shift_bits_injective 8 _ _ p q
          (serial_crc_from_injective post _ _ (shift_bits-lt 8 _ p) (shift_bits-lt 8 _ q) bytes.1 e)
      ∙ bit_xor_comm crc b)
serial_crc_one_byte (x ∷ pre) post crc a b h bytes ha hb e =
    serial_crc_one_byte pre post _ a b (shift_bits-lt 8 _ (bit_xor-lt 16 crc x h (omega arith)))
      bytes.1 ha hb e

-- Two byte strings that differ in exactly one byte, and in nothing else, have different
-- checksums.
pub modbus_crc_one_byte :
    (pre post : Bytes) (a b : ℕ)
    → IsBytes (pre ++ a ∷ post)
    → IsBytes (pre ++ b ∷ post)
    → a < 256
    → b < 256
    → a ≢ b
    → modbus_crc (pre ++ a ∷ post) ≢ modbus_crc (pre ++ b ∷ post)
unfolding modbus_crc
modbus_crc_one_byte pre post a b ha hb la lb ne e = ne (
    serial_crc_one_byte pre post 0xFFFF a b (omega arith) ha la lb
      (sym (crc_from-eq-serial_crc_from 0xFFFF _ ha) ∙ e ∙ crc_from-eq-serial_crc_from 0xFFFF _ hb))
