-- ===== src/Records/Parse/Fields.antt =====
-- The fixed fields of a record body: the serial numbers and the timestamp.
use growatt_datalogger.Base.{
  All, [], ap, arith, false, length, length-append, length-replicate, le→leb, ltb, lt→ltb, refl,
  replicate, some, suc, true, zero, ℕ, ◌++◌, ◌+◌, ◌-◌, ◌<◌, ◌==◌, ◌∷◌, ◌≡◌, ◌≤◌,
}
use growatt_datalogger.Python.{
  Bytes, Datetime, Str, before_nul, decode_ascii, is_datetime, ljust, ok, strip,
}
use growatt_datalogger.Records.Parse.{read_serial, read_timestamp, timestamp_of}
use growatt_datalogger.Records.Parse.Slices.{slice_field}

-- A serial number that a device can report: ASCII with no NUL, no longer than its field.
pub record IsSerial (width : ℕ) (serial : Str) : Type 0 where
  pub fits : length serial ≤ width
  pub ascii : All (λ c. (0 < c) × (c < 128)) serial

-- The field that holds it: padded with NULs to its width.
abbrev pub serial_bytes : ℕ → Str → Bytes
serial_bytes width serial = ljust serial width

before_nul-replicate : (n : ℕ) → before_nul (replicate n 0) ≡ []
before_nul-replicate zero = refl
before_nul-replicate (suc n) = refl

before_nul-append :
    (serial : Str) (n : ℕ)
    → All (λ c. (0 < c) × (c < 128)) serial
    → before_nul (serial ++ replicate n 0) ≡ serial
before_nul-append [] n h = before_nul-replicate n
before_nul-append (c ∷ serial) n h =
    let nonzero : (c == 0) ≡ false = ground (arith, h.0) in
    rw (nonzero, before_nul) (ap (λ (t : Bytes). c ∷ t) (before_nul-append serial n h.1))

decode_ascii_self :
    (serial : Str) → All (λ c. (0 < c) × (c < 128)) serial → decode_ascii serial ≡ serial
decode_ascii_self [] h = refl
decode_ascii_self (c ∷ serial) h =
    let low : ltb c 128 ≡ true = lt→ltb c 128 h.0.1 in
    rw low (ap (λ (t : Str). c ∷ t) (decode_ascii_self serial h.1))

pub length-serial_bytes :
    (width : ℕ) (serial : Str) → length serial ≤ width → length (serial_bytes width serial) ≡ width
length-serial_bytes width serial h = omega (
  arith,
  length-append serial (replicate (width - length serial) 0),
  length-replicate {A = ℕ} (width - length serial) 0,
)

-- A serial field is read back as the serial, with white space at its ends stripped.
pub read_serial_field :
    (before rest : Bytes) (serial : Str) (offset width : ℕ)
    → offset ≡ length before
    → IsSerial width serial
    → read_serial (before ++ (serial_bytes width serial ++ rest)) offset width ≡ ok (strip serial)
unfolding read_serial
read_serial_field before rest serial offset width e h =
    let size = length-serial_bytes width serial h.fits in
    rw (
      slice_field before (serial_bytes width serial) rest offset (offset + width) e (omega arith),
      le→leb width (length (serial_bytes width serial)) (omega arith),
      before_nul-append serial (width - length serial) h.ascii,
      decode_ascii_self serial h.ascii,
    )

abbrev pub timestamp_bytes : Datetime → Bytes
timestamp_bytes t = (t.year - 2000) ∷ t.month ∷ t.day ∷ t.hour ∷ t.minute ∷ t.second ∷ []

-- A date from 2000 on is read back from its six bytes.
pub read_timestamp_field :
    (before rest : Bytes) (t : Datetime) (offset : ℕ)
    → offset ≡ length before
    → 2000 ≤ t.year
    → is_datetime t ≡ true
    → read_timestamp (before ++ (timestamp_bytes t ++ rest)) offset ≡ ok (some t)
unfolding read_timestamp timestamp_of
read_timestamp_field before rest t offset e since valid =
    let year : 2000 + (t.year - 2000) ≡ t.year = omega arith in
    rw (slice_field before (timestamp_bytes t) rest offset (offset + 6) e refl, year, valid)
