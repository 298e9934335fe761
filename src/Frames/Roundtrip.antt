-- ===== src/Frames/Roundtrip.antt =====
-- A record built by a datalogger is parsed back by the server: the builders of testing/frames.py
-- against the parser of records.py.
use growatt_datalogger.Base.{
  All, Bool-cases, List, [], ap, append-nil, append_assoc, arith, concat, contains, false, inl, inr,
  length, le→leb, ltb, lt→ltb, refl, suc, sym, true, ℕ, ◌++◌, ◌+◌, ◌-◌, ◌<◌, ◌==◌, ◌∙◌, ◌∷◌, ◌≡◌,
}
use growatt_datalogger.Crypt.{deobfuscate, obfuscate, obfuscated_protocols}
use growatt_datalogger.Frames.{
  append_words, build_data_record, build_frame, build_group, build_groups, build_register_body,
  last_register, serial_field, timestamp_field,
}
use growatt_datalogger.Python.{Bytes, Datetime, Str, encode_ascii, index, ok, word_bytes, ◌>>=◌}
use growatt_datalogger.Python.Roundtrip.{to_bytes-word_bytes}
use growatt_datalogger.Records.Frame.{
  Frame, frame_serial_width, function, protocol, sequence, serial_width,
}
use growatt_datalogger.Records.Function.{register_record_functions}
use growatt_datalogger.Records.Parse.{RegisterGroup, parse_register_record}
use growatt_datalogger.Records.Parse.Fields.{IsSerial, serial_bytes}
use growatt_datalogger.Records.Parse.Groups.{IsGroup, encode_group, encode_groups, encode_words}
use growatt_datalogger.Records.Parse.Whole.{
  IsRecord, encode_body, parse_body-encode_body, payload_of,
}
use growatt_datalogger.Records.Wire.{body-wire, header_of, wire, wire_split}

pub append_words-encode_words :
    (out : Bytes) (values : List ℕ)
    → All (λ v. v < 65536) values
    → append_words out values ≡ ok (out ++ encode_words values)
unfolding append_words encode_words
append_words-encode_words out [] h = ap ok (sym (append-nil out))
append_words-encode_words out (v ∷ values) h = rw (to_bytes-word_bytes v h.0) (
    append_words-encode_words (out ++ word_bytes v) values h.1
    ∙ ap ok (append_assoc out (word_bytes v) (encode_words values)))

build_group-encode_group :
    (group : RegisterGroup)
    → IsGroup group
    → build_group group.start group.values ≡ ok (encode_group group)
unfolding build_group encode_group last_register
build_group-encode_group group g =
    let some_values : (group.start + length group.values == 0) ≡ false =
      ground (arith, g.counted, g.ordered) in
    let end : group.start + length group.values - 1 ≡ group.end =
      omega (arith, g.counted, g.ordered) in
    rw
      (
        to_bytes-word_bytes group.start (omega (arith, g.ordered, g.fits)),
        some_values,
        end,
        to_bytes-word_bytes group.end g.fits,
      )
      (append_words-encode_words _ group.values g.words_fit)

build_groups-encode_groups :
    (groups : List RegisterGroup)
    → All IsGroup groups
    → (parts : List Bytes) × (build_groups groups ≡ ok parts)
      × (concat parts ≡ encode_groups groups)
      × (length parts ≡ length groups)
unfolding build_groups encode_groups
build_groups-encode_groups [] h = ([], refl, refl, refl)
build_groups-encode_groups (group ∷ groups) h =
    let (parts, built, same, size) = build_groups-encode_groups groups h.1 in
    (
      encode_group group ∷ parts,
      rw (build_group-encode_group group h.0, built),
      ap (λ (t : Bytes). encode_group group ++ t) same,
      ap suc size,
    )

pub encode_ascii_self :
    (serial : Str) → All (λ c. (0 < c) × (c < 128)) serial → encode_ascii serial ≡ ok serial
encode_ascii_self [] h = refl
encode_ascii_self (c ∷ serial) h =
    let low : ltb c 128 ≡ true = lt→ltb c 128 h.0.1 in rw (encode_ascii_self serial h.1, low)

pub serial_field-serial_bytes :
    (serial : Str) (protocol width : ℕ)
    → serial_width protocol ≡ ok width
    → IsSerial width serial
    → serial_field serial protocol ≡ ok (serial_bytes width serial)
unfolding serial_field
serial_field-serial_bytes serial protocol width w h =
    rw (w, encode_ascii_self serial h.ascii, le→leb (length serial) width h.fits)

-- The assembled frame, obfuscated and checksummed as its protocol wants.
pub build_frame-wire :
    (content : Bytes) (protocol f d sequence : ℕ)
    → sequence < 65536
    → protocol < 256
    → d < 256
    → f < 256
    → 2 + length content < 65536
    → build_frame content protocol f d sequence
      ≡ ok (wire (header_of sequence protocol d f (length content) ++ content) protocol)
unfolding build_frame wire obfuscate deobfuscate
build_frame-wire content protocol f d sequence numbered p_byte d_byte f_byte fits =
    rw
      (
        to_bytes-word_bytes sequence numbered,
        lt→ltb protocol 256 p_byte,
        to_bytes-word_bytes (2 + length content) fits,
        lt→ltb d 256 d_byte,
        lt→ltb f 256 f_byte,
      )
      (elim (Bool-cases (contains obfuscated_protocols protocol)) [ inl o ↦ rw o | inr o ↦ rw o ])

module _ (protocol width : ℕ) (w : serial_width protocol ≡ ok width) (datalogger inverter : Str)
    (t : Datetime) (groups : List RegisterGroup) (h : IsRecord width datalogger inverter t groups)
    (few : length groups < 256) (recent : t.year < 2256) where
  abbrev content : Bytes
  content = encode_body width datalogger inverter t groups

  build_register_body-encode_body :
      (parts : List Bytes)
      → concat parts ≡ encode_groups groups
      → length parts ≡ length groups
      → build_register_body protocol datalogger inverter t parts ≡ ok content
  unfolding build_register_body encode_body timestamp_field
  build_register_body-encode_body parts same size =
      rw
        (
          serial_field-serial_bytes datalogger protocol width w h.datalogger_serial,
          serial_field-serial_bytes inverter protocol width w h.inverter_serial,
          le→leb 2000 t.year h.since,
          lt→ltb (t.year - 2000) 256 (omega arith),
          size,
          lt→ltb (length groups) 256 few,
          same,
        )
        refl

  module _ (f sequence : ℕ) (carries : contains register_record_functions f ≡ true)
      (numbered : sequence < 65536) (fits : 2 + length content < 65536) where
    parse-wire :
        parse_register_record (record {
          raw = wire (header_of sequence protocol 1 f (length content) ++ content) protocol;
        })
        ≡ ok (payload_of datalogger inverter t groups)
    unfolding parse_register_record
    parse-wire =
        let frame : Frame = record {
          raw = wire (header_of sequence protocol 1 f (length content) ++ content) protocol;
        } in
        let (rest, e) = wire_split sequence protocol 1 f content fits in
        let code : function frame ≡ ok f = ap (λ (b : Bytes). index b 7) e in
        let version : frame_serial_width frame ≡ ok width =
          ap (λ (b : Bytes). index b 3 >>= serial_width) e ∙ w in
        rw (code, carries, body-wire sequence protocol 1 f content fits, version)
          (parse_body-encode_body width datalogger inverter t groups h)

    -- For a protocol version with a serial width, a function code that carries register groups, a
    -- sequence number below 65536, serials of ASCII characters other than NUL that fit, a valid
    -- date of the years 2000 to 2255, and fewer than 256 groups, each of as many words as its
    -- registers, with a body shorter than 65534 bytes: the record that the frame builder makes of
    -- them is parsed back to the same timestamp and groups, and to the serials without the white
    -- space at their ends.
    pub parse-build_data_record :
        (do
          parts ← build_groups groups
          raw ← build_data_record protocol f sequence datalogger inverter t parts
          parse_register_record (record { raw = raw }))
        ≡ ok (payload_of datalogger inverter t groups)
    unfolding build_data_record
    parse-build_data_record =
        let (parts, built, same, size) = build_groups-encode_groups groups h.groups_fit in
        let p_byte : protocol < 256 = ground (arith, w) in
        let f_byte : f < 256 = ground (arith, carries) in
        rw
          (
            built,
            build_register_body-encode_body parts same size,
            build_frame-wire content protocol f 1 sequence numbered p_byte (omega arith) f_byte
                fits,
          )
          parse-wire
