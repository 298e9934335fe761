-- ===== src/Records/Wire.antt =====
-- A frame put on the wire: what the accessors of `Frame` read off it, and that the framer takes it
-- for one whole frame.
use growatt_datalogger.Base.{
  Bool-cases, [], ap, ap₂, arith, contains, false, if◌then◌else◌, inl, inr, length, length-append,
  le→leb, refl, suc, sym, take, take_all, true, ℕ, ◌++◌, ◌+◌, ◌-◌, ◌<◌, ◌∙◌, ◌∷◌, ◌≡◌, ◌≤◌,
}
use growatt_datalogger.Crc.{append_crc, modbus_crc}
use growatt_datalogger.Crypt.{
  deobfuscate, keystream, obfuscate, obfuscated_protocols, supported_protocols, xor_payload,
  xor_zip,
}
use growatt_datalogger.Crypt.Keystream.{
  length-keystream, length-xor_zip, take-xor_zip-append, xor_payload-append,
}
use growatt_datalogger.Framing.{IsFramed, crc_length, frame_length}
use growatt_datalogger.Framing.Lengths.{frame_length-append}
use growatt_datalogger.Python.{Bytes, ok, slice, word_bytes}
use growatt_datalogger.Python.Roundtrip.{from_bytes-word_bytes}
use growatt_datalogger.Records.Frame.{body, function, plaintext, protocol, sequence}

-- Header and body, obfuscated and checksummed where the protocol wants it: what `commands._frame`
-- and `testing.frames.build_frame` both do with the assembled bytes.
unfoldable pub wire : Bytes → ℕ → Bytes
wire plain protocol =
    if contains obfuscated_protocols protocol then append_crc (obfuscate plain protocol) else plain

-- The eight bytes in front of a body.
abbrev pub header_of : ℕ → ℕ → ℕ → ℕ → ℕ → Bytes
header_of sequence protocol device function size =
    word_bytes sequence ++ 0 ∷ protocol ∷ word_bytes (2 + size) ++ device ∷ function ∷ []

module _ (s p d f : ℕ) (content : Bytes) (fits : 2 + length content < 65536) where
  abbrev header : Bytes
  header = header_of s p d f (length content)

  pub wire_clear :
      contains obfuscated_protocols p ≡ false → wire (header ++ content) p ≡ header ++ content
  unfolding wire
  wire_clear h = rw h

  pub wire_obfuscated :
      contains obfuscated_protocols p ≡ true
      → wire (header ++ content) p
        ≡ header
          ++ (xor_zip content (keystream (length content))
              ++ word_bytes (modbus_crc (header ++ xor_zip content (keystream (length content)))))
  unfolding wire obfuscate deobfuscate append_crc
  wire_obfuscated h = rw (h, xor_payload-append header content refl)

  frame_length-header :
      (more : Bytes)
      → contains supported_protocols p ≡ true
      → frame_length (header ++ more) ≡ ok (8 + length content + crc_length p)
  unfolding frame_length slice
  frame_length-header more h =
      frame_length-append header more (omega arith)
      ∙ rw
          (
            h,
            from_bytes-word_bytes (2 + length content),
            le→leb 2 (2 + length content) (omega arith),
          )
          (ap ok (omega arith))

  pub length-wire : length (wire (header ++ content) p) ≡ 8 + length content + crc_length p
  length-wire = elim (Bool-cases (contains obfuscated_protocols p)) [
    | inl h ↦
        let mixed : Bytes = xor_zip content (keystream (length content)) in
        let crc : Bytes = word_bytes (modbus_crc (header ++ mixed)) in
        rw (wire_obfuscated h, h)
          (omega (
            arith,
            length-append mixed crc,
            length-xor_zip content (keystream (length content))
                (sym (length-keystream (length content))),
          ))
    | inr h ↦ rw (wire_clear h, h) (omega arith)
  ]

  -- Whatever is done to the body, the header stands in front in clear.
  pub wire_split : (rest : Bytes) × (wire (header ++ content) p ≡ header ++ rest)
  wire_split = elim (Bool-cases (contains obfuscated_protocols p)) [
    | inl h ↦ (_, wire_obfuscated h)
    | inr h ↦ (content, wire_clear h)
  ]

  -- The framer finds exactly one frame in it.
  pub wire-IsFramed :
      (max_frame : ℕ)
      → contains supported_protocols p ≡ true
      → 10 + length content ≤ max_frame
      → IsFramed max_frame (wire (header ++ content) p)
  wire-IsFramed max_frame supported limit =
      let (rest, e) = wire_split in
      let size = length-wire in
      let crc : crc_length p ≤ 2 = ground arith in
      record {
        header = omega arith;
        declared = ap frame_length e ∙ frame_length-header rest supported ∙ ap ok (sym size);
        limit = omega arith;
      }

  -- The body is read back as it was.
  pub body-wire : body (record { raw = wire (header ++ content) p }) ≡ ok content
  unfolding body plaintext deobfuscate slice
  body-wire = elim (Bool-cases (contains obfuscated_protocols p)) [
    | inl h ↦
        let n : ℕ = length content in
        let mixed : Bytes = xor_zip content (keystream n) in
        let crc : Bytes = word_bytes (modbus_crc (header ++ mixed)) in
        let size = length-xor_zip content (keystream n) (sym (length-keystream n)) in
        let both = length-append mixed crc in
        let long : ℕ = length (mixed ++ crc) in
        let plain : xor_payload (header ++ (mixed ++ crc))
            ≡ header ++ xor_zip (mixed ++ crc) (keystream long) =
          xor_payload-append header (mixed ++ crc) refl in
        let total = length-xor_zip (mixed ++ crc) (keystream long) (sym (length-keystream long)) in
        rw (wire_obfuscated h, h, plain)
          (ap ok (
            ap₂ (λ (k m : ℕ). take k (xor_zip (mixed ++ crc) (keystream m))) (omega arith)
              (omega arith)
            ∙ take-xor_zip-append content crc))
    | inr h ↦
        rw (wire_clear h, h)
          (ap ok (
            take_all content
              (suc (suc (suc (suc (suc (suc (suc (suc (length content)))))))) - 0 - 8)
              (omega arith)))
  ]
