-- ===== src/Commands/Answered.antt =====
-- A reply that a device builds is understood: the builders of testing/frames.py against
-- `parse_command_response`.
use growatt_datalogger.Base.{
  All, List, [], ap, append_assoc, arith, drop, drop-append, false, ge→ltb, length, length-append,
  le→leb, ltb, lt→ltb, none, refl, some, suc, sym, ℕ, ◌++◌, ◌+◌, ◌-◌, ◌<◌, ◌∙◌, ◌∷◌, ◌≡◌, ◌≤◌,
}
use growatt_datalogger.Commands.Reply.{
  CommandResponse, integer, parse_command_response, parse_reply, read_reply, response_of,
}
use growatt_datalogger.Frames.Replies.{
  build_command_response, build_range_write_response, build_read_response, build_write_response,
}
use growatt_datalogger.Frames.Roundtrip.{
  append_words-encode_words, build_frame-wire, serial_field-serial_bytes,
}
use growatt_datalogger.Python.{Bytes, Str, index, ok, slice, word_bytes, ◌>>=◌}
use growatt_datalogger.Python.Roundtrip.{from_bytes-word_bytes, to_bytes-word_bytes}
use growatt_datalogger.Records.Frame.{Frame, frame_serial_width, function, serial_width}
use growatt_datalogger.Records.Parse.Fields.{IsSerial, length-serial_bytes, serial_bytes}
use growatt_datalogger.Records.Parse.Groups.{encode_words, length-encode_words, words-encode_words}
use growatt_datalogger.Records.Parse.Slices.{slice_field}
use growatt_datalogger.Records.Wire.{body-wire, header_of, wire, wire_split}

module _ (protocol width : ℕ) (w : serial_width protocol ≡ ok width) (serial : Str)
    (h : IsSerial width serial) (register sequence : ℕ) (reg : register < 65536)
    (numbered : sequence < 65536) where
  -- Whatever the tail is, the parser gets as far as the code's own branch with it.
  parse-build_command_response :
      (code : ℕ) (tail : Bytes)
      → code < 256
      → length tail < 65500
      → (do
        raw ← build_command_response serial code register tail protocol sequence
        parse_command_response (record { raw = raw }))
        ≡ parse_reply code register tail
  unfolding build_command_response parse_command_response
  parse-build_command_response code tail byte small =
      let p_byte : protocol < 256 = ground (arith, w) in
      let narrow : width ≤ 30 = ground (arith, w) in
      let field : Bytes = serial_bytes width serial in
      let content : Bytes = field ++ (word_bytes register ++ tail) in
      let wide = length-serial_bytes width serial h.fits in
      let size : length content ≡ width + 2 + length tail =
        omega (arith, length-append field (word_bytes register ++ tail)) in
      let fits : 2 + length content < 65536 = omega arith in
      let frame : Frame = record {
        raw = wire (header_of sequence protocol 1 code (length content) ++ content) protocol;
      } in
      let (rest, e) = wire_split sequence protocol 1 code content fits in
      let named : function frame ≡ ok code = ap (λ (b : Bytes). index b 7) e in
      let version : frame_serial_width frame ≡ ok width =
        ap (λ (b : Bytes). index b 3 >>= serial_width) e ∙ w in
      let number_field : slice content width (width + 2) ≡ word_bytes register =
        slice_field field (word_bytes register) tail width (width + 2) (sym wide) refl in
      let remains : drop (width + 2) content ≡ tail =
        ap (drop (width + 2)) (sym (append_assoc field (word_bytes register) tail))
        ∙ drop-append (field ++ word_bytes register) tail (width + 2)
            (omega (arith, length-append field (word_bytes register))) in
      rw
        (
          serial_field-serial_bytes serial protocol width w h,
          to_bytes-word_bytes register reg,
          build_frame-wire content protocol code 1 sequence numbered p_byte (omega arith) byte fits,
          named,
          body-wire sequence protocol 1 code content fits,
          version,
          le→leb (width + 2) (length content) (omega arith),
          number_field,
          remains,
          from_bytes-word_bytes register,
        )
        refl

  -- For a protocol version with a serial width, a serial of ASCII characters other than NUL that
  -- fits, and numbers that fit into their fields: the reply to a read of one or more registers is
  -- parsed to its register, the end of its range, the first word as the value, and all the words
  -- in order. There are at most 30000 words.
  pub parse-build_read_response :
      (value : ℕ) (values : List ℕ)
      → All (λ v. v < 65536) (value ∷ values)
      → register + length values < 65536
      → length values < 30000
      → (do
        raw ← build_read_response serial register (value ∷ values) none protocol sequence
        parse_command_response (record { raw = raw }))
        ≡ ok (record (response_of 0x05 register) {
          value = integer value;
          end_register = some (register + length values);
          values = value ∷ values;
        })
  unfolding build_read_response parse_reply
  parse-build_read_response value values fit last few =
      let end : ℕ = register + length values in
      let e : register + suc (length values) - 1 ≡ end = omega arith in
      let tail : Bytes = word_bytes end ++ encode_words (value ∷ values) in
      let size = length-encode_words (value ∷ values) in
      let long : ltb (length tail) 4 ≡ false = ge→ltb (length tail) 4 (omega arith) in
      let read : read_reply 0x05 register tail ≡ record (response_of 0x05 register) {
        value = integer value;
        end_register = some end;
        values = value ∷ values;
      } =
        unfold read_reply slice in
        rw (long, from_bytes-word_bytes end, words-encode_words (value ∷ values) fit) in
      rw
        (
          e,
          to_bytes-word_bytes end last,
          append_words-encode_words (word_bytes end) (value ∷ values) fit,
        )
        (parse-build_command_response 0x05 tail (omega arith) (omega arith)
          ∙ ap (λ (r : CommandResponse). ok r) read)

  -- Under the same conditions, the reply to the write of a register is parsed to its register,
  -- its status byte and its value, neither in place of the other.
  pub parse-build_write_response :
      (value result : ℕ)
      → value < 65536
      → result < 256
      → (do
        raw ← build_write_response serial register value result protocol sequence
        parse_command_response (record { raw = raw }))
        ≡ ok (record (response_of 0x06 register) { value = integer value; result = some result })
  unfolding build_write_response parse_reply slice
  parse-build_write_response value result v r =
      rw (lt→ltb result 256 r, to_bytes-word_bytes value v)
        (parse-build_command_response 0x06 (result ∷ word_bytes value) (omega arith) (omega arith)
          ∙ ap
              (λ (n : ℕ).
                ok (record (response_of 0x06 register) { value = integer n; result = some result }))
              (from_bytes-word_bytes value))

  -- Under the same conditions, the reply to a write of a range is parsed to its first and its
  -- last register and its status byte.
  pub parse-build_range_write_response :
      (end result : ℕ)
      → end < 65536
      → result < 256
      → (do
        raw ← build_range_write_response serial register end result protocol sequence
        parse_command_response (record { raw = raw }))
        ≡ ok (record (response_of 0x10 register) { result = some result; end_register = some end })
  unfolding build_range_write_response parse_reply
  parse-build_range_write_response end result v r =
      rw (to_bytes-word_bytes end v, lt→ltb result 256 r)
        (parse-build_command_response 0x10 (word_bytes end ++ result ∷ []) (omega arith)
            (omega arith)
          ∙ ap
              (λ (n : ℕ). ok (record (response_of 0x10 register) {
                result = some result;
                end_register = some n;
              }))
              (from_bytes-word_bytes end))
