-- ===== src/Commands/Sent.antt =====
-- What goes over the wire when a command is built: one frame that carries the command's body, with
-- the sequence number it was given.
use growatt_datalogger.Base.{
  [], ap, arith, contains, length, true, ℕ, ◌%◌, ◌++◌, ◌+◌, ◌<◌, ◌∙◌, ◌∷◌, ◌≡◌, ◌≤◌,
}
use growatt_datalogger.Base.Bits.{bit_and_mask}
use growatt_datalogger.Commands.Build.{Command, build}
use growatt_datalogger.Crypt.{supported_protocols}
use growatt_datalogger.Framing.{IsFramed}
use growatt_datalogger.Python.{Bytes, from_bytes, index, ok, one_byte, slice, to_bytes, word_bytes}
use growatt_datalogger.Python.Roundtrip.{from_bytes-word_bytes}
use growatt_datalogger.Records.Frame.{body, function, protocol, sequence}
use growatt_datalogger.Records.Wire.{body-wire, header_of, wire, wire-IsFramed, wire_split}

-- What a built command has to be.
pub record IsSent (command : Command) (seq proto : ℕ) (raw : Bytes) : Type 0 where
  pub carries : body (record { raw = raw }) ≡ ok command.body
  pub numbered : sequence (record { raw = raw }) ≡ seq % 65536
  pub version : protocol (record { raw = raw }) ≡ ok proto
  pub code : function (record { raw = raw }) ≡ ok command.function
  pub framed :
      (max_frame : ℕ)
      → 10 + length command.body ≤ max_frame
      → contains supported_protocols proto ≡ true
      → IsFramed max_frame raw

one_byte-ok : (n : ℕ) (bs : Bytes) → one_byte n ≡ ok bs → (n < 256) × (bs ≡ n ∷ [])
one_byte-ok n bs h = ground arith

to_bytes-ok : (n : ℕ) (bs : Bytes) → to_bytes n ≡ ok bs → (n < 65536) × (bs ≡ word_bytes n)
to_bytes-ok n bs h = ground arith

build-wire :
    (command : Command) (seq proto : ℕ) (raw : Bytes)
    → build command seq proto ≡ ok raw
    → (2 + length command.body < 65536)
      × (raw
          ≡ wire
              (header_of
                  (seq % 65536)
                  proto
                  command.device_id
                  command.function
                  (length command.body)
                ++ command.body)
              proto)
unfolding build wire
build-wire command seq proto raw h = ground (arith, bit_and_mask 16 seq)

-- A command that is built, at whatever sequence number and protocol version, is one frame on the
-- wire: it has the sequence number modulo 65536, the version and the command's function code, its
-- body is the command's, and within the frame limit and a supported version the framer takes it
-- for exactly one frame.
pub build-IsSent :
    (command : Command) (seq proto : ℕ) (raw : Bytes)
    → build command seq proto ≡ ok raw
    → IsSent command seq proto raw
build-IsSent command seq proto raw h =
    let (fits, e) = build-wire command seq proto raw h in
    let s : ℕ = seq % 65536 in
    let d : ℕ = command.device_id in
    let f : ℕ = command.function in
    let (rest, split) = wire_split s proto d f command.body fits in
    let front : raw ≡ header_of s proto d f (length command.body) ++ rest = e ∙ split in
    record {
      carries =
          ap (λ (b : Bytes). body (record { raw = b })) e ∙ body-wire s proto d f command.body fits;
      numbered =
          ap (λ (b : Bytes). from_bytes (slice b 0 2)) front
          ∙ (unfold slice in from_bytes-word_bytes s);
      version = ap (λ (b : Bytes). index b 3) front;
      code = ap (λ (b : Bytes). index b 7) front;
      framed = λ max_frame limit supported.
          rw e (wire-IsFramed s proto d f command.body fits max_frame supported limit);
    }
