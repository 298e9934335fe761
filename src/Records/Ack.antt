-- ===== src/Records/Ack.antt =====
-- The acknowledgement that `build_ack` makes of a received frame.
use growatt_datalogger.Base.{
  Bool-cases, [], ap, arith, contains, inl, inr, refl, true, ℕ, ◌%◌, ◌++◌, ◌/◌, ◌<◌, ◌∙◌, ◌∷◌, ◌≡◌,
}
use growatt_datalogger.Crc.{append_crc}
use growatt_datalogger.Crypt.{
  keystream, obfuscated_protocols, repeated, supported_protocols, xor_zip,
}
use growatt_datalogger.Framing.{IsFramed, default_max_frame}
use growatt_datalogger.Python.{Bytes, from_bytes, index, ok, slice}
use growatt_datalogger.Python.Roundtrip.{from_bytes-word_bytes}
use growatt_datalogger.Records.Frame.{
  Frame, body, build_ack, device_id, function, protocol, sequence,
}
use growatt_datalogger.Records.Wire.{
  body-wire, header_of, wire, wire-IsFramed, wire_clear, wire_obfuscated, wire_split,
}

pub record IsAck (frame : Frame) (ack : Bytes) : Type 0 where
  pub carries : body (record { raw = ack }) ≡ ok (0 ∷ [])
  pub numbered : sequence (record { raw = ack }) ≡ sequence frame
  pub version : protocol (record { raw = ack }) ≡ protocol frame
  pub device : device_id (record { raw = ack }) ≡ device_id frame
  pub code : function (record { raw = ack }) ≡ function frame
  pub framed : IsFramed default_max_frame ack

-- A zero byte is obfuscated to the first byte of the key.
mixed_zero : xor_zip (0 ∷ []) (keystream 1) ≡ 0x47 ∷ []
unfolding xor_zip keystream repeated
mixed_zero = refl

module _ (a b c p e g d f : ℕ) (rest : Bytes) where
  abbrev received : Frame
  received = record { raw = a ∷ b ∷ c ∷ p ∷ e ∷ g ∷ d ∷ f ∷ rest }

  high_byte : b < 256 → from_bytes (a ∷ b ∷ []) / 256 ≡ a
  unfolding from_bytes
  high_byte hb = omega arith

  low_byte : b < 256 → from_bytes (a ∷ b ∷ []) % 256 ≡ b
  unfolding from_bytes
  low_byte hb = omega arith

  ack_wire :
      b < 256
      → build_ack received ≡ ok (wire (header_of (from_bytes (a ∷ b ∷ [])) p d f 1 ++ 0 ∷ []) p)
  unfolding build_ack slice append_crc
  ack_wire hb =
      let s : ℕ = from_bytes (a ∷ b ∷ []) in
      elim (Bool-cases (contains obfuscated_protocols p)) [
        | inl h ↦ rw (
          h,
          wire_obfuscated s p d f (0 ∷ []) (omega arith) h,
          mixed_zero,
          high_byte hb,
          low_byte hb,
        )
        | inr h ↦ rw (h, wire_clear s p d f (0 ∷ []) (omega arith) h, high_byte hb, low_byte hb)
      ]

  -- A received frame of at least eight bytes, the second of them a byte, and of a supported
  -- version is acknowledged by one whole frame within the default limit. It has the received
  -- frame's sequence number, version, device and function code, and its body, obfuscated where
  -- the version wants it, is the one byte zero.
  pub build_ack-IsAck :
      b < 256
      → contains supported_protocols p ≡ true
      → (ack : Bytes) × (build_ack received ≡ ok ack) × IsAck received ack
  build_ack-IsAck hb supported =
      let s : ℕ = from_bytes (a ∷ b ∷ []) in
      let ack : Bytes = wire (header_of s p d f 1 ++ 0 ∷ []) p in
      let (tail, front) = wire_split s p d f (0 ∷ []) (omega arith) in
      (
        ack,
        ack_wire hb,
        record {
          carries = body-wire s p d f (0 ∷ []) (omega arith);
          numbered =
              ap (λ (t : Bytes). from_bytes (slice t 0 2)) front
              ∙ (unfold slice in from_bytes-word_bytes s);
          version = ap (λ (t : Bytes). index t 3) front;
          device = ap (λ (t : Bytes). index t 6) front;
          code = ap (λ (t : Bytes). index t 7) front;
          framed = wire-IsFramed s p d f (0 ∷ []) (omega arith) 8192 supported (omega arith);
        },
      )
