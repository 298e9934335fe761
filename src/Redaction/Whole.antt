-- ===== src/Redaction/Whole.antt =====
-- `redact` as a whole: it returns a frame of the same shape, whatever the frame is.
use growatt_datalogger.Base.{
  All-append, Bool-cases, List, [], ap, arith, contains, drop, false, inl, inr, leb, leb→gt, leb→le,
  length, length-append, length-drop, length-take, min, refl, suc, take, take-append_within, true,
  zero, ℕ, ◌+◌, ◌-◌, ◌/◌, ◌<◌, ◌==◌, ◌∙◌, ◌∷◌, ◌≡◌, ◌≤◌,
}
use growatt_datalogger.Base.Bits.{bit_xor-lt}
use growatt_datalogger.Crc.{append_crc, check_crc, modbus_crc}
use growatt_datalogger.Crc.Check.{check_crc-append_crc, modbus_crc-lt}
use growatt_datalogger.Crypt.{header_length, key, keystream, repeated, xor_payload, xor_zip}
use growatt_datalogger.Crypt.Keystream.{length-xor_payload, take-xor_payload}
use growatt_datalogger.Python.{Bytes, IsBytes, slice, word_bytes}
use growatt_datalogger.Python.Roundtrip.{IsBytes-drop, IsBytes-take, word_bytes-IsBytes}
use growatt_datalogger.Redaction.{
  key_exchange_functions, leading, looks_like_text, matches_in, readable_view, search_window,
}
use growatt_datalogger.Redaction.Edits.{Edited, take-take}
use growatt_datalogger.Redaction.Shape.{Matches, finditer-Matches}
use growatt_datalogger.Relay.{start}

xor_zip-IsBytes : (xs ys : Bytes) → IsBytes xs → IsBytes ys → IsBytes (xor_zip xs ys)
unfolding xor_zip
xor_zip-IsBytes [] ys h k = tt
xor_zip-IsBytes (x ∷ xs) [] h k = tt
xor_zip-IsBytes (x ∷ xs) (y ∷ ys) h k = (bit_xor-lt 8 x y h.0 k.0, xor_zip-IsBytes xs ys h.1 k.1)

repeated-IsBytes : (n : ℕ) (bs : Bytes) → IsBytes bs → IsBytes (repeated n bs)
unfolding repeated
repeated-IsBytes zero bs h = tt
repeated-IsBytes (suc n) bs h =
    All-append (λ (b : ℕ). b < 256) bs (repeated n bs) h (repeated-IsBytes n bs h)

keystream-IsBytes : (n : ℕ) → IsBytes (keystream n)
unfolding keystream
keystream-IsBytes n =
    IsBytes-take n (repeated ((n + 6) / 7) key) (repeated-IsBytes ((n + 6) / 7) key (omega arith))

pub xor_payload-IsBytes : (frame : Bytes) → IsBytes frame → IsBytes (xor_payload frame)
unfolding xor_payload
xor_payload-IsBytes frame h = elim (Bool-cases (leb (length frame) header_length)) [
  | inl e ↦ rw (e) h
  | inr e ↦ rw (e) (
      All-append (λ (b : ℕ). b < 256) (take header_length frame)
        (xor_zip (drop header_length frame) (keystream (length (drop header_length frame))))
        (IsBytes-take header_length frame h)
        (xor_zip-IsBytes (drop header_length frame) (keystream (length (drop header_length frame)))
          (IsBytes-drop header_length frame h) (keystream-IsBytes _)))
]

append_crc-IsBytes : (frame : Bytes) → IsBytes frame → IsBytes (append_crc frame)
unfolding append_crc
append_crc-IsBytes frame h =
    All-append (λ (b : ℕ). b < 256) frame (word_bytes (modbus_crc frame)) h
      (word_bytes-IsBytes (modbus_crc frame) (modbus_crc-lt frame h))

pub length-slice : (bs : Bytes) (a b : ℕ) → length (slice bs a b) ≡ min (b - a) (length bs - a)
unfolding slice
length-slice bs a b = length-take (b - a) (drop a bs) ∙ ap (min (b - a)) (length-drop a bs)

-- A view that is readable has bytes behind its header.
pub readable_view-gt :
    (plain : Bytes) (end width : ℕ) → readable_view plain end width ≡ true → header_length < end
unfolding readable_view
readable_view-gt plain end width h = elim (Bool-cases (leb end header_length)) [
  | inl e ↦
      let nothing : min end (header_length + width) - header_length ≡ 0 =
        omega (arith, leb→le end header_length e) in
      let blank : looks_like_text (slice plain header_length (min end (header_length + width)))
          ≡ false =
        unfold slice looks_like_text in
        ap (λ (n : ℕ). looks_like_text (take n (drop header_length plain))) nothing in
      absurd (cc)
  | inr e ↦ leb→gt end header_length e
]

leading-Matches :
    (to : ℕ) (matches : List (ℕ × Bytes)) → Matches 0 to matches → Matches 0 to (leading matches)
leading-Matches to [] h = tt
leading-Matches to ((start, serial) ∷ matches) h = elim (Bool-cases (start == 0)) [
  | inl e ↦ rw (e) (h.0, tt)
  | inr e ↦ rw (e) tt
]

abbrev pub searched : ℕ → ℕ
searched end = min end (header_length + search_window)

pub matches_in-Matches :
    (plain : Bytes) (end code : ℕ)
    → IsBytes plain
    → Matches 0 (length (slice plain header_length (searched end))) (matches_in plain end code)
unfolding matches_in
matches_in-Matches plain end code h =
    let window_bytes : IsBytes (slice plain header_length (searched end)) =
      unfold slice in
      IsBytes-take _ (drop header_length plain) (IsBytes-drop header_length plain h) in
    let all =
      finditer-Matches 0 (length (slice plain header_length (searched end))) 0
        (slice plain header_length (searched end)) (omega arith) window_bytes in
    elim (Bool-cases (contains key_exchange_functions code)) [
      | inl e ↦ rw (e) (leading-Matches _ _ all)
      | inr e ↦ rw (e) all
    ]

-- A frame of the same length and header.
pub record IsRedaction (frame : Bytes) (out : Bytes) : Type 0 where
  pub same_length : length out ≡ length frame
  pub same_header : take header_length out ≡ take header_length frame
  pub bytes : IsBytes out

pub IsRedaction-same : (frame : Bytes) → IsBytes frame → IsRedaction frame frame
IsRedaction-same frame h = record { same_length = refl; same_header = refl; bytes = h }

length-append_crc : (frame : Bytes) → length (append_crc frame) ≡ length frame + 2
unfolding append_crc
length-append_crc frame = length-append frame (word_bytes (modbus_crc frame))

take-append_crc :
    (n : ℕ) (frame : Bytes) → n ≤ length frame → take n (append_crc frame) ≡ take n frame
unfolding append_crc
take-append_crc n frame h = take-append_within frame (word_bytes (modbus_crc frame)) n h

-- The edited view of an obfuscated frame, put back together.
pub reobfuscated-IsRedaction :
    (frame plain : Bytes) (end to : ℕ)
    → end + 2 ≡ length frame
    → header_length < end
    → Edited header_length to (xor_payload frame) plain
    → IsBytes plain
    → IsRedaction frame (append_crc (xor_payload (take end plain)))
      × (check_crc (append_crc (xor_payload (take end plain))) ≡ true)
reobfuscated-IsRedaction frame plain end to size past edited bytes =
    let body : Bytes = xor_payload (take end plain) in
    let n : length body ≡ end = omega (
      arith,
      length-xor_payload (take end plain),
      length-take end plain,
      edited.same_length,
      length-xor_payload frame,
    ) in
    let good : IsBytes body = xor_payload-IsBytes (take end plain) (IsBytes-take end plain bytes) in
    (
      record {
        same_length = omega (arith, length-append_crc body);
        same_header =
            take-append_crc header_length body (omega arith)
            ∙ take-xor_payload (take end plain)
            ∙ take-take header_length end plain (omega arith)
            ∙ edited.before
            ∙ take-xor_payload frame;
        bytes = append_crc-IsBytes body good;
      },
      check_crc-append_crc body good (omega arith),
    )
