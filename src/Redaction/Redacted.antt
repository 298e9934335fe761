-- ===== src/Redaction/Redacted.antt =====
-- What `redact` returns, for every frame and every view that it may choose.
use growatt_datalogger.Base.{
  Bool, Bool-cases, ap, arith, contains, drop, false, get_or, if◌then◌else◌, inl, inr, length, ltb,
  ltb→lt, refl, sym, take, true, ℕ, ◌+◌, ◌-◌, ◌<◌, ◌∙◌, ◌≡◌, ◌≤◌,
}
use growatt_datalogger.Crc.{append_crc, check_crc}
use growatt_datalogger.Crypt.{header_length, obfuscated_protocols, xor_payload}
use growatt_datalogger.Crypt.Keystream.{length-xor_payload}
use growatt_datalogger.Python.{Bytes, Error, IsBytes, Result, err, ok, record_error, slice}
use growatt_datalogger.Records.Frame.{protocol, serial_width}
use growatt_datalogger.Redaction.{
  Pseudonymiser, matches_in, readable_view, redact, redact_known, redact_obfuscated,
  redact_verbatim, redact_view,
}
use growatt_datalogger.Redaction.Edits.{Edited, drop-drop}
use growatt_datalogger.Redaction.Shape.{IsStable, replace_all_ok}
use growatt_datalogger.Redaction.Whole.{
  IsRedaction, IsRedaction-same, length-slice, matches_in-Matches, readable_view-gt,
  reobfuscated-IsRedaction, searched, xor_payload-IsBytes,
}

-- The end of an obfuscated frame: a valid checksum where the deobfuscated view was readable, and the
-- last two bytes of before where it was not, also if serials were replaced in the frame as it is.
abbrev pub Ended : Bool → Bool → Bytes → Bytes → Type 0
Ended true true frame out = check_crc out ≡ true
Ended true false frame out = drop (length frame - 2) out ≡ drop (length frame - 2) frame
Ended false readable frame out = length out ≡ length frame

abbrev pub Ending : Bytes → Result ℕ → Bytes → Type 0
Ending frame (err e) out = out ≡ frame
Ending frame (ok width) out =
    Ended (contains obfuscated_protocols (get_or frame 3 0))
      (readable_view (xor_payload frame) (length frame - 2) width) frame out

module _ (digest : Bytes → Bytes → Bytes)
    (digest_size : (key serial : Bytes) → length (digest key serial) ≡ 32) where
  abbrev pub Redacts : Bytes → Bool → Bool → Result (Bytes × Pseudonymiser) → Type 0
  Redacts frame obfuscated readable result =
      (out : Bytes × Pseudonymiser) × (result ≡ ok out)
      × IsRedaction frame out.0
      × IsStable out.1
      × Ended obfuscated readable frame out.0

  Ended-same : (obfuscated : Bool) (frame : Bytes) → Ended obfuscated false frame frame
  Ended-same true frame = refl
  Ended-same false frame = refl

  unchanged :
      (obfuscated : Bool) (frame : Bytes) (p : Pseudonymiser)
      → IsBytes frame
      → IsStable p
      → Redacts frame obfuscated false (ok (frame, p))
  unchanged obfuscated frame p h stable =
      ((frame, p), refl, IsRedaction-same frame h, stable, Ended-same obfuscated frame)

  redact_obfuscated-Redacts :
      (frame : Bytes) (width : ℕ) (p : Pseudonymiser)
      → IsBytes frame
      → IsStable p
      → readable_view (xor_payload frame) (length frame - 2) width ≡ true
      → Redacts frame true true (redact_obfuscated digest frame (length frame - 2) p)
  unfolding redact_obfuscated
  redact_obfuscated-Redacts frame width p h stable readable =
      let end = length frame - 2 in
      let plain : Bytes = xor_payload frame in
      let past = readable_view-gt plain end width readable in
      let bytes = xor_payload-IsBytes frame h in
      let size = length (slice plain header_length (searched end)) in
      let fits : header_length + size ≤ length plain =
        omega (arith, length-slice plain header_length (searched end), length-xor_payload frame) in
      let ((after, p'), made, (edited, bytes', stable')) =
        replace_all_ok digest digest_size 0 size (matches_in plain end (get_or frame 7 0)) plain p
          (matches_in-Matches plain end (get_or frame 7 0) bytes) fits bytes stable in
      let (shape, valid) =
        reobfuscated-IsRedaction frame after end (header_length + size) (omega arith) past edited
          bytes' in
      ((append_crc (xor_payload (take end after)), p'), rw (made) refl, shape, stable', valid)

  behind_window :
      (from to : ℕ) (a b : Bytes) → Edited from to a b → (n : ℕ) → to ≤ n → drop n b ≡ drop n a
  behind_window from to a b edited n h =
      let e : to + (n - to) ≡ n = omega arith in
      ap (λ (k : ℕ). drop k b) (sym e)
      ∙ sym (drop-drop (n - to) to b)
      ∙ ap (drop (n - to)) edited.behind
      ∙ drop-drop (n - to) to a
      ∙ ap (λ (k : ℕ). drop k a) e

  verbatim_end :
      (obfuscated : Bool) (frame after : Bytes) (size : ℕ)
      → Edited header_length (header_length + size) frame after
      → header_length + size ≤ length frame - (if obfuscated then 2 else 0)
      → Ended obfuscated false frame after
  verbatim_end true frame after size edited h =
      behind_window header_length (header_length + size) frame after edited (length frame - 2) h
  verbatim_end false frame after size edited h = edited.same_length

  -- The end of a frame that is not obfuscated is not told apart.
  plain_Redacts :
      (frame : Bytes) (readable : Bool) (result : Result (Bytes × Pseudonymiser))
      → Redacts frame false false result
      → Redacts frame false readable result
  plain_Redacts frame readable result x = x

  -- The end of the searched part lies before the last two bytes.
  redact_verbatim-Redacts :
      (frame : Bytes) (obfuscated : Bool) (width : ℕ) (p : Pseudonymiser)
      → IsBytes frame
      → IsStable p
      → readable_view frame (length frame - (if obfuscated then 2 else 0)) width ≡ true
      → Redacts frame obfuscated false
          (redact_verbatim digest frame (length frame - (if obfuscated then 2 else 0)) p)
  unfolding redact_verbatim
  redact_verbatim-Redacts frame obfuscated width p h stable readable =
      let end = length frame - (if obfuscated then 2 else 0) in
      let past = readable_view-gt frame end width readable in
      let size = length (slice frame header_length (searched end)) in
      let bound = length-slice frame header_length (searched end) in
      let ((after, p'), made, (edited, bytes', stable')) =
        replace_all_ok digest digest_size 0 size (matches_in frame end (get_or frame 7 0)) frame p
          (matches_in-Matches frame end (get_or frame 7 0) h) (omega arith) h stable in
      (
        (after, p'),
        made,
        record { same_length = edited.same_length; same_header = edited.before; bytes = bytes' },
        stable',
        verbatim_end obfuscated frame after size edited (omega arith),
      )

  redact_view-Redacts :
      (frame : Bytes) (obfuscated : Bool) (width : ℕ) (p : Pseudonymiser)
      → IsBytes frame
      → IsStable p
      → Redacts frame obfuscated (readable_view (xor_payload frame) (length frame - 2) width) (
          redact_view digest frame obfuscated
            (length frame - (if obfuscated then 2 else 0))
            width
            p)
  unfolding redact_view
  redact_view-Redacts frame true width p h stable =
      elim (Bool-cases (readable_view (xor_payload frame) (length frame - 2) width)) [
        | inl e ↦ rw (e) (redact_obfuscated-Redacts frame width p h stable e)
        | inr e ↦ elim (Bool-cases (readable_view frame (length frame - 2) width)) [
          | inl f ↦ rw (e, f) (redact_verbatim-Redacts frame true width p h stable f)
          | inr f ↦ rw (e, f) (unchanged true frame p h stable)
        ]
      ]
  redact_view-Redacts frame false width p h stable =
      elim (Bool-cases (readable_view frame (length frame - 0) width)) [
        | inl f ↦ rw (f) (
            plain_Redacts frame (readable_view (xor_payload frame) (length frame - 2) width) _
              (redact_verbatim-Redacts frame false width p h stable f))
        | inr f ↦ rw (f) (
            plain_Redacts frame (readable_view (xor_payload frame) (length frame - 2) width) _
              (unchanged false frame p h stable))
      ]

  serial_width-raises :
      (protocol : ℕ) → (e : Error) → serial_width protocol ≡ err e → e ≡ record_error
  serial_width-raises protocol e h = ground arith

  ReturnsRedacted : Bytes → Result ℕ → Result (Bytes × Pseudonymiser) → Type 0
  ReturnsRedacted frame width result =
      (out : Bytes × Pseudonymiser) × (result ≡ ok out)
      × IsRedaction frame out.0
      × IsStable out.1
      × Ending frame width out.0

  known-ReturnsRedacted :
      (frame : Bytes) (p : Pseudonymiser) (width : Result ℕ)
      → ((e : Error) → width ≡ err e → e ≡ record_error)
      → IsBytes frame
      → IsStable p
      → ReturnsRedacted frame width (redact_known digest frame p width)
  unfolding ReturnsRedacted
  known-ReturnsRedacted frame p (ok width) raises h stable =
      redact_view-Redacts frame (contains obfuscated_protocols (get_or frame 3 0)) width p h stable
  known-ReturnsRedacted frame p (err e) raises h stable =
      rw (raises e refl) ((frame, p), refl, IsRedaction-same frame h, stable, refl)

  short-Ending : (frame : Bytes) (width : Result ℕ) → length frame < 8 → Ending frame width frame
  short-Ending frame (err e) h = refl
  short-Ending frame (ok width) h =
      elim (Bool-cases (readable_view (xor_payload frame) (length frame - 2) width)) [
        | inl e ↦
            absurd (omega (arith, readable_view-gt (xor_payload frame) (length frame - 2) width e))
        | inr e ↦ rw (e) (Ended-same (contains obfuscated_protocols (get_or frame 3 0)) frame)
      ]

  -- For any frame of bytes and a pseudonymiser whose replacements have the length of what they
  -- replace, redacting succeeds with a frame of the same length and header, still of bytes, and
  -- such a pseudonymiser. A frame of an unknown protocol comes back as it is. An obfuscated frame
  -- has a valid checksum if its deobfuscated view was readable, and otherwise the last two bytes
  -- it had, also when serials were replaced in its verbatim view.
  pub redact-Ending :
      (frame : Bytes) (p : Pseudonymiser)
      → IsBytes frame
      → IsStable p
      → (out : Bytes × Pseudonymiser) × (redact digest frame p ≡ ok out)
        × IsRedaction frame out.0
        × IsStable out.1
        × Ending frame (serial_width (get_or frame 3 0)) out.0
  unfolding redact ReturnsRedacted
  redact-Ending frame p h stable = elim (Bool-cases (ltb (length frame) 8)) [
    | inl e ↦ rw (e) (
      (frame, p),
      refl,
      IsRedaction-same frame h,
      stable,
      short-Ending frame (serial_width (get_or frame 3 0)) (ltb→lt (length frame) 8 e),
    )
    | inr e ↦ rw (e) (
        known-ReturnsRedacted frame p (serial_width (get_or frame 3 0))
          (serial_width-raises (get_or frame 3 0)) h stable)
  ]
