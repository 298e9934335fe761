-- ===== src/Framing/Lengths.antt =====
-- What `frame_length` reads and what it answers, and one round of the loop over a longer buffer.
use growatt_datalogger.Base.{[], arith, length, length-append, le→leb, ℕ, ◌++◌, ◌∷◌, ◌≡◌, ◌≤◌}
use growatt_datalogger.Framing.{after_length, cut, cut_within, frame_length, next_round, raise}
use growatt_datalogger.Python.{Bytes, Error, ok, slice}

-- The length is read off the first six bytes.
pub frame_length-append :
    (header more : Bytes) → 6 ≤ length header → frame_length (header ++ more) ≡ frame_length header
unfolding frame_length slice
frame_length-append (a ∷ b ∷ c ∷ d ∷ e ∷ f ∷ rest) more h = rw (
  le→leb 6 (length (a ∷ b ∷ c ∷ d ∷ e ∷ f ∷ rest ++ more)) (omega arith),
  le→leb 6 (length (a ∷ b ∷ c ∷ d ∷ e ∷ f ∷ rest)) h,
)
frame_length-append (a ∷ b ∷ c ∷ d ∷ e ∷ []) more h = absurd (omega arith)
frame_length-append (a ∷ b ∷ c ∷ d ∷ []) more h = absurd (omega arith)
frame_length-append (a ∷ b ∷ c ∷ []) more h = absurd (omega arith)
frame_length-append (a ∷ b ∷ []) more h = absurd (omega arith)
frame_length-append (a ∷ []) more h = absurd (omega arith)
frame_length-append [] more h = absurd (omega arith)

-- No frame is shorter than the header with the device id and the function code.
pub le-frame_length : (header : Bytes) (total : ℕ) → frame_length header ≡ ok total → 8 ≤ total
unfolding frame_length
le-frame_length header total h = ground arith

pub next_round-cut :
    (max_frame : ℕ) (buffer : Bytes) (total : ℕ)
    → next_round max_frame buffer ≡ cut total
    → (6 ≤ length buffer)
      × (frame_length buffer ≡ ok total)
      × (total ≤ max_frame)
      × (total ≤ length buffer)
unfolding next_round after_length cut_within
next_round-cut max_frame buffer total h = ground arith

pub cut-next_round :
    (max_frame : ℕ) (buffer : Bytes) (total : ℕ)
    → 6 ≤ length buffer
    → frame_length buffer ≡ ok total
    → total ≤ max_frame
    → total ≤ length buffer
    → next_round max_frame buffer ≡ cut total
unfolding next_round after_length cut_within
cut-next_round max_frame buffer total p q r s = ground arith

-- A round that raises does so whatever bytes follow.
pub raise-append :
    (max_frame : ℕ) (buffer more : Bytes) (e : Error)
    → next_round max_frame buffer ≡ raise e
    → next_round max_frame (buffer ++ more) ≡ raise e
unfolding next_round after_length cut_within
raise-append max_frame buffer more e h =
    ground (arith, frame_length-append buffer more, length-append buffer more)
