-- ===== src/Framing.antt =====
-- framing.py: reassembly of frames from a TCP byte stream.
pub mod Lengths
pub mod Loop
pub mod Resume
pub mod Stream
mod Tests
use growatt_datalogger.Base.{
  List, [], contains, drop, if◌then◌else◌, leb, length, ltb, suc, take, zero, ℕ, ◌++◌, ◌+◌, ◌∷◌,
  ◌≡◌, ◌≤◌,
}
use growatt_datalogger.Crypt.{obfuscated_protocols, supported_protocols}
use growatt_datalogger.Python.{
  Bytes, Error, Result, err, frame_error, from_bytes, guard, index, ok, slice, value_error, ◌>>=◌,
  ◌>>◌,
}

abbrev pub default_max_frame : ℕ
default_max_frame = 8192

abbrev pub length_prefix : ℕ
length_prefix = 6

abbrev pub min_declared_length : ℕ
min_declared_length = 2

abbrev pub crc_length : ℕ → ℕ
crc_length protocol = if contains obfuscated_protocols protocol then 2 else 0

unfoldable pub frame_length : Bytes → Result ℕ
frame_length header = do
  guard (leb length_prefix (length header)) value_error
  protocol ← index header 3
  guard (contains supported_protocols protocol) frame_error
  let declared = from_bytes (slice header 4 6)
  guard (leb min_declared_length declared) frame_error
  ok (length_prefix + declared + crc_length protocol)

pub record Framer : Type 0 where
  pub max_frame : ℕ
  pub buffer : Bytes

-- `Framer(max_frame)`
pub make_framer : ℕ → Result Framer
make_framer max_frame =
    if ltb max_frame (length_prefix + min_declared_length)
    then err value_error
    else ok (record { max_frame = max_frame; buffer = [] })

pub pending : Framer → Bytes
pending framer = framer.buffer

pub reset : Framer → Framer
reset framer = record framer { buffer = [] }

-- What one round of the loop in `feed` does with the buffer: stop and wait for more bytes, raise,
-- or cut a frame off the front.
pub data Round : Type 0 where
  wait : Round
  raise : Error → Round
  cut : ℕ → Round

unfoldable pub cut_within : ℕ → Bytes → ℕ → Round
cut_within max_frame buffer total =
    if ltb max_frame total
    then raise frame_error
    else if ltb (length buffer) total
    then wait
    else cut total

unfoldable pub after_length : ℕ → Bytes → Result ℕ → Round
after_length max_frame buffer (err e) = raise e
after_length max_frame buffer (ok total) = cut_within max_frame buffer total

unfoldable pub next_round : ℕ → Bytes → Round
next_round max_frame buffer =
    if ltb (length buffer) length_prefix
    then wait
    else after_length max_frame buffer (frame_length buffer)

-- The frames collected so far, or the exception; and the buffer, which keeps what it holds when an
-- exception leaves the loop.
pub record Fed : Type 0 where
  pub result : Result (List Bytes)
  pub buffer : Bytes

-- The `while` loop of `feed`. Every frame cut off has at least eight bytes, so that fuel above the
-- buffer's length is never used up (`Framing.Loop.feed_loop_fuel`).
unfoldable pub feed_loop : ℕ → ℕ → List Bytes → Bytes → Fed
feed_loop max_frame zero frames buffer = record { result = ok frames; buffer = buffer }
feed_loop max_frame (suc fuel) frames buffer = elim (next_round max_frame buffer) [
  | wait ↦ record { result = ok frames; buffer = buffer }
  | raise e ↦ record { result = err e; buffer = buffer }
  | cut total ↦ feed_loop max_frame fuel (frames ++ take total buffer ∷ []) (drop total buffer)
]

unfoldable pub feed_bytes : ℕ → Bytes → Fed
feed_bytes max_frame buffer = feed_loop max_frame (suc (length buffer)) [] buffer

unfoldable pub feed : Framer → Bytes → Result (List Bytes) × Framer
feed framer chunk =
    let fed = feed_bytes framer.max_frame (framer.buffer ++ chunk) in
    (fed.result, record framer { buffer = fed.buffer })

-- A frame as the wire has it: as long as its header declares, and within the limit.
pub record IsFramed (max_frame : ℕ) (frame : Bytes) : Type 0 where
  pub header : 6 ≤ length frame
  pub declared : frame_length frame ≡ ok (length frame)
  pub limit : length frame ≤ max_frame

-- Frames from earlier in front of a later result.
abbrev pub prepended : List Bytes → Result (List Bytes) → Result (List Bytes)
prepended early (ok later) = ok (early ++ later)
prepended early (err e) = err e
