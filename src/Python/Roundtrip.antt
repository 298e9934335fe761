-- ===== src/Python/Roundtrip.antt =====
-- Two-byte integers read back, and byte ranges.
use growatt_datalogger.Base.{[], arith, drop, suc, take, zero, ℕ, ◌<◌, ◌∷◌, ◌≡◌}
use growatt_datalogger.Python.Binary.{Bytes, IsBytes, from_bytes, to_bytes, word_bytes}
use growatt_datalogger.Python.Errors.{ok}

pub from_bytes-word_bytes : (n : ℕ) → from_bytes (word_bytes n) ≡ n
unfolding from_bytes
from_bytes-word_bytes n = omega arith

pub to_bytes-word_bytes : (n : ℕ) → n < 65536 → to_bytes n ≡ ok (word_bytes n)
to_bytes-word_bytes n h = ground arith

pub word_bytes-IsBytes : (n : ℕ) → n < 65536 → IsBytes (word_bytes n)
word_bytes-IsBytes n h = omega arith

pub IsBytes-take : (n : ℕ) (bs : Bytes) → IsBytes bs → IsBytes (take n bs)
IsBytes-take zero bs h = tt
IsBytes-take (suc n) [] h = tt
IsBytes-take (suc n) (b ∷ bs) h = (h.0, IsBytes-take n bs h.1)

pub IsBytes-drop : (n : ℕ) (bs : Bytes) → IsBytes bs → IsBytes (drop n bs)
IsBytes-drop zero bs h = h
IsBytes-drop (suc n) [] h = tt
IsBytes-drop (suc n) (b ∷ bs) h = IsBytes-drop n bs h.1
