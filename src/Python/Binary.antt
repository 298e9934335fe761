-- ===== src/Python/Binary.antt =====
-- `bytes` as lists of numbers below 256: indexing, slices, and big-endian integers.
use growatt_datalogger.Base.{
  All, List, Option, [], drop, get_elem?, if◌then◌else◌, length, ltb, none, replicate, some, take,
  ℕ, ◌%◌, ◌*◌, ◌++◌, ◌+◌, ◌-◌, ◌/◌, ◌<◌, ◌∷◌,
}
use growatt_datalogger.Python.Errors.{Result, err, index_error, ok, overflow_error, value_error}

abbrev pub Bytes : Type 0
Bytes = List ℕ

abbrev pub IsBytes : Bytes → Type 0
IsBytes bs = All (λ b. b < 256) bs

abbrev pub or_index_error {ℓ} : {A : Type ℓ} → Option A → Result A
or_index_error none = err index_error
or_index_error (some a) = ok a

-- `bs[i]` at an index that is not negative
abbrev pub index {ℓ} : {A : Type ℓ} → List A → ℕ → Result A
index bs i = or_index_error (get_elem? bs i)

-- `bs[a:b]` at bounds that are not negative: what lies beyond the end is left out
unfoldable pub slice {ℓ} : {A : Type ℓ} → List A → ℕ → ℕ → List A
slice bs a b = take (b - a) (drop a bs)

abbrev from_bytes_acc : ℕ → Bytes → ℕ
from_bytes_acc acc [] = acc
from_bytes_acc acc (b ∷ bs) = from_bytes_acc (acc * 256 + b) bs

-- `int.from_bytes(bs, "big")`
unfoldable pub from_bytes : Bytes → ℕ
from_bytes bs = from_bytes_acc 0 bs

abbrev pub word_bytes : ℕ → Bytes
word_bytes n = (n / 256) ∷ (n % 256) ∷ []

-- `n.to_bytes(2, "big")`
abbrev pub to_bytes : ℕ → Result Bytes
to_bytes n = if ltb n 65536 then ok (word_bytes n) else err overflow_error

-- `bytes([n])`
abbrev pub one_byte : ℕ → Result Bytes
one_byte n = if ltb n 256 then ok (n ∷ []) else err value_error

-- `bs.ljust(width, b"\x00")`
abbrev pub ljust : Bytes → ℕ → Bytes
ljust bs width = bs ++ replicate (width - length bs) 0
