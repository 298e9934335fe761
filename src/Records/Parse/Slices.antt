-- ===== src/Records/Parse/Slices.antt =====
-- Slices and words that lie within one part of a concatenation.
use growatt_datalogger.Base.{
  [], ap, arith, drop-append, length, refl, suc, take-append, zero, ℕ, ◌++◌, ◌+◌, ◌-◌, ◌∙◌, ◌∷◌,
  ◌≡◌,
}
use growatt_datalogger.Python.{Bytes, from_bytes, index, ok, slice, word_bytes}
use growatt_datalogger.Python.Roundtrip.{from_bytes-word_bytes}
use growatt_datalogger.Records.Parse.{read_word}

pub slice_field :
    (before field rest : Bytes) (offset last : ℕ)
    → offset ≡ length before
    → last ≡ offset + length field
    → slice (before ++ (field ++ rest)) offset last ≡ field
unfolding slice
slice_field before field rest offset last e f =
    rw (drop-append before (field ++ rest) offset e)
      (take-append field rest (last - offset) (omega arith))

pub read_word_field :
    (before rest : Bytes) (offset word : ℕ)
    → offset ≡ length before
    → read_word (before ++ (word_bytes word ++ rest)) offset ≡ word
unfolding read_word
read_word_field before rest offset word e =
    ap from_bytes (slice_field before (word_bytes word) rest offset (offset + 2) e refl)
    ∙ from_bytes-word_bytes word

pub index_field :
    (before rest : Bytes) (offset b : ℕ)
    → offset ≡ length before
    → index (before ++ b ∷ rest) offset ≡ ok b
index_field [] rest zero b e = refl
index_field [] rest (suc offset) b e = absurd (omega arith)
index_field (x ∷ before) rest zero b e = absurd (omega arith)
index_field (x ∷ before) rest (suc offset) b e = index_field before rest offset b (omega arith)
