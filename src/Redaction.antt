-- ===== src/Redaction.antt =====
-- redaction.py: the serials of a captured frame replaced, so that the capture can be shared.
pub mod Edits
pub mod Shape
pub mod Whole
pub mod Redacted
mod Tests
use growatt_datalogger.Base.{
  Bool, List, Option, [], contains, drop, get_or, if◌then◌else◌, leb, length, ltb, map, min, none,
  not, some, suc, take, zero, ℕ, ◌%◌, ◌&&◌, ◌*◌, ◌++◌, ◌+◌, ◌-◌, ◌==◌, ◌||◌, ◌∷◌,
}
use growatt_datalogger.Crc.{append_crc}
use growatt_datalogger.Crypt.{header_length, obfuscated_protocols, xor_payload}
use growatt_datalogger.Python.{
  Bytes, Result, err, index_error, is_empty, ok, record_error, slice, ◌>>=◌,
}
use growatt_datalogger.Python.Names.{insert_name, lookup_name}
use growatt_datalogger.Records.Frame.{serial_width}

-- HMAC-SHA256 is a parameter, `digest key serial`.

-- b"ABCDEFGHIJKLMNOPQRSTUVWXYZ0123456789"[i]
abbrev pub alphabet_at : ℕ → ℕ
alphabet_at i = if ltb i 26 then 65 + i else 48 + (i - 26)

abbrev pub alphabet_length : ℕ
alphabet_length = 36

-- [A-Z0-9]
abbrev pub in_class : ℕ → Bool
in_class b = leb 65 b && leb b 90 || leb 48 b && leb b 57

abbrev pub shortest_serial : ℕ
shortest_serial = 8

abbrev pub longest_serial : ℕ
longest_serial = 16

abbrev pub search_window : ℕ
search_window = 80

abbrev pub key_exchange_functions : List ℕ
key_exchange_functions = 0x41 ∷ []

-- `seen` is `_seen`.
pub record Pseudonymiser : Type 0 where
  pub key : Bytes
  pub seen : List (Bytes × Bytes)

-- The bytes of the class at the front, `most` at most.
unfoldable pub run_length : ℕ → Bytes → ℕ
run_length zero bs = 0
run_length (suc most) [] = 0
run_length (suc most) (b ∷ bs) = let more = run_length most bs in if in_class b then suc more else 0

abbrev pub run_at : Bytes → ℕ
run_at bs = run_length longest_serial bs

-- `_SERIAL_RE.finditer(…)`: the matches with their starts. A match is as long as it can be, and the
-- search goes on behind it; `skip` bytes are left of the last one.
unfoldable pub finditer : ℕ → ℕ → Bytes → List (ℕ × Bytes)
unfolding run_length
finditer start skip [] = []
finditer start (suc skip) (b ∷ bs) = finditer (suc start) skip bs
finditer start zero (b ∷ bs) =
    let found = leb shortest_serial (run_at (b ∷ bs)) in
    let rest = finditer (suc start) (if found then run_at (b ∷ bs) - 1 else 0) bs in
    if found then (start, take (run_at (b ∷ bs)) (b ∷ bs)) ∷ rest else rest

abbrev pub count_readable : Bytes → ℕ
count_readable [] = 0
count_readable (b ∷ bs) = (if b == 0 || leb 0x20 b && ltb b 0x7F then 1 else 0) + count_readable bs

-- `_looks_like_text`. The ratio of two small integers is at least the float 0.9 when it is at
-- least nine tenths.
unfoldable pub looks_like_text : Bytes → Bool
looks_like_text window =
    not (is_empty window) && leb (9 * length window) (10 * count_readable window)

-- `plain[start : start + n] = replacement`
unfoldable pub splice : Bytes → ℕ → ℕ → Bytes → Bytes
splice plain start n replacement = take start plain ++ (replacement ++ drop (start + n) plain)

abbrev pub leading : List (ℕ × Bytes) → List (ℕ × Bytes)
leading [] = []
leading ((start, found) ∷ matches) = if start == 0 then (start, found) ∷ [] else []

-- The matches that are replaced, in a payload of which `end` bytes may hold them.
unfoldable pub matches_in : Bytes → ℕ → ℕ → List (ℕ × Bytes)
unfolding finditer
matches_in plain end code =
    let matches =
      finditer 0 0 (slice plain header_length (min end (header_length + search_window))) in
    if contains key_exchange_functions code then leading matches else matches

unfoldable pub readable_view : Bytes → ℕ → ℕ → Bool
unfolding looks_like_text
readable_view plain end width =
    looks_like_text (slice plain header_length (min end (header_length + width)))

module _ (digest : Bytes → Bytes → Bytes) where
  -- `digest[i]` raises where a serial is longer than the digest.
  unfoldable pub replacement_for : Bytes → Bytes → Result Bytes
  replacement_for key serial =
      if leb (length serial) (length (digest key serial))
      then ok
          (map (λ b. alphabet_at (b % alphabet_length)) (take (length serial) (digest key serial)))
      else err index_error

  abbrev pub remember : Pseudonymiser → Bytes → Option Bytes → Result (Bytes × Pseudonymiser)
  remember p serial (some known) = ok (known, p)
  remember p serial none = do
    replacement ← replacement_for p.key serial
    ok (replacement, record p { seen = insert_name serial replacement p.seen })

  unfoldable pub replace : Bytes → Pseudonymiser → Result (Bytes × Pseudonymiser)
  unfolding replacement_for
  replace serial p = remember p serial (lookup_name serial p.seen)

  -- The loop over the matches.
  unfoldable pub replace_all :
      List (ℕ × Bytes) → Bytes → Pseudonymiser → Result (Bytes × Pseudonymiser)
  unfolding replace splice
  replace_all [] plain p = ok (plain, p)
  replace_all ((start, serial) ∷ matches) plain p = do
    (replacement, p') ← replace serial p
    replace_all matches (splice plain (header_length + start) (length serial) replacement) p'

  -- The deobfuscated view: edited, obfuscated again and given a checksum.
  unfoldable pub redact_obfuscated : Bytes → ℕ → Pseudonymiser → Result (Bytes × Pseudonymiser)
  unfolding replace_all matches_in
  redact_obfuscated frame end p = do
    (plain, p') ←
        replace_all (matches_in (xor_payload frame) end (get_or frame 7 0)) (xor_payload frame) p
    ok (append_crc (xor_payload (take end plain)), p')

  unfoldable pub redact_verbatim : Bytes → ℕ → Pseudonymiser → Result (Bytes × Pseudonymiser)
  unfolding replace_all matches_in
  redact_verbatim frame end p = replace_all (matches_in frame end (get_or frame 7 0)) frame p

  -- The first view that looks like text.
  unfoldable pub redact_view : Bytes → Bool → ℕ → ℕ → Pseudonymiser → Result (Bytes × Pseudonymiser)
  unfolding redact_obfuscated redact_verbatim readable_view
  redact_view frame obfuscated end width p =
      if obfuscated && readable_view (xor_payload frame) end width
      then redact_obfuscated frame end p
      else if readable_view frame end width
      then redact_verbatim frame end p
      else ok (frame, p)

  abbrev pub redact_known : Bytes → Pseudonymiser → Result ℕ → Result (Bytes × Pseudonymiser)
  redact_known frame p (err record_error) = ok (frame, p)
  redact_known frame p (err e) = err e
  redact_known frame p (ok width) =
      let obfuscated = contains obfuscated_protocols (get_or frame 3 0) in
      redact_view frame obfuscated (length frame - (if obfuscated then 2 else 0)) width p

  unfoldable pub redact : Bytes → Pseudonymiser → Result (Bytes × Pseudonymiser)
  unfolding redact_view
  redact frame p =
      if ltb (length frame) 8
      then ok (frame, p)
      else redact_known frame p (serial_width (get_or frame 3 0))
