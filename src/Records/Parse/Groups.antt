-- ===== src/Records/Parse/Groups.antt =====
-- Register groups on the wire: what the parser reads is what was encoded, and what it read encodes
-- to the bytes that it read.
use growatt_datalogger.Base.{
  All, List, [], ap, append_assoc, ap₂, arith, length, length-append, le→leb, refl, sym, ℕ, ◌*◌,
  ◌++◌, ◌+◌, ◌-◌, ◌<◌, ◌∙◌, ◌∷◌, ◌≡◌, ◌≤◌,
}
use growatt_datalogger.Python.{Bytes, ok, slice, word_bytes}
use growatt_datalogger.Python.Roundtrip.{from_bytes-word_bytes}
use growatt_datalogger.Records.Frame.{body}
use growatt_datalogger.Records.Parse.{RegisterGroup, parse_group, parse_groups, read_word, words}
use growatt_datalogger.Records.Parse.Slices.{read_word_field, slice_field}

-- The words of a group, high byte first.
unfoldable pub encode_words : List ℕ → Bytes
encode_words [] = []
encode_words (v ∷ values) = word_bytes v ++ encode_words values

-- A group as the wire has it: first and last register, then a word for each.
unfoldable pub encode_group : RegisterGroup → Bytes
encode_group group = word_bytes group.start ++ word_bytes group.end ++ encode_words group.values

unfoldable pub encode_groups : List RegisterGroup → Bytes
encode_groups [] = []
encode_groups (group ∷ groups) = encode_group group ++ encode_groups groups

-- As many 16-bit words as the range has registers.
pub record IsGroup (group : RegisterGroup) : Type 0 where
  pub ordered : group.start ≤ group.end
  pub fits : group.end < 65536
  pub counted : length group.values ≡ group.end + 1 - group.start
  pub words_fit : All (λ v. v < 65536) group.values

pub words-encode_words :
    (values : List ℕ) → All (λ v. v < 65536) values → words (encode_words values) ≡ values
unfolding words encode_words
words-encode_words [] h = refl
words-encode_words (v ∷ values) h =
    ap₂ ◌∷◌ (from_bytes-word_bytes v) (words-encode_words values h.1)

pub length-encode_words : (values : List ℕ) → length (encode_words values) ≡ 2 * length values
unfolding encode_words
length-encode_words [] = refl
length-encode_words (v ∷ values) = omega (arith, length-encode_words values)

pub length-encode_group :
    (group : RegisterGroup) → length (encode_group group) ≡ 4 + 2 * length group.values
unfolding encode_group
length-encode_group group = omega (arith, length-encode_words group.values)

-- A round of the parser from the four things that it looks up.
parse_group_found :
    (body chunk : Bytes) (offset start end : ℕ)
    → offset + 4 ≤ length body
    → read_word body offset ≡ start
    → read_word body (offset + 2) ≡ end
    → start ≤ end
    → slice body (offset + 4) (offset + 4 + (end - start + 1) * 2) ≡ chunk
    → length chunk ≡ (end - start + 1) * 2
    → parse_group body offset
      ≡ ok (
        record { start = start; end = end; values = words chunk },
        offset + 4 + (end - start + 1) * 2,
      )
unfolding parse_group
parse_group_found body chunk offset start end fits s e ordered c size = rw (
  le→leb (offset + 4) (length body) fits,
  s,
  e,
  le→leb start end ordered,
  c,
  le→leb ((end - start + 1) * 2) (length chunk) (omega arith),
)

-- One group is read back, wherever it stands.
pub parse_group-encode_group :
    (before rest : Bytes) (group : RegisterGroup) (offset : ℕ)
    → offset ≡ length before
    → IsGroup group
    → parse_group (before ++ (encode_group group ++ rest)) offset
      ≡ ok (group, offset + length (encode_group group))
unfolding encode_group
parse_group-encode_group before rest group offset e g =
    let chunk : Bytes = encode_words group.values in
    let whole : Bytes = before ++ (encode_group group ++ rest) in
    let size = length-encode_words group.values in
    let total = length-append before (encode_group group ++ rest) in
    let inner = length-append (encode_group group) rest in
    let own = length-encode_group group in
    let s2 = length-append before (word_bytes group.start) in
    let s4 = length-append before (word_bytes group.start ++ word_bytes group.end) in
    let n : (group.end - group.start + 1) * 2 ≡ length chunk =
      omega (arith, g.ordered, g.counted) in
    let start : read_word whole offset ≡ group.start =
      read_word_field before (word_bytes group.end ++ (chunk ++ rest)) offset group.start e in
    let end : read_word whole (offset + 2) ≡ group.end =
      ap (λ (t : Bytes). read_word t (offset + 2))
        (sym (append_assoc before (word_bytes group.start) _))
      ∙ read_word_field (before ++ word_bytes group.start) (chunk ++ rest) (offset + 2) group.end
          (omega arith) in
    let last : ℕ = offset + 4 + (group.end - group.start + 1) * 2 in
    let found : slice whole (offset + 4) last ≡ chunk =
      ap (λ (t : Bytes). slice t (offset + 4) last)
        (sym (append_assoc before (word_bytes group.start ++ word_bytes group.end) _))
      ∙ slice_field (before ++ (word_bytes group.start ++ word_bytes group.end)) chunk rest
          (offset + 4) last (omega arith) (omega arith) in
    parse_group_found whole chunk offset group.start group.end (omega arith) start end g.ordered
      found (sym n)
    ∙ ap₂ (λ (v : List ℕ) (k : ℕ). ok (record group { values = v }, k))
        (words-encode_words group.values g.words_fit) (omega arith)

-- Any number of groups are read back, and the parser stops behind the last of them.
pub parse_groups-encode_groups :
    (before rest : Bytes) (groups : List RegisterGroup) (offset : ℕ)
    → offset ≡ length before
    → All IsGroup groups
    → parse_groups (length groups) (before ++ (encode_groups groups ++ rest)) offset
      ≡ ok (groups, offset + length (encode_groups groups))
unfolding parse_groups encode_groups
parse_groups-encode_groups before rest [] offset e h = ap (λ (k : ℕ). ok ([], k)) (omega arith)
parse_groups-encode_groups before rest (group ∷ groups) offset e h =
    let later : Bytes = encode_groups groups ++ rest in
    let split : before ++ (encode_groups (group ∷ groups) ++ rest)
        ≡ before ++ (encode_group group ++ later) =
      ap (λ (t : Bytes). before ++ t)
        (append_assoc (encode_group group) (encode_groups groups) rest) in
    let split' : before ++ (encode_groups (group ∷ groups) ++ rest)
        ≡ (before ++ encode_group group) ++ later =
      split ∙ sym (append_assoc before (encode_group group) later) in
    let one : parse_group (before ++ (encode_groups (group ∷ groups) ++ rest)) offset
        ≡ ok (group, offset + length (encode_group group)) =
      ap (λ (t : Bytes). parse_group t offset) split
      ∙ parse_group-encode_group before later group offset e h.0 in
    let others : parse_groups (length groups) (before ++ (encode_groups (group ∷ groups) ++ rest))
          (offset + length (encode_group group))
        ≡ ok (groups, offset + length (encode_group group) + length (encode_groups groups)) =
      ap (λ (t : Bytes). parse_groups (length groups) t (offset + length (encode_group group)))
        split'
      ∙ parse_groups-encode_groups (before ++ encode_group group) rest groups
          (offset + length (encode_group group))
          (omega (arith, length-append before (encode_group group))) h.1 in
    rw (one, others)
      (ap (λ (k : ℕ). ok (group ∷ groups, k))
        (omega (arith, length-append (encode_group group) (encode_groups groups))))
