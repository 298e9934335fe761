-- ===== src/Python/Text.antt =====
-- `str` as a list of code points, with the decoders, encoders and strippers that the program uses.
use mathlib.Core.List.{reverse}
use growatt_datalogger.Base.{
  Bool, List, [], false, if◌then◌else◌, leb, ltb, map, true, ℕ, ◌%◌, ◌&&◌, ◌++◌, ◌+◌, ◌/◌, ◌==◌,
  ◌||◌, ◌∷◌,
}
use growatt_datalogger.Python.Binary.{Bytes}
use growatt_datalogger.Python.Errors.{Result, err, ok, value_error, ◌>>=◌}

abbrev pub Str : Type 0
Str = List ℕ

abbrev pub is_empty {ℓ} : {A : Type ℓ} → List A → Bool
is_empty [] = true
is_empty (x ∷ xs) = false

-- `s == t`
abbrev pub str_eq : Str → Str → Bool
str_eq [] [] = true
str_eq [] (y ∷ ys) = false
str_eq (x ∷ xs) [] = false
str_eq (x ∷ xs) (y ∷ ys) = x == y && str_eq xs ys

-- `c.isspace()`, of a code point below 256 or of U+FFFD
abbrev pub is_space : ℕ → Bool
is_space c = leb 9 c && leb c 13 || leb 28 c && leb c 32 || c == 133 || c == 160

abbrev pub drop_while : (ℕ → Bool) → Str → Str
drop_while p [] = []
drop_while p (c ∷ s) = elim (p c) [ true ↦ drop_while p s | false ↦ c ∷ s ]

unfoldable pub rstrip : (ℕ → Bool) → Str → Str
rstrip p s = reverse (drop_while p (reverse s))

-- `s.strip()`
unfoldable pub strip : Str → Str
unfolding rstrip
strip s = rstrip is_space (drop_while is_space s)

-- `bs.split(b"\x00", 1)[0]`
abbrev pub before_nul : Bytes → Bytes
before_nul [] = []
before_nul (b ∷ bs) = elim (b == 0) [ true ↦ [] | false ↦ b ∷ before_nul bs ]

-- `bs.decode("ascii", errors="replace")`
abbrev pub decode_ascii : Bytes → Str
decode_ascii bs = map (λ b. if ltb b 128 then b else 0xFFFD) bs

-- `s.encode("ascii")`; a code point past ASCII raises UnicodeEncodeError, which is a ValueError
abbrev pub encode_ascii : Str → Result Bytes
encode_ascii [] = ok []
encode_ascii (c ∷ s) =
    let rest = encode_ascii s in if ltb c 128 then (do bs ← rest; ok (c ∷ bs)) else err value_error

-- one code point in UTF-8; a surrogate raises UnicodeEncodeError
abbrev utf8_char : ℕ → Result Bytes
utf8_char c =
    if ltb c 0x80
    then ok (c ∷ [])
    else if ltb c 0x800
    then ok ((192 + c / 64) ∷ (128 + c % 64) ∷ [])
    else if leb 0xD800 c && leb c 0xDFFF
    then err value_error
    else if ltb c 0x10000
    then ok ((224 + c / 4096) ∷ (128 + c / 64 % 64) ∷ (128 + c % 64) ∷ [])
    else ok ((240 + c / 262144) ∷ (128 + c / 4096 % 64) ∷ (128 + c / 64 % 64) ∷ (128 + c % 64) ∷ [])

-- `s.encode("utf-8")`
abbrev pub encode_utf8 : Str → Result Bytes
encode_utf8 [] = ok []
encode_utf8 (c ∷ s) = do head ← utf8_char c; rest ← encode_utf8 s; ok (head ++ rest)
