-- ===== src/Registers/Decode.antt =====
-- `decode_registers` of registers/base.py: a profile applied to the registers of a record.
--
-- Floats are a parameter: `D` is their type, and `rounded raw scale` is `round(raw / scale, 3)`, which
-- raises where the division does.
use Prim.Native.Nat.{bit_and, bit_or}
use growatt_datalogger.Base.{
  Bool, List, Option, [], contains, false, if◌then◌else◌, leb, length, ltb, none, some, suc, true,
  zero, ℕ, ◌&&◌, ◌*◌, ◌++◌, ◌+◌, ◌-◌, ◌/◌, ◌==◌, ◌^◌, ◌||◌, ◌∷◌,
}
use growatt_datalogger.Base.Dict.{lookup}
use growatt_datalogger.Commands.Build.{negsuc, pos, ℤ}
use growatt_datalogger.Python.{Result, Str, err, ok, rstrip, strip, value_error, ◌>>=◌}
use growatt_datalogger.Python.Names.{insert_name}
use growatt_datalogger.Registers.Spec.{
  Profile, RegisterSpace, RegisterSpec, ValueKind, bitfield, raw, scaled, specs_for, text,
}

-- `a - b`
abbrev pub sub_ℕ : ℕ → ℕ → ℤ
sub_ℕ a b = if leb b a then pos (a - b) else negsuc (b - a - 1)

-- Words shifted in at the right.
unfoldable pub shift_in : ℕ → List ℕ → ℕ
shift_in value [] = value
shift_in value (word ∷ words) = shift_in (bit_or (2 ^ 16 * value) word) words

-- `value -= 1 << bits` where the sign bit is set
abbrev pub with_sign : ℕ → ℕ → ℤ
with_sign bits value = if leb (2 ^ (bits - 1)) value then sub_ℕ value (2 ^ bits) else pos value

-- `_assemble`; `1 << -1` raises, for a signed value of no words
unfoldable pub assemble : List ℕ → Bool → Result ℤ
unfolding shift_in
assemble words false = ok (pos (shift_in 0 words))
assemble [] true = err value_error
assemble (word ∷ words) true =
    ok (with_sign (16 * length (word ∷ words)) (shift_in 0 (word ∷ words)))

pub data Value (D : Type 0) : Type 0 where
  whole : ℤ → Value D
  quotient : D → Value D
  chars : Str → Value D

pub record DecodedValues (D : Type 0) : Type 0 where
  pub values : List (Str × Value D)
  pub unknown : List (ℕ × ℕ)
  pub incomplete : List Str

pub record Decoding (D : Type 0) : Type 0 where
  pub values : List (Str × Value D)
  pub incomplete : List Str
  pub consumed : List ℕ

abbrev pub word_then : Option ℕ → List ℕ → List ℕ
word_then none rest = []
word_then (some word) rest = word ∷ rest

-- The words from `number` on, up to the first that is not there.
unfoldable pub read_run : ℕ → ℕ → List (ℕ × ℕ) → List ℕ
read_run number zero registers = []
read_run number (suc n) registers =
    word_then (lookup number registers) (read_run (number + 1) n registers)

-- `spec.registers`
unfoldable pub run : ℕ → ℕ → List ℕ
run number zero = []
run number (suc n) = number ∷ run (number + 1) n

abbrev pub packed : List ℕ → Str
packed [] = []
packed (word ∷ words) = word / 256 ∷ bit_and word 0xFF ∷ packed words

unfoldable pub text_of : List ℕ → Str
text_of words = strip (rstrip (λ c. c == 0) (packed words))

-- `s < t`
abbrev pub str_ltb : Str → Str → Bool
str_ltb s [] = false
str_ltb [] (y ∷ ys) = true
str_ltb (x ∷ xs) (y ∷ ys) = ltb x y || x == y && str_ltb xs ys

abbrev put_name : Str → List Str → List Str
put_name s [] = s ∷ []
put_name s (t ∷ ts) = if str_ltb t s then t ∷ put_name s ts else s ∷ t ∷ ts

-- `sorted(names)`; names that are equal cannot be told apart
unfoldable pub sorted_names : List Str → List Str
sorted_names [] = []
sorted_names (s ∷ ss) = put_name s (sorted_names ss)

unfoldable pub without : List ℕ → List (ℕ × ℕ) → List (ℕ × ℕ)
without consumed [] = []
without consumed ((number, word) ∷ registers) =
    if contains consumed number
    then without consumed registers
    else (number, word) ∷ without consumed registers

module _ {F D : Type 0} (rounded : ℤ → F → Result D) where
  -- The value of a kind other than text.
  abbrev pub presented : ValueKind → F → ℤ → Result (Value D)
  presented scaled scale value = do d ← rounded value scale; ok (quotient d)
  presented kind scale value = ok (whole value)

  unfoldable pub number_of : RegisterSpec F → List ℕ → Result (Value D)
  unfolding assemble
  number_of spec words = do value ← assemble words spec.signed; presented spec.kind spec.scale value

  unfoldable pub value_by : ValueKind → RegisterSpec F → List ℕ → Result (Value D)
  unfolding number_of text_of
  value_by text spec words = ok (chars (text_of words))
  value_by raw spec words = number_of spec words
  value_by scaled spec words = number_of spec words
  value_by bitfield spec words = number_of spec words

  unfoldable pub value_of : RegisterSpec F → List ℕ → Result (Value D)
  unfolding value_by
  value_of spec words = value_by spec.kind spec words

  -- A spec all of whose registers were reported.
  unfoldable pub decode_complete : RegisterSpec F → List ℕ → Decoding D → Result (Decoding D)
  unfolding value_of run
  decode_complete spec words d = do
    value ← value_of spec words
    ok (record d {
      consumed = d.consumed ++ run spec.register spec.length;
      values = insert_name spec.name value d.values;
    })

  unfoldable pub decode_run : RegisterSpec F → List ℕ → Decoding D → Result (Decoding D)
  unfolding decode_complete
  decode_run spec words d =
      if length words == spec.length
      then decode_complete spec words d
      else ok (record d { incomplete = d.incomplete ++ spec.name ∷ [] })

  abbrev pub unless_absent : Option ℕ → Decoding D → Result (Decoding D) → Result (Decoding D)
  unless_absent none d decoded = ok d
  unless_absent (some word) d decoded = decoded

  -- The body of the loop.
  unfoldable pub decode_spec : List (ℕ × ℕ) → ℕ → RegisterSpec F → Decoding D → Result (Decoding D)
  unfolding decode_run read_run
  decode_spec registers start spec d =
      unless_absent (lookup start registers) d
        (decode_run spec (read_run spec.register spec.length registers) d)

  unfoldable pub decode_specs :
      List (ℕ × ℕ) → List (ℕ × RegisterSpec F) → Decoding D → Result (Decoding D)
  unfolding decode_spec
  decode_specs registers [] d = ok d
  decode_specs registers ((start, spec) ∷ specs) d = do
    d' ← decode_spec registers start spec d
    decode_specs registers specs d'

  abbrev pub no_values : Decoding D
  no_values = record { values = []; incomplete = []; consumed = [] }

  unfoldable pub decode_registers :
      Profile F → List (ℕ × ℕ) → RegisterSpace → Result (DecodedValues D)
  unfolding decode_specs without sorted_names
  decode_registers profile registers space = do
    d ← decode_specs registers (specs_for profile space) no_values
    ok (record {
      values = d.values;
      unknown = without d.consumed registers;
      incomplete = sorted_names d.incomplete;
    })
