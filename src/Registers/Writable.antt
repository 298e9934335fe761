-- ===== src/Registers/Writable.antt =====
-- The registers that may be written, and how a value becomes a word and back: writable.py.
--
-- What Python does with the numbers and strings that a caller passes is a parameter, `Builtins`.
use Prim.Native.Nat.{bit_or}
use growatt_datalogger.Base.{
  Bool, List, Option, [], if◌then◌else◌, ltb, none, not, some, take, ℕ, ◌%◌, ◌*◌, ◌++◌, ◌+◌, ◌/◌,
  ◌==◌, ◌∷◌,
}
use growatt_datalogger.Python.{Result, Str, err, is_empty, ok, str_eq, value_error, ◌>>=◌}
use growatt_datalogger.Registers.Profiles.{ProfileKey}
use growatt_datalogger.Registers.Slots.{Schedule}

pub data WriteKind : Type 0 where
  number switch select time : WriteKind

pub data Encoding : Type 0 where
  raw scaled bool hhmm : Encoding

pub data Confidence : Type 0 where
  verified community unverified : Confidence

pub data Boundary : Type 0 where
  start_time stop_time enabled : Boundary

-- The keys of the table; those of a window are put together from its slot.
pub data Key : Type 0 where
  output_power_limit inverter_enabled charge_priority ac_charge_enabled : Key
  battery_first_stop_soc grid_first_stop_soc load_first_stop_soc : Key
  grid_first_discharge_power_rate battery_first_charge_power_rate : Key
  window : Schedule → ℕ → Boundary → Key

-- `WritableRegister` without its source, unit, icon and step; the bounds are whole in all entries.
pub record WritableRegister : Type 0 where
  pub key : Key
  pub register : ℕ
  pub kind : WriteKind
  pub confidence : Confidence
  pub profiles : List ProfileKey
  pub encoding : Encoding
  pub minimum : ℕ
  pub maximum : ℕ
  pub options : List (Str × ℕ)

-- `float | bool | str`, the first of them by its value where it is whole
pub data Setting : Type 0 where
  truth : Bool → Setting
  whole : ℕ → Setting
  written : Str → Setting

-- `str(value)`, `int(chars)` and `int(value)`; `round(float(value) * scale)` and `word / scale`.
pub record Builtins : Type 0 where
  pub str : Setting → Str
  pub int_of : Str → Result ℕ
  pub int : Setting → Result ℕ
  pub scale_up : Setting → Result ℕ
  pub scale_down : ℕ → Setting

abbrev truthy : Setting → Bool
truthy (truth b) = b
truthy (whole n) = not (n == 0)
truthy (written chars) = not (is_empty chars)

-- `str(value).partition(":")`, its first and its last part
unfoldable pub partition : ℕ → Str → Str × Str
partition separator [] = ([], [])
partition separator (c ∷ chars) =
    let rest = partition separator chars in
    if c == separator then ([], chars) else (c ∷ rest.0, rest.1)

unfoldable pub encode_hhmm : Builtins → Str → Result ℕ
unfolding partition
encode_hhmm builtins chars = do
  let (hour, minute) = partition 58 chars
  h ← builtins.int_of hour
  m ← builtins.int_of (take 2 minute)
  ok (bit_or (h * 256) m)

unfoldable pub option_word : List (Str × ℕ) → Setting → Result ℕ
option_word [] value = err value_error
option_word ((label, word) ∷ options) (written chars) =
    let rest = option_word options (written chars) in if str_eq label chars then ok word else rest
option_word ((label, word) ∷ options) value = err value_error

unfoldable pub encode_plain : Builtins → WritableRegister → Setting → Result ℕ
unfolding option_word
encode_plain builtins entry value = elim entry.kind [
  | select ↦ option_word entry.options value
  | number ↦ builtins.int value
  | switch ↦ builtins.int value
  | time ↦ builtins.int value
]

-- `WritableRegister.encode`
unfoldable pub encode : Builtins → WritableRegister → Setting → Result ℕ
unfolding encode_hhmm encode_plain
encode builtins entry value = elim entry.encoding [
  | bool ↦ ok (if truthy value then 1 else 0)
  | scaled ↦ builtins.scale_up value
  | hhmm ↦ encode_hhmm builtins (builtins.str value)
  | raw ↦ encode_plain builtins entry value
]

unfoldable pub option_label : List (Str × ℕ) → ℕ → Option Setting
option_label [] word = none
option_label ((label, value) ∷ options) word =
    let rest = option_label options word in if value == word then some (written label) else rest

-- `f"{n:02d}"`, of a number below 256
unfoldable pub two_digits : ℕ → Str
two_digits n =
    if ltb n 100
    then (48 + n / 10) ∷ (48 + n % 10) ∷ []
    else (48 + n / 100) ∷ (48 + n / 10 % 10) ∷ (48 + n % 10) ∷ []

unfoldable pub decode_plain : WritableRegister → ℕ → Option Setting
unfolding option_label
decode_plain entry word = elim entry.kind [
  | select ↦ option_label entry.options word
  | number ↦ some (whole word)
  | switch ↦ some (whole word)
  | time ↦ some (whole word)
]

-- `WritableRegister.decode`, of a word below 65536
unfoldable pub decode : Builtins → WritableRegister → ℕ → Option Setting
unfolding decode_plain two_digits
decode builtins entry word = elim entry.encoding [
  | bool ↦ some (truth (not (word == 0)))
  | scaled ↦ some (builtins.scale_down word)
  | hhmm ↦
      some (written (two_digits (word / 256) ++ 58 ∷ two_digits (word % 256) ++ 58 ∷ 48 ∷ 48 ∷ []))
  | raw ↦ decode_plain entry word
]
