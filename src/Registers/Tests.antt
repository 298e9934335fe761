-- ===== src/Registers/Tests.antt =====
-- Instances of the theorems on profiles, windows and writable registers.
use growatt_datalogger.Base.{
  List, some, ◌==◌, ◌++◌, [], arith, false, if◌then◌else◌, none, refl, suc, true, zero, ℕ, ◌/◌, ◌∷◌,
  ◌≡◌,
}
use growatt_datalogger.Base.Dict.{insert, lookup, remove}
use growatt_datalogger.Commands.Build.{negsuc, pos, ℤ}
use growatt_datalogger.Python.{Result, Str, err, ok, zero_division_error}
use growatt_datalogger.Python.Names.{insert_name, lookup_name}
use growatt_datalogger.Registers.Decode.{
  DecodedValues, assemble, decode_registers, decode_complete, decode_run, decode_spec, decode_specs,
  number_of, read_run, shift_in, value_by, value_of,
}
use growatt_datalogger.Registers.Decoded.{decode_registers-unknown, decoded}
use growatt_datalogger.Registers.Merge.{merge-one_register}
use growatt_datalogger.Registers.Override.{merge-loses_override}
use growatt_datalogger.Registers.Profiles.{key_name, offgrid}
use growatt_datalogger.Registers.Signed.{assemble-signed_words}
use growatt_datalogger.Registers.Spec.{
  Profile, RegisterSpec, delete, input, merge, scaled, specs_for, text,
}
use growatt_datalogger.Registers.Writable.{verified}

abbrev offgrid_name : Str
offgrid_name = key_name offgrid

-- Two specs of one name, the later of which replaces the earlier: a serial that a storage device
-- reports from register 3001.
abbrev serial_at : ℕ → RegisterSpec ℕ
serial_at register = record {
  register = register;
  name = 115 ∷ 101 ∷ 114 ∷ [];
  kind = text;
  length = 5;
  scale = 1;
  signed = false;
  confidence = verified;
}

abbrev power_at : ℕ → RegisterSpec ℕ
power_at register = record {
  register = register;
  name = 112 ∷ [];
  kind = scaled;
  length = 2;
  scale = 10;
  signed = true;
  confidence = verified;
}

abbrev voltage_at : ℕ → RegisterSpec ℕ
voltage_at register = record (power_at register) { name = 118 ∷ [] }

moved_serial :
    merge ((serial_at 23 ∷ power_at 1 ∷ []) ∷ (serial_at 3001 ∷ []) ∷ [])
    ≡ ok ((1, power_at 1) ∷ (3001, serial_at 3001) ∷ [])
unfolding merge delete remove insert lookup insert_name lookup_name
moved_serial = refl

merge-one_register_example : ◌≡◌ {A = ℕ} 3001 3001 × ◌≡◌ {A = ℕ} 3001 3001
unfolding lookup
merge-one_register_example =
    merge-one_register ((serial_at 23 ∷ power_at 1 ∷ []) ∷ (serial_at 3001 ∷ []) ∷ [])
      ((1, power_at 1) ∷ (3001, serial_at 3001) ∷ []) 3001 3001 (serial_at 3001) (serial_at 3001)
      moved_serial refl refl refl

-- The power takes the register of the serial, which then moves.
abbrev overridden : List (List (RegisterSpec ℕ))
overridden = (serial_at 1 ∷ voltage_at 40 ∷ []) ∷ (record (power_at 7) { register = 1 } ∷ []) ∷ []

before_moving :
    merge overridden ≡ ok ((1, record (power_at 7) { register = 1 }) ∷ (40, voltage_at 40) ∷ [])
unfolding merge delete remove insert lookup insert_name lookup_name
before_moving = refl

other_names : ¬ ((power_at 7).name ≡ (serial_at 3001).name)
other_names e = absurd (cc)

merge-loses_override_example :
    (out : List (ℕ × RegisterSpec ℕ)) × (merge (overridden ++ (serial_at 3001 ∷ []) ∷ []) ≡ ok out)
    × (lookup 1 out ≡ none)
    × (lookup 3001 out ≡ some (serial_at 3001))
    × ((k : ℕ)
        → (1 == k) ≡ false
        → (3001 == k) ≡ false
        → lookup k out
          ≡ lookup k ((1, record (power_at 7) { register = 1 }) ∷ (40, voltage_at 40) ∷ []))
    × ((k : ℕ) (s : RegisterSpec ℕ) → lookup k out ≡ some s → ¬ (s.name ≡ (power_at 7).name))
unfolding lookup
merge-loses_override_example =
    merge-loses_override overridden
      ((1, record (power_at 7) { register = 1 }) ∷ (40, voltage_at 40) ∷ []) (serial_at 3001)
      (record (power_at 7) { register = 1 }) 1 before_moving refl refl other_names refl

-- Dividing and rounding down what is not negative, for the sake of an example.
abbrev divided : ℤ → ℕ → Result ℤ
divided value zero = err zero_division_error
divided (negsuc n) (suc scale) = ok (negsuc n)
divided (pos n) (suc scale) = ok (pos (n / suc scale))

by_ten : (value : ℤ) → (d : ℤ) × (divided value 10 ≡ ok d)
by_ten (pos n) = (pos (n / 10), refl)
by_ten (negsuc n) = (negsuc n, refl)

abbrev small_profile : Profile ℕ
small_profile = record { input_specs = (1, power_at 1) ∷ (3, power_at 3) ∷ []; holding_specs = [] }

decode_registers-unknown_example :
    (out : DecodedValues ℤ) × (decode_registers divided small_profile
        ((1, 0) ∷ (2, 50) ∷ (3, 7) ∷ [])
        input
      ≡ ok out)
    × ((r : ℕ)
        → lookup r out.unknown ≡ (
            if decoded ((1, 0) ∷ (2, 50) ∷ (3, 7) ∷ []) (specs_for small_profile input) r
            then none
            else lookup r ((1, 0) ∷ (2, 50) ∷ (3, 7) ∷ [])))
decode_registers-unknown_example =
    decode_registers-unknown divided small_profile ((1, 0) ∷ (2, 50) ∷ (3, 7) ∷ []) input
      ((omega arith, λ value e f. by_ten value), ((omega arith, λ value e f. by_ten value), tt))

-- A scale of 0 ends the decoding.
decode_by_zero :
    decode_registers divided
      (record { input_specs = (1, record (power_at 1) { scale = 0 }) ∷ []; holding_specs = [] })
      ((1, 0) ∷ (2, 50) ∷ [])
      input
    ≡ err zero_division_error
unfolding decode_registers decode_specs decode_spec decode_run decode_complete value_of value_by
    number_of assemble shift_in read_run lookup
decode_by_zero = refl

assemble-signed_words_example : assemble (65535 ∷ 65531 ∷ []) true ≡ ok (negsuc 4)
assemble-signed_words_example = assemble-signed_words 2 (negsuc 4) (omega arith) (omega arith)
