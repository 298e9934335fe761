-- ===== src/Registers/Values.antt =====
-- When the words of a spec give a value.
use growatt_datalogger.Base.{
  Bool, List, [], arith, false, length, refl, true, ℕ, ◌*◌, ◌<◌, ◌∷◌, ◌≡◌,
}
use growatt_datalogger.Commands.Build.{pos, ℤ}
use growatt_datalogger.Python.{Result, ok}
use growatt_datalogger.Records.Parse.{registers, words}
use growatt_datalogger.Registers.Decode.{
  Value, assemble, chars, number_of, presented, quotient, read_run, shift_in, text_of, value_by,
  value_of, whole, with_sign,
}
use growatt_datalogger.Registers.Spec.{RegisterSpec, ValueKind, bitfield, raw, scaled, text}

assemble_ok :
    (words : List ℕ) (signed : Bool) → 0 < length words → (v : ℤ) × (assemble words signed ≡ ok v)
unfolding assemble
assemble_ok words false h = (pos (shift_in 0 words), refl)
assemble_ok [] true h = absurd (omega arith)
assemble_ok (w ∷ ws) true h = (with_sign (16 * length (w ∷ ws)) (shift_in 0 (w ∷ ws)), refl)

module _ {F D : Type 0} (rounded : ℤ → F → Result D) where
  -- The number that a scaled spec's words give can be divided by its scale.
  abbrev pub IsDivisible : RegisterSpec F → List ℕ → Type 0
  IsDivisible spec words =
      (value : ℤ)
      → assemble words spec.signed ≡ ok value
      → spec.kind ≡ scaled
      → (d : D) × (rounded value spec.scale ≡ ok d)

  -- An entry spans at least one register, and what it reads can be divided where it is scaled.
  abbrev pub IsDecodable : List (ℕ × ℕ) → ℕ × RegisterSpec F → Type 0
  IsDecodable registers (start, spec) =
      (0 < spec.length) × IsDivisible spec (read_run spec.register spec.length registers)

  presented_ok :
      (kind : ValueKind) (scale : F) (value : ℤ)
      → (kind ≡ scaled → (d : D) × (rounded value scale ≡ ok d))
      → (v : Value D) × (presented rounded kind scale value ≡ ok v)
  presented_ok scaled scale value h = let (d, e) = h refl in (quotient d, rw (e) refl)
  presented_ok raw scale value h = (whole value, refl)
  presented_ok bitfield scale value h = (whole value, refl)
  presented_ok text scale value h = (whole value, refl)

  number_of_ok :
      (spec : RegisterSpec F) (words : List ℕ)
      → 0 < length words
      → IsDivisible spec words
      → (v : Value D) × (number_of rounded spec words ≡ ok v)
  unfolding number_of
  number_of_ok spec words h divides =
      let (value, e) = assemble_ok words spec.signed h in
      let (v, f) = presented_ok spec.kind spec.scale value (divides value e) in (v, rw (e) f)

  value_by_ok :
      (kind : ValueKind) (spec : RegisterSpec F) (words : List ℕ)
      → 0 < length words
      → IsDivisible spec words
      → (v : Value D) × (value_by rounded kind spec words ≡ ok v)
  unfolding value_by
  value_by_ok text spec words h divides = (chars (text_of words), refl)
  value_by_ok raw spec words h divides = number_of_ok spec words h divides
  value_by_ok scaled spec words h divides = number_of_ok spec words h divides
  value_by_ok bitfield spec words h divides = number_of_ok spec words h divides

  pub value_of_ok :
      (spec : RegisterSpec F) (words : List ℕ)
      → 0 < length words
      → IsDivisible spec words
      → (v : Value D) × (value_of rounded spec words ≡ ok v)
  unfolding value_of
  value_of_ok spec words h divides = value_by_ok spec.kind spec words h divides
