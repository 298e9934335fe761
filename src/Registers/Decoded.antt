-- ===== src/Registers/Decoded.antt =====
-- Which registers a profile decodes, and which it passes on raw.
use growatt_datalogger.Base.{
  ==_iff, All, Bool, Bool-cases, List, Option, Option-cases, [], ap, arith, contains, false,
  if◌then◌else◌, inl, inr, leb, length, ltb, none, refl, some, suc, true, zero, ℕ, ◌&&◌, ◌++◌, ◌+◌,
  ◌<◌, ◌==◌, ◌||◌, ◌∙◌, ◌∷◌, ◌≡◌,
}
use growatt_datalogger.Base.Dict.{lookup}
use growatt_datalogger.Commands.Build.{ℤ}
use growatt_datalogger.Python.{Result, ok}
use growatt_datalogger.Python.Names.{insert_name}
use growatt_datalogger.Records.Parse.{registers, words}
use growatt_datalogger.Registers.Decode.{
  DecodedValues, Decoding, decode_complete, decode_registers, decode_run, decode_spec, decode_specs,
  no_values, read_run, run, sorted_names, without,
}
use growatt_datalogger.Registers.Spec.{Profile, RegisterSpace, RegisterSpec, specs_for}
use growatt_datalogger.Registers.Values.{IsDecodable, IsDivisible, value_of_ok}

abbrev is_some {ℓ} : {A : Type ℓ} → Option A → Bool
is_some none = false
is_some (some a) = true

-- Every one of `n` registers from `first` on was reported.
abbrev pub all_reported : List (ℕ × ℕ) → ℕ → ℕ → Bool
all_reported registers first zero = true
all_reported registers first (suc n) =
    is_some (lookup first registers) && all_reported registers (first + 1) n

module _ {F : Type 0} where
  -- The entry is decoded, and the register is one of its.
  abbrev pub decodes : List (ℕ × ℕ) → ℕ → ℕ → RegisterSpec F → Bool
  decodes registers r start spec =
      is_some (lookup start registers)
      && all_reported registers spec.register spec.length
      && (leb spec.register r && ltb r (spec.register + spec.length))

  -- Some entry of the profile decodes the register.
  abbrev pub decoded : List (ℕ × ℕ) → List (ℕ × RegisterSpec F) → ℕ → Bool
  decoded registers [] r = false
  decoded registers ((start, spec) ∷ specs) r =
      decodes registers r start spec || decoded registers specs r

suc_eq : (m n : ℕ) → (suc m == suc n) ≡ (m == n)
suc_eq m n = ground arith

length-read_run :
    (first n : ℕ) (registers : List (ℕ × ℕ))
    → (length (read_run first n registers) == n) ≡ all_reported registers first n
unfolding read_run
length-read_run first zero registers = refl
length-read_run first (suc n) registers = elim (Option-cases (lookup first registers)) [
  | inl e ↦ rw (e) (ground arith)
  | inr (w, e) ↦ rw (e) (suc_eq _ n ∙ length-read_run (first + 1) n registers)
]

contains-run : (first n r : ℕ) → contains (run first n) r ≡ (leb first r && ltb r (first + n))
unfolding run
contains-run first zero r = ground arith
contains-run first (suc n) r = ground (arith, contains-run (first + 1) n r)

contains-append :
    (xs ys : List ℕ) (r : ℕ) → contains (xs ++ ys) r ≡ (contains xs r || contains ys r)
contains-append [] ys r = refl
contains-append (x ∷ xs) ys r = ground (arith, contains-append xs ys r)

lookup-without :
    (consumed : List ℕ) (registers : List (ℕ × ℕ)) (r : ℕ)
    → lookup r (without consumed registers)
      ≡ (if contains consumed r then none else lookup r registers)
unfolding without lookup
lookup-without consumed [] r = ground arith
lookup-without consumed ((k, w) ∷ registers) r = elim (Bool-cases (k == r)) [
  | inl e ↦
      let same : contains consumed k ≡ contains consumed r =
        ap (contains consumed) ((==_iff k r).0 e) in
      ground (arith, lookup-without consumed registers r)
  | inr e ↦ ground (arith, lookup-without consumed registers r)
]

module _ {F D : Type 0} (rounded : ℤ → F → Result D) where
  -- A step succeeds, and consumes this entry's registers where it decodes it.
  abbrev Consumes : Result (Decoding D) → (ℕ → Bool) → Type 0
  Consumes out consumed =
      (d : Decoding D) × (out ≡ ok d) × ((r : ℕ) → contains d.consumed r ≡ consumed r)

  decode_complete-Consumes :
      (spec : RegisterSpec F) (words : List ℕ) (d : Decoding D)
      → 0 < length words
      → IsDivisible rounded spec words
      → Consumes (decode_complete rounded spec words d) (λ r.
        contains d.consumed r || (leb spec.register r && ltb r (spec.register + spec.length)))
  unfolding decode_complete
  decode_complete-Consumes spec words d h divides =
      let (v, e) = value_of_ok rounded spec words h divides in
      (
        record d {
          consumed = d.consumed ++ run spec.register spec.length;
          values = insert_name spec.name v d.values;
        },
        rw (e) refl,
        λ r.
            contains-append d.consumed (run spec.register spec.length) r
            ∙ ap (λ (t : Bool). contains d.consumed r || t)
                (contains-run spec.register spec.length r),
      )

  or_false : (b : Bool) → b ≡ (b || false)
  or_false true = refl
  or_false false = refl

  decode_run-Consumes :
      (registers : List (ℕ × ℕ)) (spec : RegisterSpec F) (d : Decoding D)
      → 0 < spec.length
      → IsDivisible rounded spec (read_run spec.register spec.length registers)
      → Consumes (decode_run rounded spec (read_run spec.register spec.length registers) d) (λ r.
        contains d.consumed r
        || (all_reported registers spec.register spec.length
            && (leb spec.register r && ltb r (spec.register + spec.length))))
  unfolding decode_run
  decode_run-Consumes registers spec d h divides =
      let whole_run = length-read_run spec.register spec.length registers in
      elim (Bool-cases (all_reported registers spec.register spec.length)) [
        | inl e ↦
            let same : length (read_run spec.register spec.length registers) ≡ spec.length =
              (==_iff _ spec.length).0 (whole_run ∙ e) in
            rw (whole_run ∙ e, e)
              (decode_complete-Consumes spec (read_run spec.register spec.length registers) d
                (omega arith) divides)
        | inr e ↦
            rw (whole_run ∙ e, e)
              (
                record d { incomplete = d.incomplete ++ spec.name ∷ [] },
                refl,
                λ r. or_false (contains d.consumed r),
              )
      ]

  decode_spec-Consumes :
      (registers : List (ℕ × ℕ)) (start : ℕ) (spec : RegisterSpec F) (d : Decoding D)
      → IsDecodable rounded registers (start, spec)
      → Consumes
          (decode_spec rounded registers start spec d)
          (λ r. contains d.consumed r || decodes registers r start spec)
  unfolding decode_spec
  decode_spec-Consumes registers start spec d h = elim (Option-cases (lookup start registers)) [
    | inl e ↦ rw (e) (d, refl, λ r. or_false (contains d.consumed r))
    | inr (w, e) ↦ rw (e) (decode_run-Consumes registers spec d h.0 h.1)
  ]

  or_assoc : (a b c : Bool) → ((a || b) || c) ≡ (a || (b || c))
  or_assoc true b c = refl
  or_assoc false b c = refl

  decode_specs-Consumes :
      (registers : List (ℕ × ℕ)) (specs : List (ℕ × RegisterSpec F)) (d : Decoding D)
      → All (IsDecodable rounded registers) specs
      → Consumes
          (decode_specs rounded registers specs d)
          (λ r. contains d.consumed r || decoded registers specs r)
  unfolding decode_specs
  decode_specs-Consumes registers [] d h = (d, refl, λ r. or_false (contains d.consumed r))
  decode_specs-Consumes registers ((start, spec) ∷ specs) d h =
      let (mid, e, f) = decode_spec-Consumes registers start spec d h.0 in
      let (out, g, k) = decode_specs-Consumes registers specs mid h.1 in
      (
        out,
        rw (e) g,
        λ r.
            k r
            ∙ ap (λ (t : Bool). t || decoded registers specs r) (f r)
            ∙ or_assoc (contains d.consumed r) (decodes registers r start spec)
                (decoded registers specs r),
      )

  -- For a profile whose specs all span at least one register, and where the number that is read
  -- for a scaled spec can always be divided by its scale: decoding a record succeeds, and a
  -- register that no spec decodes is passed on raw with its word, where a spec decodes a register
  -- if its start and all of its registers were reported. So are the reported registers of a spec
  -- that was reported in part; one that some spec decodes is not passed on.
  pub decode_registers-unknown :
      (profile : Profile F) (registers : List (ℕ × ℕ)) (space : RegisterSpace)
      → All (IsDecodable rounded registers) (specs_for profile space)
      → (out : DecodedValues D) × (decode_registers rounded profile registers space ≡ ok out)
        × ((r : ℕ)
            → lookup r out.unknown ≡ (
                if decoded registers (specs_for profile space) r then none else lookup r registers))
  unfolding decode_registers
  decode_registers-unknown profile registers space h =
      let (d, e, f) =
        decode_specs-Consumes registers (specs_for profile space) (no_values rounded) h in
      (
        record {
          values = d.values;
          unknown = without d.consumed registers;
          incomplete = sorted_names d.incomplete;
        },
        rw (e) refl,
        λ r.
            lookup-without d.consumed registers r
            ∙ ap (λ (t : Bool). if t then none else lookup r registers) (f r),
      )
