-- ===== src/Registers/Spec.antt =====
-- What the registers of an inverter family mean, and how a profile is put together: the
-- specification model of registers/base.py. A scale is a value of a parameter type `F`.
use growatt_datalogger.Base.{Bool, List, Option, [], if◌then◌else◌, none, some, ℕ, ◌==◌, ◌∷◌}
use growatt_datalogger.Base.Dict.{insert, lookup, remove}
use growatt_datalogger.Python.{Result, Str, err, key_error, ok, ◌>>=◌}
use growatt_datalogger.Python.Names.{insert_name, lookup_name}
use growatt_datalogger.Registers.Writable.{Confidence}

pub data RegisterSpace : Type 0 where
  input holding : RegisterSpace

pub data ValueKind : Type 0 where
  raw scaled text bitfield : ValueKind

pub record RegisterSpec (F : Type 0) : Type 0 where
  pub register : ℕ
  pub name : Str
  pub kind : ValueKind
  pub length : ℕ
  pub scale : F
  pub signed : Bool
  pub confidence : Confidence

-- Both mappings, in the order in which their entries came in.
pub record Profile (F : Type 0) : Type 0 where
  pub input_specs : List (ℕ × RegisterSpec F)
  pub holding_specs : List (ℕ × RegisterSpec F)

-- The two dictionaries that `merge` fills.
pub record Merging (F : Type 0) : Type 0 where
  pub specs : List (ℕ × RegisterSpec F)
  pub register_for_name : List (Str × ℕ)

module _ {F : Type 0} where
  -- `del specs[previous]`
  unfoldable pub delete : ℕ → List (ℕ × RegisterSpec F) → Result (List (ℕ × RegisterSpec F))
  delete k specs = elim (lookup k specs) [ none ↦ err key_error | some s ↦ ok (remove k specs) ]

  unfoldable pub forget :
      Option ℕ → ℕ → List (ℕ × RegisterSpec F) → Result (List (ℕ × RegisterSpec F))
  unfolding delete
  forget none register specs = ok specs
  forget (some previous) register specs =
      if previous == register then ok specs else delete previous specs

  -- The body of the loop of `merge`.
  unfoldable pub merge_spec : Merging F → RegisterSpec F → Result (Merging F)
  unfolding forget
  merge_spec m spec = do
    specs ← forget (lookup_name spec.name m.register_for_name) spec.register m.specs
    ok (record {
      specs = insert spec.register spec specs;
      register_for_name = insert_name spec.name spec.register m.register_for_name;
    })

  unfoldable pub merge_table : Merging F → List (RegisterSpec F) → Result (Merging F)
  unfolding merge_spec
  merge_table m [] = ok m
  merge_table m (spec ∷ table) = do m' ← merge_spec m spec; merge_table m' table

  unfoldable pub merge_tables : Merging F → List (List (RegisterSpec F)) → Result (Merging F)
  unfolding merge_table
  merge_tables m [] = ok m
  merge_tables m (table ∷ tables) = do m' ← merge_table m table; merge_tables m' tables

  abbrev pub no_specs : Merging F
  no_specs = record { specs = []; register_for_name = [] }

  unfoldable pub merge : List (List (RegisterSpec F)) → Result (List (ℕ × RegisterSpec F))
  unfolding merge_tables
  merge tables = do m ← merge_tables no_specs tables; ok m.specs

  -- `Profile.compose`, without the key and the description
  unfoldable pub compose :
      List (List (RegisterSpec F)) → List (List (RegisterSpec F)) → Result (Profile F)
  unfolding merge
  compose input_tables holding_tables = do
    inputs ← merge input_tables
    holdings ← merge holding_tables
    ok (record { input_specs = inputs; holding_specs = holdings })

  abbrev pub specs_for : Profile F → RegisterSpace → List (ℕ × RegisterSpec F)
  specs_for p input = p.input_specs
  specs_for p holding = p.holding_specs

  -- `Profile.get`
  abbrev pub get : Profile F → ℕ → RegisterSpace → Option (RegisterSpec F)
  get p register space = lookup register (specs_for p space)
