-- ===== src/Redaction/Tests.antt =====
-- An instance of the theorem on redaction.
use growatt_datalogger.Base.{[], arith, drop, length, refl, replicate, take, ◌++◌, ◌∷◌, ◌≡◌}
use growatt_datalogger.Python.{Bytes, ok, slice}
use growatt_datalogger.Python.Names.{insert_name, lookup_name}
use growatt_datalogger.Records.Frame.{serial_width}
use growatt_datalogger.Redaction.{Pseudonymiser, finditer, redact, run_length}
use growatt_datalogger.Redaction.Redacted.{Ending, redact-Ending}
use growatt_datalogger.Redaction.Shape.{IsStable}
use growatt_datalogger.Redaction.Whole.{IsRedaction}

-- a digest of 32 equal bytes
abbrev flat : Bytes → Bytes → Bytes
flat secret serial = replicate 32 (length serial)

abbrev forgetful : Pseudonymiser
forgetful = record { key = []; seen = [] }

-- protocol 2, with a serial of ten letters
abbrev captured : Bytes
captured = 0 ∷ 1 ∷ 0 ∷ 2 ∷ 0 ∷ 12 ∷ 1 ∷ 4 ∷ 65 ∷ 66 ∷ 67 ∷ 49 ∷ 50 ∷ 51 ∷ 52 ∷ 53 ∷ 54 ∷ 55 ∷ []

forgetful-IsStable : IsStable forgetful
unfolding lookup_name
forgetful-IsStable = record { at = λ serial replacement h. absurd (cc h) }

redact-Ending_example :
    (out : Bytes × Pseudonymiser) × (redact flat captured forgetful ≡ ok out)
    × IsRedaction captured out.0
    × IsStable out.1
    × Ending captured (serial_width 2) out.0
redact-Ending_example =
    redact-Ending flat (λ secret serial. refl) captured forgetful (omega arith) forgetful-IsStable

ten_letters :
    redact flat captured forgetful
    ≡ ok (
      take 8 captured ++ replicate 10 75,
      record forgetful { seen = (drop 8 captured, replicate 10 75) ∷ [] },
    )
unfolding redact finditer run_length insert_name lookup_name slice
ten_letters = refl
