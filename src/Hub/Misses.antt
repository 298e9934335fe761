-- ===== src/Hub/Misses.antt =====
-- hub.py: which settings registers of an inverter are asked for, and which it has stopped answering.
use growatt_datalogger.Base.{
  Bool, List, Option, [], false, if◌then◌else◌, ltb, none, some, true, ℕ, ◌+◌, ◌∷◌,
}
use growatt_datalogger.Base.Dict.{insert, lookup, remove, update}
use growatt_datalogger.Python.{Result, err, is_empty, ok}
use growatt_datalogger.Records.Parse.{registers, words}
use growatt_datalogger.Settings.Ranges.{sorted_set}

abbrev pub settings_misses : ℕ
settings_misses = 3

abbrev pub count_of : Option ℕ → ℕ
count_of none = 0
count_of (some n) = n

-- `misses.get(register, 0)`
unfoldable pub misses_of : ℕ → List (ℕ × ℕ) → ℕ
misses_of register misses = count_of (lookup register misses)

unfoldable pub still_asked : List (ℕ × ℕ) → List ℕ → List ℕ
unfolding misses_of
still_asked misses [] = []
still_asked misses (r ∷ rs) =
    let rest = still_asked misses rs in
    if ltb (misses_of r misses) settings_misses then r ∷ rest else rest

-- `_settings_registers`, of the registers that the profile makes writable, as a set in rising order
unfoldable pub settings_registers : List ℕ → List (ℕ × ℕ) → List ℕ
unfolding still_asked
settings_registers registers misses = sorted_set (still_asked misses registers)

abbrev pub answered : ℕ → List (ℕ × ℕ) → Bool
answered register words = elim (lookup register words) [ none ↦ false | some word ↦ true ]

-- The loop over the registers that were asked for.
unfoldable pub note_answers : List (ℕ × ℕ) → List ℕ → List (ℕ × ℕ) → List (ℕ × ℕ)
unfolding misses_of
note_answers words [] misses = misses
note_answers words (r ∷ wanted) misses =
    note_answers words wanted
      (if answered r words then remove r misses else insert r (misses_of r misses + 1) misses)

-- What may happen to an inverter: a refresh ends with these words or raises, or a record brings
-- holding registers.
pub data Happening : Type 0 where
  refresh : Result (List (ℕ × ℕ)) → Happening
  announce : List (ℕ × ℕ) → Happening

-- One inverter's entry of `_settings_misses` and its words of the holding space.
pub record Known : Type 0 where
  pub misses : List (ℕ × ℕ)
  pub words : List (ℕ × ℕ)

-- `async_refresh_settings_now`; nothing is read if no register is left to ask for
unfoldable pub refresh_now : List ℕ → Result (List (ℕ × ℕ)) → Known → Known
unfolding settings_registers note_answers
refresh_now registers (err e) k = k
refresh_now registers (ok words) k =
    let wanted = settings_registers registers k.misses in
    record {
      misses = note_answers words wanted k.misses;
      words = if is_empty wanted then k.words else update k.words words;
    }

-- `_handle_record`, of a record that carries holding registers
unfoldable pub hold : List (ℕ × ℕ) → Known → Known
hold registers k = record { misses = []; words = update k.words registers }

abbrev pub happen : List ℕ → Happening → Known → Known
happen registers (refresh result) k = refresh_now registers result k
happen registers (announce words) k = hold words k

abbrev pub happen_all : List ℕ → List Happening → Known → Known
happen_all registers [] k = k
happen_all registers (h ∷ history) k = happen_all registers history (happen registers h k)

abbrev pub unknown_yet : Known
unknown_yet = record { misses = []; words = [] }
