-- ===== src/Registers/Slots.antt =====
-- The charge and discharge windows: `TimeSlot`, `TIME_SLOTS` and `slot_for` of writable.py.
use growatt_datalogger.Base.{List, Option, [], contains, if◌then◌else◌, none, some, ℕ, ◌+◌, ◌∷◌}

pub data Schedule : Type 0 where
  grid_first battery_first : Schedule

-- `TimeSlot` without its icon and its profiles, which are STORAGE_1000_BLOCK in all of them.
pub record TimeSlot : Type 0 where
  pub schedule : Schedule
  pub number : ℕ
  pub start : ℕ

abbrev pub slot_registers : TimeSlot → List ℕ
slot_registers slot = slot.start ∷ (slot.start + 1) ∷ (slot.start + 2) ∷ []

abbrev slot_at : Schedule → ℕ → ℕ → TimeSlot
slot_at schedule number start = record { schedule = schedule; number = number; start = start }

abbrev pub time_slots : List TimeSlot
time_slots =
    slot_at grid_first 1 1080
    ∷ slot_at grid_first 2 1083
    ∷ slot_at grid_first 3 1086
    ∷ slot_at battery_first 1 1100
    ∷ slot_at battery_first 2 1103
    ∷ slot_at battery_first 3 1106
    ∷ []

unfoldable pub slot_among : List TimeSlot → ℕ → Option TimeSlot
slot_among [] register = none
slot_among (slot ∷ slots) register =
    if contains (slot_registers slot) register then some slot else slot_among slots register

unfoldable pub slot_for : ℕ → Option TimeSlot
unfolding slot_among
slot_for register = slot_among time_slots register
