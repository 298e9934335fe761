-- ===== src/Registers/Table.antt =====
-- `WRITABLE` and `for_profile`: the registers that may be written, family by family.
use growatt_datalogger.Base.{Bool, List, [], false, filterb, true, ℕ, ◌&&◌, ◌++◌, ◌+◌, ◌||◌, ◌∷◌}
use growatt_datalogger.Crypt.{key}
use growatt_datalogger.Python.{Str, str_eq}
use growatt_datalogger.Registers.Profiles.{
  ProfileKey, key_name, legacy_315, protocol_ii, protocol_ii_3000, storage_1000, storage_3000,
}
use growatt_datalogger.Registers.Slots.{TimeSlot, time_slots}
use growatt_datalogger.Registers.Writable.{
  Confidence, Encoding, Key, WritableRegister, WriteKind, ac_charge_enabled,
  battery_first_charge_power_rate, battery_first_stop_soc, bool, charge_priority, community,
  enabled, grid_first_discharge_power_rate, grid_first_stop_soc, hhmm, inverter_enabled,
  load_first_stop_soc, number, output_power_limit, raw, select, start_time, stop_time, switch, time,
  unverified, verified, window,
}

abbrev storage_1000_block : List ProfileKey
storage_1000_block = storage_1000 ∷ []

abbrev storage_3000_block : List ProfileKey
storage_3000_block = storage_3000 ∷ []

abbrev protocol_ii_holding : List ProfileKey
protocol_ii_holding = protocol_ii ∷ protocol_ii_3000 ∷ storage_1000 ∷ storage_3000 ∷ legacy_315 ∷ []

abbrev number_entry : Key → ℕ → Confidence → List ProfileKey → ℕ → ℕ → WritableRegister
number_entry key register confidence profiles minimum maximum = record {
  key = key;
  register = register;
  kind = number;
  confidence = confidence;
  profiles = profiles;
  encoding = raw;
  minimum = minimum;
  maximum = maximum;
  options = [];
}

abbrev other_entry :
    Key → ℕ → WriteKind → List ProfileKey → Encoding → List (Str × ℕ) → WritableRegister
other_entry key register kind profiles encoding options = record {
  key = key;
  register = register;
  kind = kind;
  confidence = verified;
  profiles = profiles;
  encoding = encoding;
  minimum = 0;
  maximum = 100;
  options = options;
}

-- `TimeSlot.entries`
abbrev pub slot_entries : TimeSlot → List WritableRegister
slot_entries slot =
    other_entry (window slot.schedule slot.number start_time) slot.start time storage_1000_block
      hhmm []
    ∷ other_entry (window slot.schedule slot.number stop_time) (slot.start + 1) time
        storage_1000_block hhmm []
    ∷ other_entry (window slot.schedule slot.number enabled) (slot.start + 2) switch
        storage_1000_block bool []
    ∷ []

abbrev all_slot_entries : List TimeSlot → List WritableRegister
all_slot_entries [] = []
all_slot_entries (slot ∷ slots) = slot_entries slot ++ all_slot_entries slots

abbrev pub charge_priorities : List (Str × ℕ)
charge_priorities =
    ((76 ∷ 111 ∷ 97 ∷ 100 ∷ 32 ∷ 102 ∷ 105 ∷ 114 ∷ 115 ∷ 116 ∷ []), 0)
    ∷ ((66 ∷ 97 ∷ 116 ∷ 116 ∷ 101 ∷ 114 ∷ 121 ∷ 32 ∷ 102 ∷ 105 ∷ 114 ∷ 115 ∷ 116 ∷ []), 1)
    ∷ ((71 ∷ 114 ∷ 105 ∷ 100 ∷ 32 ∷ 102 ∷ 105 ∷ 114 ∷ 115 ∷ 116 ∷ []), 2)
    ∷ []

-- `WRITABLE`
unfoldable pub writable : List WritableRegister
writable =
    number_entry output_power_limit 3 verified protocol_ii_holding 0 100
      ∷ other_entry inverter_enabled 0 switch protocol_ii_holding bool []
      ∷ other_entry charge_priority 1044 select storage_1000_block raw charge_priorities
      ∷ other_entry ac_charge_enabled 1092 switch storage_1000_block bool []
      ∷ number_entry battery_first_stop_soc 1091 verified storage_1000_block 5 100
      ∷ number_entry grid_first_stop_soc 1071 verified storage_1000_block 5 100
      ∷ number_entry grid_first_discharge_power_rate 1070 verified storage_1000_block 0 100
      ∷ number_entry battery_first_charge_power_rate 1090 verified storage_1000_block 0 100
      ∷ all_slot_entries time_slots
    ++ other_entry ac_charge_enabled 3049 switch storage_3000_block bool []
      ∷ number_entry load_first_stop_soc 1109 community storage_1000_block 5 100
      ∷ []

abbrev same_profile : ProfileKey → ProfileKey → Bool
same_profile p q = str_eq (key_name p) (key_name q)

abbrev has_profile : List ProfileKey → ProfileKey → Bool
has_profile [] p = false
has_profile (q ∷ qs) p = same_profile q p || has_profile qs p

abbrev enabled_default : WritableRegister → Bool
enabled_default entry = elim entry.confidence [
  | verified ↦ true
  | unverified ↦ false
  | community ↦ false
]

-- `for_profile`, of one of the profiles
unfoldable pub for_profile : ProfileKey → Bool → List WritableRegister
unfolding writable
for_profile p include_unverified =
    filterb (λ entry. has_profile entry.profiles p && (include_unverified || enabled_default entry))
      writable
