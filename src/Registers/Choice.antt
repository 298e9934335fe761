-- ===== src/Registers/Choice.antt =====
-- What the choice of a profile, of a window and of the writable registers guarantees.
use growatt_datalogger.Base.{
  All, Bool, Bool-cases, List, Option, [], ap, contains, false, if◌then◌else◌, inl, inr, leb, map,
  none, not, refl, some, sym, true, ℕ, ◌&&◌, ◌==◌, ◌∙◌, ◌∷◌, ◌≡◌,
}
use growatt_datalogger.Python.{Str, is_empty}
use growatt_datalogger.Registers.Profiles.{
  ProfileKey, ProfileMatch, any_start, by_block_end, in_storage_block, infer, infer_any, legacy_315,
  legacy_block_ends, offgrid, pinned, profile_get, protocol_ii, protocol_ii_3000,
  protocol_ii_block_end, resolve_profile, storage_1000, storage_3000, zero_block_end,
}
use growatt_datalogger.Registers.Slots.{TimeSlot, slot_among, slot_for, slot_registers, time_slots}
use growatt_datalogger.Registers.Table.{for_profile, writable}
use growatt_datalogger.Registers.Writable.{WritableRegister}

by_block_end-offgrid : (end : Option ℕ) → ¬ ((by_block_end end).profile ≡ offgrid)
unfolding by_block_end
by_block_end-offgrid none = λ h. cc
by_block_end-offgrid (some end) = elim (Bool-cases (contains legacy_block_ends end)) [
  | inl h ↦ rw (h) (λ e. cc)
  | inr h ↦ elim (Bool-cases (end == protocol_ii_block_end)) [
    | inl k ↦ rw (h, k) (λ e. cc)
    | inr k ↦ rw (h, k) (λ e. cc)
  ]
]

infer-offgrid : (ranges : List (ℕ × ℕ)) → ¬ ((infer ranges).profile ≡ offgrid)
unfolding infer
infer-offgrid ranges = elim (Bool-cases (any_start (leb 3000) ranges)) [
  | inl h ↦ elim (Bool-cases (any_start (leb 3125) ranges)) [
    | inl k ↦ rw (h, k) (λ e. cc)
    | inr k ↦ rw (h, k) (λ e. cc)
  ]
  | inr h ↦ elim (Bool-cases (any_start in_storage_block ranges)) [
    | inl k ↦ rw (h, k) (λ e. cc)
    | inr k ↦ rw (h, k) (by_block_end-offgrid (zero_block_end ranges))
  ]
]

infer_any-offgrid : (ranges : List (ℕ × ℕ)) → ¬ ((infer_any ranges).profile ≡ offgrid)
infer_any-offgrid [] = λ h. cc
infer_any-offgrid (r ∷ ranges) = infer-offgrid (r ∷ ranges)

pinned-cases :
    (o : Option ProfileKey) (guess : ProfileMatch)
    → ((pinned o guess).profile ≡ offgrid)
    → ¬ (guess.profile ≡ offgrid)
    → o ≡ some offgrid
pinned-cases none guess h k = absurd (k h)
pinned-cases (some p) guess h k = ap some h

-- The off-grid profile is never inferred: whatever ranges a record reports, it is the outcome
-- only if there is an override and it is that profile's name.
pub resolve_profile-offgrid :
    (ranges : List (ℕ × ℕ)) (override : Option Str)
    → (resolve_profile ranges override).profile ≡ offgrid
    → (name : Str) × (override ≡ some name) × (profile_get name ≡ some offgrid)
unfolding resolve_profile
resolve_profile-offgrid ranges none h = absurd (infer_any-offgrid ranges h)
resolve_profile-offgrid ranges (some name) h = elim (Bool-cases (is_empty name)) [
  | inl e ↦ absurd (
      cc (
        pinned-cases none (infer_any ranges)
          (ap (λ b. (pinned (if b then none else profile_get name) (infer_any ranges)).profile)
              (sym e)
            ∙ h)
          (infer_any-offgrid ranges)))
  | inr e ↦ (
    name,
    refl,
    pinned-cases (profile_get name) (infer_any ranges)
        (ap (λ b. (pinned (if b then none else profile_get name) (infer_any ranges)).profile)
            (sym e)
          ∙ h)
        (infer_any-offgrid ranges),
  )
]

none_not_some : {slot : TimeSlot} → ¬ (none ≡ some slot)
none_not_some h = cc

slot_among-none : (register : ℕ) → slot_among [] register ≡ none
unfolding slot_among
slot_among-none register = refl

slot_among-here :
    (s : TimeSlot) (slots : List TimeSlot) (register : ℕ)
    → contains (slot_registers s) register ≡ true
    → slot_among (s ∷ slots) register ≡ some s
unfolding slot_among
slot_among-here s slots register h =
    ap (λ (b : Bool). if b then some s else slot_among slots register) h

slot_among-there :
    (s : TimeSlot) (slots : List TimeSlot) (register : ℕ)
    → contains (slot_registers s) register ≡ false
    → slot_among (s ∷ slots) register ≡ slot_among slots register
unfolding slot_among
slot_among-there s slots register h =
    ap (λ (b : Bool). if b then some s else slot_among slots register) h

slot_among-contains :
    (slots : List TimeSlot) (register : ℕ) (slot : TimeSlot)
    → slot_among slots register ≡ some slot
    → contains (slot_registers slot) register ≡ true
slot_among-contains [] register slot h = absurd (none_not_some (sym (slot_among-none register) ∙ h))
slot_among-contains (s ∷ slots) register slot h =
    elim (Bool-cases (contains (slot_registers s) register)) [
      | inl k ↦
          let here : some s ≡ some slot = sym (slot_among-here s slots register k) ∙ h in
          let same : s ≡ slot = cc in
          ap (λ (t : TimeSlot). contains (slot_registers t) register) (sym same) ∙ k
      | inr k ↦
          slot_among-contains slots register slot (sym (slot_among-there s slots register k) ∙ h)
    ]

-- The window that a register is looked up in has that register among its three.
pub slot_for-contains :
    (register : ℕ) (slot : TimeSlot)
    → slot_for register ≡ some slot
    → contains (slot_registers slot) register ≡ true
unfolding slot_for
slot_for-contains register slot h = slot_among-contains time_slots register slot h

pub slot_for-time_slots :
    All
      (λ (slot : TimeSlot). All (λ (r : ℕ). slot_for r ≡ some slot) (slot_registers slot))
      time_slots
unfolding slot_for slot_among
slot_for-time_slots = (
  (refl, (refl, (refl, tt))),
  (
    (refl, (refl, (refl, tt))),
    (
      (refl, (refl, (refl, tt))),
      ((refl, (refl, (refl, tt))), ((refl, (refl, (refl, tt))), ((refl, (refl, (refl, tt))), tt))),
    ),
  ),
)

abbrev pub all_distinct : List ℕ → Bool
all_distinct [] = true
all_distinct (x ∷ xs) = not (contains xs x) && all_distinct xs

-- Whatever the profile, and with or without the unverified entries, no holding register is
-- offered for writing twice.
pub for_profile-all_distinct :
    (p : ProfileKey) (unverified : Bool)
    → all_distinct (map (λ (e : WritableRegister). e.register) (for_profile p unverified)) ≡ true
unfolding for_profile writable
for_profile-all_distinct protocol_ii true = refl
for_profile-all_distinct protocol_ii false = refl
for_profile-all_distinct protocol_ii_3000 true = refl
for_profile-all_distinct protocol_ii_3000 false = refl
for_profile-all_distinct storage_1000 true = refl
for_profile-all_distinct storage_1000 false = refl
for_profile-all_distinct storage_3000 true = refl
for_profile-all_distinct storage_3000 false = refl
for_profile-all_distinct legacy_315 true = refl
for_profile-all_distinct legacy_315 false = refl
for_profile-all_distinct offgrid true = refl
for_profile-all_distinct offgrid false = refl
