-- ===== src/Settings/Bounded.antt =====
-- Registers that fit into a word: so do the sorted ones and the ends of the runs.
use growatt_datalogger.Base.{
  All, Bool, Bool-cases, List, [], filterb, inl, inr, leb, ltb, ℕ, ◌-◌, ◌<◌, ◌==◌, ◌||◌, ◌∷◌,
}
use growatt_datalogger.Registers.Decode.{run}
use growatt_datalogger.Settings.Ranges.{group_all, group_from, read_ranges, sorted_add, sorted_set}

abbrev pub IsWord : ℕ → Type 0
IsWord r = r < 65536

abbrev pub EndsInWord : ℕ × ℕ → Type 0
EndsInWord run = run.1 < 65536

sorted_add-IsWord : (r : ℕ) (rs : List ℕ) → IsWord r → All IsWord rs → All IsWord (sorted_add r rs)
unfolding sorted_add
sorted_add-IsWord r [] h k = (h, tt)
sorted_add-IsWord r (s ∷ rs) h k = elim (Bool-cases (ltb r s)) [
  | inl e ↦ rw (e) (h, (k.0, k.1))
  | inr e ↦ elim (Bool-cases (r == s)) [
    | inl f ↦ rw (e, f) (k.0, k.1)
    | inr f ↦ rw (e, f) (k.0, sorted_add-IsWord r rs h k.1)
  ]
]

pub sorted_set-IsWord : (rs : List ℕ) → All IsWord rs → All IsWord (sorted_set rs)
unfolding sorted_set
sorted_set-IsWord [] h = tt
sorted_set-IsWord (r ∷ rs) h = sorted_add-IsWord r (sorted_set rs) h.0 (sorted_set-IsWord rs h.1)

group_from-EndsInWord :
    (max_span max_gap start previous : ℕ) (rs : List ℕ)
    → IsWord previous
    → All IsWord rs
    → All EndsInWord (group_from max_span max_gap start previous rs)
unfolding group_from
group_from-EndsInWord max_span max_gap start previous [] h k = (h, tt)
group_from-EndsInWord max_span max_gap start previous (r ∷ rs) h k =
    elim (Bool-cases (ltb max_gap (r - previous) || leb max_span (r - start))) [
      | inl e ↦ rw (e) (h, group_from-EndsInWord max_span max_gap r r rs k.0 k.1)
      | inr e ↦ rw (e) (group_from-EndsInWord max_span max_gap start r rs k.0 k.1)
    ]

group_all-EndsInWord :
    (max_span max_gap : ℕ) (rs : List ℕ)
    → All IsWord rs
    → All EndsInWord (group_all max_span max_gap rs)
group_all-EndsInWord max_span max_gap [] h = tt
group_all-EndsInWord max_span max_gap (r ∷ rs) h =
    group_from-EndsInWord max_span max_gap r r rs h.0 h.1

pub read_ranges-EndsInWord :
    (max_span max_gap : ℕ) (rs : List ℕ)
    → All IsWord rs
    → All EndsInWord (read_ranges max_span max_gap rs)
unfolding read_ranges
read_ranges-EndsInWord max_span max_gap rs h =
    group_all-EndsInWord max_span max_gap (sorted_set rs) (sorted_set-IsWord rs h)

pub filterb-IsWord : (p : ℕ → Bool) (rs : List ℕ) → All IsWord rs → All IsWord (filterb p rs)
filterb-IsWord p [] h = tt
filterb-IsWord p (r ∷ rs) h = elim (Bool-cases (p r)) [
  | inl e ↦ rw (e, filterb) (h.0, filterb-IsWord p rs h.1)
  | inr e ↦ rw (e, filterb) (filterb-IsWord p rs h.1)
]
