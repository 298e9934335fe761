-- ===== src/Settings/Cover.antt =====
-- The runs that `read_ranges` makes.
use growatt_datalogger.Base.{
  All, Bool, Bool-cases, List, [], ap, arith, contains, false, inl, inr, leb, ltb, ltb→lt, refl,
  true, ℕ, ◌&&◌, ◌+◌, ◌-◌, ◌<◌, ◌==◌, ◌||◌, ◌∙◌, ◌∷◌, ◌≡◌, ◌≤◌,
}
use growatt_datalogger.Records.Parse.{registers}
use growatt_datalogger.Settings.Ranges.{group_all, group_from, read_ranges, sorted_add, sorted_set}

-- What a run must be: no longer than the span allows.
pub record IsRun (max_span : ℕ) (run : ℕ × ℕ) : Type 0 where
  pub ordered : run.0 ≤ run.1
  pub short : run.1 < run.0 + max_span

-- A register lies in one of the runs.
abbrev pub covered : ℕ → List (ℕ × ℕ) → Bool
covered r [] = false
covered r ((start, end) ∷ runs) = leb start r && leb r end || covered r runs

-- The list rises strictly, from above `low`.
abbrev pub Rising : ℕ → List ℕ → Type 0
Rising low [] = Unit
Rising low (r ∷ rs) = (low < r) × Rising r rs

-- the second half of the test, where it fails
leb→gt_of_or :
    (max_gap max_span gap start r : ℕ)
    → (ltb max_gap gap || leb max_span (r - start)) ≡ false
    → start ≤ r
    → r < start + max_span
leb→gt_of_or max_gap max_span gap start r e h = ground arith

group_from-IsRun :
    (max_span max_gap start previous : ℕ) (rs : List ℕ)
    → start ≤ previous
    → previous < start + max_span
    → 0 < max_span
    → Rising previous rs
    → All (IsRun max_span) (group_from max_span max_gap start previous rs)
unfolding group_from
group_from-IsRun max_span max_gap start previous [] h k z up =
    (record { ordered = h; short = k }, tt)
group_from-IsRun max_span max_gap start previous (r ∷ rs) h k z up =
    elim (Bool-cases (ltb max_gap (r - previous) || leb max_span (r - start))) [
      | inl e ↦ rw (e) (
        record { ordered = h; short = k },
        group_from-IsRun max_span max_gap r r rs (omega arith) (omega arith) z up.1,
      )
      | inr e ↦
          let first : r < start + max_span =
            leb→gt_of_or max_gap max_span (r - previous) start r e (omega (arith, up.0)) in
          rw (e) (group_from-IsRun max_span max_gap start r rs (omega (arith, up.0)) first z up.1)
    ]

-- A run is closed or goes on; either way the registers of the open run stay covered, and so do
-- those that follow.
covers_closed :
    (start previous s r : ℕ) (rs : List ℕ) (runs : List (ℕ × ℕ))
    → (leb start r && leb r previous || contains (s ∷ rs) r) ≡ true
    → ((leb s r && leb r s || contains rs r) ≡ true → covered r runs ≡ true)
    → covered r ((start, previous) ∷ runs) ≡ true
covers_closed start previous s r rs runs h k = elim (Bool-cases (leb start r && leb r previous)) [
  | inl e ↦ rw (e)
  | inr e ↦ rw (e) (k (ground arith))
]

covers_open :
    (start previous s r : ℕ) (rs : List ℕ)
    → start ≤ previous
    → previous < s
    → (leb start r && leb r previous || contains (s ∷ rs) r) ≡ true
    → (leb start r && leb r s || contains rs r) ≡ true
covers_open start previous s r rs h k e = ground arith

group_from-covered :
    (max_span max_gap start previous r : ℕ) (rs : List ℕ)
    → start ≤ previous
    → Rising previous rs
    → (leb start r && leb r previous || contains rs r) ≡ true
    → covered r (group_from max_span max_gap start previous rs) ≡ true
unfolding group_from
group_from-covered max_span max_gap start previous r [] h up e = e
group_from-covered max_span max_gap start previous r (s ∷ rs) h up e =
    elim (Bool-cases (ltb max_gap (s - previous) || leb max_span (s - start))) [
      | inl t ↦ rw (t) (
          covers_closed start previous s r rs (group_from max_span max_gap s s rs) e
            (group_from-covered max_span max_gap s s r rs (omega arith) up.1))
      | inr t ↦ rw (t) (
          group_from-covered max_span max_gap start s r rs (omega (arith, up.0)) up.1
            (covers_open start previous s r rs h up.0 e))
    ]

-- Sorting
abbrev pub IsRising : List ℕ → Type 0
IsRising [] = Unit
IsRising (r ∷ rs) = Rising r rs

sorted_add-Rising :
    (low r : ℕ) (rs : List ℕ) → low < r → Rising low rs → Rising low (sorted_add r rs)
unfolding sorted_add
sorted_add-Rising low r [] h up = (h, tt)
sorted_add-Rising low r (s ∷ rs) h up = elim (Bool-cases (ltb r s)) [
  | inl e ↦ rw (e) (h, (ltb→lt r s e, up.1))
  | inr e ↦ elim (Bool-cases (r == s)) [
    | inl q ↦ rw (e, q) up
    | inr q ↦ rw (e, q) (up.0, sorted_add-Rising s r rs (ground arith) up.1)
  ]
]

sorted_add-IsRising : (r : ℕ) (rs : List ℕ) → IsRising rs → IsRising (sorted_add r rs)
unfolding sorted_add
sorted_add-IsRising r [] up = tt
sorted_add-IsRising r (s ∷ rs) up = elim (Bool-cases (ltb r s)) [
  | inl e ↦ rw (e) (ltb→lt r s e, up)
  | inr e ↦ elim (Bool-cases (r == s)) [
    | inl q ↦ rw (e, q) up
    | inr q ↦ rw (e, q) (sorted_add-Rising s r rs (ground arith) up)
  ]
]

pub sorted_set-IsRising : (registers : List ℕ) → IsRising (sorted_set registers)
unfolding sorted_set
sorted_set-IsRising [] = tt
sorted_set-IsRising (r ∷ rs) = sorted_add-IsRising r (sorted_set rs) (sorted_set-IsRising rs)

contains-sorted_add :
    (r s : ℕ) (rs : List ℕ) → contains (sorted_add r rs) s ≡ (r == s || contains rs s)
unfolding sorted_add
contains-sorted_add r s [] = refl
contains-sorted_add r s (t ∷ rs) = ground (arith, contains-sorted_add r s rs)

pub contains-sorted_set :
    (r : ℕ) (registers : List ℕ) → contains (sorted_set registers) r ≡ contains registers r
unfolding sorted_set
contains-sorted_set r [] = refl
contains-sorted_set r (s ∷ rs) =
    contains-sorted_add s r (sorted_set rs)
    ∙ ap (λ (b : Bool). s == r || b) (contains-sorted_set r rs)

group_all-IsRun :
    (max_span max_gap : ℕ) (rs : List ℕ)
    → 0 < max_span
    → IsRising rs
    → All (IsRun max_span) (group_all max_span max_gap rs)
group_all-IsRun max_span max_gap [] z up = tt
group_all-IsRun max_span max_gap (r ∷ rs) z up =
    group_from-IsRun max_span max_gap r r rs (omega arith) (omega arith) z up

group_all-covered :
    (max_span max_gap r : ℕ) (rs : List ℕ)
    → IsRising rs
    → contains rs r ≡ true
    → covered r (group_all max_span max_gap rs) ≡ true
group_all-covered max_span max_gap r [] up e = e
group_all-covered max_span max_gap r (s ∷ rs) up e =
    group_from-covered max_span max_gap s s r rs (omega arith) up (ground arith)

-- For any registers, in whatever order and however often each is named, and a span of at least 1:
-- none of the runs that `read_ranges` makes is longer than the span, and every register that is
-- wanted lies in one of them.
pub read_ranges-covered :
    (max_span max_gap : ℕ) (registers : List ℕ)
    → 0 < max_span
    → All (IsRun max_span) (read_ranges max_span max_gap registers)
      × ((r : ℕ)
          → contains registers r ≡ true
          → covered r (read_ranges max_span max_gap registers) ≡ true)
unfolding read_ranges
read_ranges-covered max_span max_gap registers z =
    let up : IsRising (sorted_set registers) = sorted_set-IsRising registers in
    (
      group_all-IsRun max_span max_gap (sorted_set registers) z up,
      λ r h.
          group_all-covered max_span max_gap r (sorted_set registers) up
            (contains-sorted_set r registers ∙ h),
    )
