-- ===== src/Settings/Ranges.antt =====
-- `read_ranges`: the runs of registers that are read in one command each.
use growatt_datalogger.Base.{List, [], if◌then◌else◌, leb, ltb, ℕ, ◌-◌, ◌==◌, ◌||◌, ◌∷◌}
use growatt_datalogger.Records.Parse.{registers}

abbrev pub max_range_span : ℕ
max_range_span = 45

abbrev pub max_range_gap : ℕ
max_range_gap = 8

-- A register put into a rising list, if it is not there.
unfoldable pub sorted_add : ℕ → List ℕ → List ℕ
sorted_add r [] = r ∷ []
sorted_add r (s ∷ rs) =
    let rest = sorted_add r rs in
    if ltb r s then r ∷ s ∷ rs else if r == s then s ∷ rs else s ∷ rest

-- `sorted(set(registers))`
unfoldable pub sorted_set : List ℕ → List ℕ
unfolding sorted_add
sorted_set [] = []
sorted_set (r ∷ rs) = sorted_add r (sorted_set rs)

-- The loop of `read_ranges`, with the run that is open. The registers rise, so that no subtraction
-- is cut off.
unfoldable pub group_from : ℕ → ℕ → ℕ → ℕ → List ℕ → List (ℕ × ℕ)
group_from max_span max_gap start previous [] = (start, previous) ∷ []
group_from max_span max_gap start previous (r ∷ rs) =
    let closed = group_from max_span max_gap r r rs in
    let open_run = group_from max_span max_gap start r rs in
    if ltb max_gap (r - previous) || leb max_span (r - start)
    then (start, previous) ∷ closed
    else open_run

abbrev pub group_all : ℕ → ℕ → List ℕ → List (ℕ × ℕ)
group_all max_span max_gap [] = []
group_all max_span max_gap (r ∷ rs) = group_from max_span max_gap r r rs

unfoldable pub read_ranges : ℕ → ℕ → List ℕ → List (ℕ × ℕ)
unfolding group_from sorted_set
read_ranges max_span max_gap registers = group_all max_span max_gap (sorted_set registers)
