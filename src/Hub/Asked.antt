-- ===== src/Hub/Asked.antt =====
-- One register at a time: the counter that the dictionary of misses keeps for each.
use growatt_datalogger.Base.{
  ==_iff, Bool-cases, List, [], ap, arith, contains, false, if◌then◌else◌, inl, inr, leb, ltb, refl,
  true, ℕ, ◌&&◌, ◌+◌, ◌==◌, ◌∙◌, ◌∷◌, ◌≡◌, ◌≤◌,
}
use growatt_datalogger.Base.Dict.{insert, lookup, lookup-insert, lookup-remove, remove}
use growatt_datalogger.Hub.Misses.{
  Happening, Known, announce, answered, happen, happen_all, hold, misses_of, note_answers, refresh,
  refresh_now, settings_misses, settings_registers, still_asked, unknown_yet,
}
use growatt_datalogger.Python.{err, ok}
use growatt_datalogger.Records.Parse.{registers, words}
use growatt_datalogger.Settings.Cover.{IsRising, Rising, contains-sorted_set, sorted_set-IsRising}

-- How often a register that the profile has stays silent, one register on its own. At
-- `settings_misses` it is not asked for any more.
abbrev pub silence : ℕ → Happening → ℕ → ℕ
silence r (announce words) n = 0
silence r (refresh (err e)) n = n
silence r (refresh (ok words)) n =
    if leb settings_misses n then n else if answered r words then 0 else n + 1

abbrev pub silences : ℕ → List Happening → ℕ → ℕ
silences r [] n = n
silences r (h ∷ history) n = silences r history (silence r h n)

Rising-contains : (low r : ℕ) (rs : List ℕ) → Rising low rs → r ≤ low → contains rs r ≡ false
Rising-contains low r [] up h = refl
Rising-contains low r (s ∷ rs) up h = ground (arith, Rising-contains s r rs)

note_one : List (ℕ × ℕ) → ℕ → List (ℕ × ℕ) → List (ℕ × ℕ)
note_one words r misses =
    if answered r words then remove r misses else insert r (misses_of r misses + 1) misses

misses_of-note_one :
    (words misses : List (ℕ × ℕ)) (r s : ℕ)
    → misses_of s (note_one words r misses) ≡ (
        if r == s
        then (if answered r words then 0 else misses_of r misses + 1)
        else misses_of s misses)
unfolding misses_of note_one
misses_of-note_one words misses r s = elim (Bool-cases (answered r words)) [
  | inl e ↦ rw (e, lookup-remove r s misses) (ground arith)
  | inr e ↦ rw (e, lookup-insert r s (misses_of r misses + 1) misses) (ground arith)
]

Rising-IsRising : (low : ℕ) (rs : List ℕ) → Rising low rs → IsRising rs
Rising-IsRising low [] up = tt
Rising-IsRising low (r ∷ rs) up = up.1

misses_of-note_answers :
    (words : List (ℕ × ℕ)) (wanted : List ℕ) (misses : List (ℕ × ℕ)) (s : ℕ)
    → IsRising wanted
    → misses_of s (note_answers words wanted misses) ≡ (
        if contains wanted s
        then (if answered s words then 0 else misses_of s misses + 1)
        else misses_of s misses)
unfolding note_answers note_one
misses_of-note_answers words [] misses s up = refl
misses_of-note_answers words (r ∷ wanted) misses s up =
    let rest =
      misses_of-note_answers words wanted (note_one words r misses) s
        (Rising-IsRising r wanted up) in
    let one = misses_of-note_one words misses r s in
    elim (Bool-cases (r == s)) [
      | inl e ↦
          let same : r ≡ s = (==_iff r s).0 e in
          let later : contains wanted s ≡ false = Rising-contains r s wanted up (omega arith) in
          rest ∙ rw (later, e) (one ∙ rw (e, same) refl)
      | inr e ↦
          rest
          ∙ rw (e) (
              ap
                (λ (n : ℕ).
                  if contains wanted s then (if answered s words then 0 else n + 1) else n)
                (one ∙ rw (e) refl))
    ]

contains-still_asked :
    (misses : List (ℕ × ℕ)) (rs : List ℕ) (r : ℕ)
    → contains (still_asked misses rs) r
      ≡ (contains rs r && ltb (misses_of r misses) settings_misses)
unfolding still_asked
contains-still_asked misses [] r = refl
contains-still_asked misses (s ∷ rs) r = elim (Bool-cases (s == r)) [
  | inl e ↦
      let same : misses_of s misses ≡ misses_of r misses =
        ap (λ (t : ℕ). misses_of t misses) ((==_iff s r).0 e) in
      ground (arith, contains-still_asked misses rs r)
  | inr e ↦ ground (arith, contains-still_asked misses rs r)
]

contains-settings_registers :
    (registers : List ℕ) (misses : List (ℕ × ℕ)) (r : ℕ)
    → contains (settings_registers registers misses) r
      ≡ (contains registers r && ltb (misses_of r misses) settings_misses)
unfolding settings_registers
contains-settings_registers registers misses r =
    contains-sorted_set r (still_asked misses registers) ∙ contains-still_asked misses registers r

misses_of-refresh :
    (registers : List ℕ) (words misses : List (ℕ × ℕ)) (r : ℕ)
    → contains registers r ≡ true
    → misses_of r (note_answers words (settings_registers registers misses) misses)
      ≡ silence r (refresh (ok words)) (misses_of r misses)
misses_of-refresh registers words misses r h =
    let rising : IsRising (settings_registers registers misses) =
      unfold settings_registers in sorted_set-IsRising (still_asked misses registers) in
    let asked = contains-settings_registers registers misses r in
    misses_of-note_answers words (settings_registers registers misses) misses r rising
    ∙ rw (asked, h) (ground arith)

misses_of-happen :
    (registers : List ℕ) (h : Happening) (k : Known) (r : ℕ)
    → contains registers r ≡ true
    → misses_of r (happen registers h k).misses ≡ silence r h (misses_of r k.misses)
unfolding refresh_now hold misses_of lookup
misses_of-happen registers (announce words) k r h = refl
misses_of-happen registers (refresh (err e)) k r h = refl
misses_of-happen registers (refresh (ok words)) k r h =
    misses_of-refresh registers words k.misses r h

misses_of-happen_all :
    (registers : List ℕ) (history : List Happening) (k : Known) (r : ℕ)
    → contains registers r ≡ true
    → misses_of r (happen_all registers history k).misses
      ≡ silences r history (misses_of r k.misses)
misses_of-happen_all registers [] k r h = refl
misses_of-happen_all registers (x ∷ history) k r h =
    misses_of-happen_all registers history (happen registers x k) r h
    ∙ ap (silences r history) (misses_of-happen registers x k r h)

-- For a register that the profile makes writable, after any history of refreshes and
-- announcements from the start: it is among the registers to be asked for exactly when its own
-- count of silent refreshes is below three. The count goes up where a refresh brings no word for
-- it, back to zero where one does or where the device announces holding registers, is left alone
-- by a refresh that raises, and stays where it is from three on.
pub settings_registers-asked :
    (registers : List ℕ) (history : List Happening) (r : ℕ)
    → contains registers r ≡ true
    → contains (settings_registers registers (happen_all registers history unknown_yet).misses) r
      ≡ ltb (silences r history 0) settings_misses
unfolding misses_of lookup
settings_registers-asked registers history r h =
    contains-settings_registers registers (happen_all registers history unknown_yet).misses r
    ∙ rw (h, misses_of-happen_all registers history unknown_yet r h) refl
