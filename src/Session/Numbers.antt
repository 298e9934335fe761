-- ===== src/Session/Numbers.antt =====
-- The sequence numbers that commands are given.
use growatt_datalogger.Base.{
  Bool-cases, Option, arith, false, inl, inr, none, refl, some, suc, sym, true, ℕ, ◌<◌, ◌∙◌, ◌≡◌,
  ◌≤◌,
}
use growatt_datalogger.Python.{ok}
use growatt_datalogger.Session.Command.{free_number, is_taken, next_number, sub_mod}
use growatt_datalogger.Session.State.{Outstanding, sequence_ceiling, sequence_floor}

pub record IsCommandNumber (number : ℕ) : Type 0 where
  pub floor : sequence_floor ≤ number
  pub ceiling : number < sequence_ceiling

next_number-IsCommandNumber : (number : ℕ) → IsCommandNumber (next_number number)
unfolding next_number sub_mod
next_number-IsCommandNumber number = record { floor = ground arith; ceiling = ground arith }

-- Two steps of the counter never give the same number.
next_number-moves : (number : ℕ) → ¬ (next_number (next_number number) ≡ next_number number)
unfolding next_number sub_mod
next_number-moves number h = ground arith

-- A number that `free_number` may give: of the commands' range, and not the one outstanding.
pub record IsFree (o : Option Outstanding) (number : ℕ) : Type 0 where
  pub ranged : IsCommandNumber number
  pub free : is_taken o number ≡ false

free_number-taken :
    (rounds : ℕ) (o : Option Outstanding) (number : ℕ)
    → is_taken o (next_number number) ≡ true
    → free_number (suc rounds) o number ≡ free_number rounds o (next_number number)
unfolding free_number
free_number-taken rounds o number h = rw (h)

free_number-free :
    (rounds : ℕ) (o : Option Outstanding) (number : ℕ)
    → is_taken o (next_number number) ≡ false
    → free_number (suc rounds) o number ≡ ok (next_number number)
unfolding free_number
free_number-free rounds o number h = rw (h)

taken_unique :
    (o : Option Outstanding) (m n : ℕ) → is_taken o m ≡ true → ¬ (m ≡ n) → is_taken o n ≡ false
taken_unique (some o) m n h k = ground arith
taken_unique none m n h k = refl

-- Given two rounds or more, from whatever value of the counter, the search for a sequence number
-- ends with one: it lies from 0x8000 up to 0xFFFD, and it is not that of the command outstanding,
-- if there is one.
pub free_number-IsFree :
    (rounds : ℕ) (o : Option Outstanding) (number : ℕ)
    → (n : ℕ) × (free_number (suc (suc rounds)) o number ≡ ok n) × IsFree o n
free_number-IsFree rounds o number =
    let first : ℕ = next_number number in
    let second : ℕ = next_number first in
    elim (Bool-cases (is_taken o first)) [
      | inr h ↦ (
        first,
        free_number-free (suc rounds) o number h,
        record { ranged = next_number-IsCommandNumber number; free = h },
      )
      | inl h ↦
          let free : is_taken o second ≡ false =
            taken_unique o first second h (λ e. next_number-moves number (sym e)) in
          (
            second,
            free_number-taken (suc rounds) o number h ∙ free_number-free rounds o first free,
            record { ranged = next_number-IsCommandNumber first; free = free },
          )
    ]
