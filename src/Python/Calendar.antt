-- ===== src/Python/Calendar.antt =====
-- `datetime.datetime`, to the second.
use growatt_datalogger.Base.{
  Bool, [], contains, if◌then◌else◌, leb, ltb, not, ℕ, ◌%◌, ◌&&◌, ◌++◌, ◌+◌, ◌/◌, ◌==◌, ◌||◌, ◌∷◌,
}
use growatt_datalogger.Python.Errors.{Result, err, ok, value_error}
use growatt_datalogger.Python.Text.{Str}

pub record Datetime : Type 0 where
  pub year : ℕ
  pub month : ℕ
  pub day : ℕ
  pub hour : ℕ
  pub minute : ℕ
  pub second : ℕ

abbrev is_leap : ℕ → Bool
is_leap year = year % 4 == 0 && (not (year % 100 == 0) || year % 400 == 0)

abbrev days_in_month : ℕ → ℕ → ℕ
days_in_month year month =
    if month == 2
    then (if is_leap year then 29 else 28)
    else if contains (4 ∷ 6 ∷ 9 ∷ 11 ∷ []) month
    then 30
    else 31

-- What the constructor accepts; anything else raises ValueError.
abbrev pub is_datetime : Datetime → Bool
is_datetime t =
    leb 1 t.year
    && leb t.year 9999
    && leb 1 t.month
    && leb t.month 12
    && leb 1 t.day
    && leb t.day (days_in_month t.year t.month)
    && ltb t.hour 24
    && ltb t.minute 60
    && ltb t.second 60

-- `datetime(…)`
abbrev pub make_datetime : Datetime → Result Datetime
make_datetime t = if is_datetime t then ok t else err value_error

abbrev digit : ℕ → ℕ
digit d = 48 + d % 10

abbrev two_digits : ℕ → Str
two_digits n = digit (n / 10) ∷ digit n ∷ []

-- `t.strftime("%Y-%m-%d %H:%M:%S")`, of a year from 1000 to 9999
abbrev pub format_datetime : Datetime → Str
format_datetime t =
    (two_digits (t.year / 100) ++ two_digits t.year)
    ++ 45 ∷ two_digits t.month
    ++ 45 ∷ two_digits t.day
    ++ 32 ∷ two_digits t.hour
    ++ 58 ∷ two_digits t.minute
    ++ 58 ∷ two_digits t.second
