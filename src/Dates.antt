-- ===== src/Dates.antt =====
-- The dates of Python's `datetime`, as far as the program computes with them: the proleptic Gregorian
-- calendar from year 1 to year 9999. `none` stands for the OverflowError or ValueError of a date that
-- would leave it.
pub mod Calendar
pub mod Back
use dbextractors.Base.{
  ℕ, zero, suc, ◌+◌, ◌-◌, ◌%◌, ◌≤◌, Bool, true, false, ◌&&◌, ◌||◌, not, Option, none, some,
}
use dbextractors.Base.{ltb, nat_eq, if◌then◌else◌}

pub record Date : Type 0 where
  pub year : ℕ
  pub month : ℕ
  pub day : ℕ

abbrev pub max_year : ℕ
max_year = 9999

abbrev pub date : ℕ → ℕ → ℕ → Date
date y m d = record { year = y; month = m; day = d }

unfoldable pub is_leap : ℕ → Bool
is_leap y = nat_eq (y % 4) 0 && (not (nat_eq (y % 100) 0) || nat_eq (y % 400) 0)

unfoldable pub days_in_month : ℕ → ℕ → ℕ
unfolding is_leap
days_in_month y m =
    if nat_eq m 2
    then (if is_leap y then 29 else 28)
    else if nat_eq m 4 || (nat_eq m 6 || (nat_eq m 9 || nat_eq m 11))
    then 30
    else 31

pub record IsDate (t : Date) : Type 0 where
  pub year_in : (1 ≤ t.year) × (t.year ≤ max_year)
  pub month_in : (1 ≤ t.month) × (t.month ≤ 12)
  pub day_in : (1 ≤ t.day) × (t.day ≤ days_in_month t.year t.month)

-- `s < t`
abbrev pub before : Date → Date → Bool
before s t =
    ltb s.year t.year
    || (nat_eq s.year t.year
        && (ltb s.month t.month || (nat_eq s.month t.month && ltb s.day t.day)))

-- The first day of the next month.
unfoldable pub next_month : Date → Option Date
next_month t =
    if ltb t.month 12
    then some (date t.year (t.month + 1) 1)
    else if ltb t.year max_year
    then some (date (t.year + 1) 1 1)
    else none

unfoldable pub next_day : Date → Option Date
next_day t =
    if ltb t.day (days_in_month t.year t.month)
    then some (date t.year t.month (t.day + 1))
    else next_month t

-- `t + timedelta(days=n)`
unfoldable pub add_days : ℕ → Date → Option Date
add_days zero t = some t
add_days (suc n) t = elim (next_day t) [ none ↦ none | some u ↦ add_days n u ]

-- `date.replace(day=1)` of a date that may be none.
abbrev pub first_of_month : Option Date → Option Date
first_of_month none = none
first_of_month (some t) = some (record t { day = 1 })

unfoldable pub prev_day : Date → Option Date
prev_day t =
    if ltb 1 t.day
    then some (date t.year t.month (t.day - 1))
    else if ltb 1 t.month
    then some (date t.year (t.month - 1) (days_in_month t.year (t.month - 1)))
    else if ltb 1 t.year
    then some (date (t.year - 1) 12 31)
    else none

-- `t - timedelta(days=n)`
unfoldable pub sub_days : ℕ → Date → Option Date
sub_days zero t = some t
sub_days (suc n) t = elim (prev_day t) [ none ↦ none | some u ↦ sub_days n u ]
