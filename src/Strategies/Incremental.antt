-- ===== src/Strategies/Incremental.antt =====
-- The window of an incremental load: `compute_incremental_cutoff`, `window_mode` and
-- `_deep_cutoff_applies` of src/dbextractors/core/strategies/incremental.py. Time has no zone, as
-- `datetime.now()` has none, and both readings of the clock are one; `int` stands for Python's, `none` for its exceptions. `none` as a result
-- stands for the exception of a number of days that is none, or of a date before the first.
pub mod Windows
use dbextractors.Base.{
  ℕ, zero, suc, ◌+◌, ◌-◌, ◌*◌, ◌/◌, Bool, true, false, ◌&&◌, ◌||◌, not, Option, none, some, List,
  [], ◌∷◌, ◌++◌, Text, text_Eq, ◌==◌, codes, is_empty, is_some, ltb, leb, nat_eq, if◌then◌else◌,
}
use dbextractors.Base.Integers.{ℤ, pos, negsuc}
use dbextractors.Dates.{Date, date, add_days, sub_days}
use dbextractors.Partitioning.Spec.{Scalar, null, flag, text, other, truth}

abbrev pub default_days_back : ℕ
default_days_back = 14

abbrev pub deep_cutoff_switch_month : ℕ
deep_cutoff_switch_month = 7

-- The settings that the window is read from; one that is missing is `None`.
pub record WindowSettings : Type 0 where
  pub incremental_lookback_hours : Scalar
  pub days_back : Scalar
  pub incremental_date_column : Scalar
  pub incremental_parent_table : Scalar

pub record Now : Type 0 where
  pub today : Date
  pub seconds : ℕ

pub data WindowMode : Type 0 where
  lookback days_back_mode deep : WindowMode

-- `lookback is None or lookback in ("", 0, "0")`. Of the values that are neither text nor bool, the
-- ones without truth are the zeros, and empty ones that `int` refuses, which comes to the same.
unfoldable pub is_unset : Scalar → Bool
is_unset null = true
is_unset (flag b) = not b
is_unset (text s) = is_empty s || s == codes "0"
is_unset (other s b) = not b

abbrev pub or_setting : Scalar → Scalar → Scalar
or_setting null setting = setting
or_setting value setting = value

unfoldable pub deep_cutoff_applies : WindowSettings → Bool
deep_cutoff_applies s = truth s.incremental_date_column || truth s.incremental_parent_table

abbrev pub is_null : Scalar → Bool
is_null null = true
is_null value = false

-- `if lookback_hours:`
abbrev pub hours_given : Option ℤ → Bool
hours_given none = false
hours_given (some (pos hours)) = not (nat_eq hours 0)
hours_given (some (negsuc hours)) = true

unfoldable pub window_mode : WindowSettings → Option ℤ → WindowMode
window_mode s hours =
    if hours_given hours
    then lookback
    else if not (deep_cutoff_applies s) && not (is_null s.days_back)
    then days_back_mode
    else deep

-- The days that `now - timedelta(hours=hours)` goes back.
unfoldable pub days_of : ℕ → ℕ → ℕ
days_of seconds hours =
    if leb (3600 * hours) seconds then 0 else (3600 * hours - seconds + 86399) / 86400

-- The days that `now` goes ahead by a number of hours, which a negative number takes it back.
unfoldable pub days_ahead_of : ℕ → ℕ → ℕ
days_ahead_of seconds hours = (seconds + 3600 * hours) / 86400

-- The date of `now - timedelta(hours=hours)`.
unfoldable pub hours_back : Now → ℤ → Option Date
hours_back now (pos hours) = sub_days (days_of now.seconds hours) now.today
hours_back now (negsuc hours) = add_days (days_ahead_of now.seconds (suc hours)) now.today

-- The date of `now - timedelta(days=days)`.
unfoldable pub days_before : Now → ℤ → Option Date
days_before now (pos days) = sub_days days now.today
days_before now (negsuc days) = add_days (suc days) now.today

-- `date(0, 1, 1)` raises.
unfoldable pub deep_cutoff : Date → Option Date
deep_cutoff today =
    let year = if ltb today.month deep_cutoff_switch_month then today.year - 1 else today.year in
    if nat_eq year 0 then none else some (date year 1 1)

abbrev pub hours_or_0 : Option ℤ → ℤ
hours_or_0 none = pos 0
hours_or_0 (some hours) = hours

module _ (int : Scalar → Option ℤ) where
  unfoldable pub lookback_hours : Scalar → WindowSettings → Option ℤ
  lookback_hours runtime s =
      let value = or_setting runtime s.incremental_lookback_hours in
      if is_unset value then none else int value

  -- `int(load_settings.get("days_back") or DEFAULT_DAYS_BACK)`
  unfoldable pub days_back_of : WindowSettings → Option ℤ
  days_back_of s = if truth s.days_back then int s.days_back else some (pos default_days_back)

  abbrev pub cutoff_of : WindowSettings → Now → Option ℤ → WindowMode → Option Date
  cutoff_of s now hours lookback = hours_back now (hours_or_0 hours)
  cutoff_of s now hours days_back_mode = elim (days_back_of s) [
    | none ↦ none
    | some days ↦ days_before now days
  ]
  cutoff_of s now hours deep = deep_cutoff now.today

  -- The cutoff and the hours that were used.
  unfoldable pub compute_incremental_cutoff : Scalar → WindowSettings → Now → Option Date × Option ℤ
  compute_incremental_cutoff runtime s now =
      let hours = lookback_hours runtime s in (cutoff_of s now hours (window_mode s hours), hours)
