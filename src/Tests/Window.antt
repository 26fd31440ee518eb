-- ===== src/Tests/Window.antt =====
-- Windows of a day in March.
use dbextractors.Base.{[], ◌∷◌, ◌-◌, ◌≡◌, refl, true, Option, none, some, arith, codes}
use dbextractors.Base.Integers.{ℤ, pos, negsuc}
use dbextractors.Dates.{
  date, IsDate, days_in_month, is_leap, prev_day, sub_days, add_days, next_day,
}
use dbextractors.Partitioning.Spec.{Scalar, null, text, other}
use dbextractors.Strategies.Incremental.{
  WindowSettings, Now, is_unset, deep_cutoff_applies, window_mode, days_of, days_ahead_of,
  hours_back, days_before, lookback_hours, days_back_of, deep_cutoff, compute_incremental_cutoff,
}
use dbextractors.Strategies.Incremental.Windows.{IsCutoff, compute_incremental_cutoff-IsCutoff}

-- `int` of the numbers below.
abbrev int : Scalar → Option ℤ
int (other (c ∷ []) b) = some (pos (c - 48))
int (other (c ∷ d ∷ s) b) = some (negsuc (d - 49))
int value = none

abbrev by_days : WindowSettings
by_days = record {
  incremental_lookback_hours = null;
  days_back = other (codes "3") true;
  incremental_date_column = null;
  incremental_parent_table = null;
}

abbrev now : Now
now = record { today = date 2024 3 2; seconds = 3600 }

today-IsDate : IsDate (date 2024 3 2)
unfolding days_in_month is_leap
today-IsDate = record {
  year_in = (omega arith, omega arith);
  month_in = (omega arith, omega arith);
  day_in = (omega arith, omega arith);
}

days_test : compute_incremental_cutoff int null by_days now ≡ (some (date 2024 2 28), none)
unfolding compute_incremental_cutoff lookback_hours is_unset window_mode deep_cutoff_applies
    days_back_of days_before sub_days prev_day days_in_month is_leap
days_test = refl

-- Two hours reach into the day before.
hours_test :
    compute_incremental_cutoff int (other (codes "2") true) by_days now
    ≡ (some (date 2024 3 1), some (pos 2))
unfolding compute_incremental_cutoff lookback_hours is_unset window_mode deep_cutoff_applies days_of
    hours_back sub_days prev_day days_in_month is_leap
hours_test = refl

-- A negative number of hours leads ahead, here into the next day.
ahead_test :
    compute_incremental_cutoff int
      (other (codes "-9") true)
      by_days
      (record now { seconds = 60000 })
    ≡ (some (date 2024 3 3), some (negsuc 8))
unfolding compute_incremental_cutoff lookback_hours is_unset window_mode deep_cutoff_applies
    days_ahead_of hours_back add_days next_day days_in_month is_leap
ahead_test = refl

abbrev child : WindowSettings
child = record by_days { incremental_parent_table = text (codes "orders") }

deep_test : compute_incremental_cutoff int null child now ≡ (some (date 2023 1 1), none)
unfolding compute_incremental_cutoff lookback_hours is_unset window_mode deep_cutoff_applies
    deep_cutoff
deep_test = refl

compute_incremental_cutoff-IsCutoff_example :
    IsCutoff int by_days now (date 2024 2 28) (window_mode by_days none) none
compute_incremental_cutoff-IsCutoff_example =
    compute_incremental_cutoff-IsCutoff int null by_days now (date 2024 2 28) none today-IsDate
      (omega arith) days_test
