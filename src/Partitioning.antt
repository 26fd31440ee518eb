-- ===== src/Partitioning.antt =====
-- src/dbextractors/core/partitioning.py: which partition a row's value belongs to.
pub mod Periods
pub mod Names
pub mod Catalog
pub mod Spec
use dbextractors.Base.{ℕ, ◌+◌, Bool, true, false, Option, none, some, List, [], ◌∷◌, ◌++◌, Text}
use dbextractors.Base.{nat_eq, ltb, if◌then◌else◌}
use dbextractors.Dates.{Date, date, max_year, next_day, add_days, first_of_month}

pub data RangeMode : Type 0 where
  range_day range_month range_year : RangeMode

pub data Mode : Type 0 where
  list_mode : Mode
  range_mode : RangeMode → Mode

pub record PartitionSpec : Type 0 where
  pub column : Text
  pub mode : Mode
  pub default_partition : Bool

-- `period_start` of a value that is a date already.
unfoldable pub period_start : RangeMode → Date → Date
period_start range_day day = day
period_start range_month day = record day { day = 1 }
period_start range_year day = record day { month = 1; day = 1 }

unfoldable pub period_end : RangeMode → Date → Option Date
period_end range_day start = next_day start
period_end range_month start = first_of_month (add_days 4 (record start { day = 28 }))
period_end range_year start =
    if ltb start.year max_year then some (record start { year = start.year + 1 }) else none

-- `[from, to)`. `none` stands for the exception of a bound past the last year.
unfoldable pub period_bounds : RangeMode → Date → Option (Date × Date)
period_bounds mode value =
    let start = period_start mode value in
    elim (period_end mode start) [ none ↦ none | some end ↦ some (start, end) ]
