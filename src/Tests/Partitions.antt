-- ===== src/Tests/Partitions.antt =====
-- Partitions of a small target, by months and by a list.
use dbextractors.Base.{
  ◌≡◌, refl, ◌⊎◌, Bool, true, false, Option, none, some, List, [], ◌∷◌, arith, All, codes, Text,
}
use mathlib.Core.List.{Forall₂}
use dbextractors.Naming.Unicode.{ascii}
use dbextractors.Naming.Mapping.{strip_left, strip_right}
use dbextractors.Dates.{Date, date, IsDate, days_in_month, is_leap, next_day, next_month, add_days}
use dbextractors.Partitioning.{
  range_day, range_month, list_mode, range_mode, period_start, period_end, period_bounds,
}
use dbextractors.Partitioning.Names.{
  Value, day_value, text_value, slug, slug_runs, period_suffix, fit, partition_suffix,
  partition_ref, default_ref,
}
use dbextractors.Partitioning.Catalog.{
  one_value, period, catch_all, Relation, Catalogue, relation, ok, partition_exists, create,
  bounds_for, ensure_partition_for, ensure_default_partition, ensure_each,
  ensure_partitions_from_table,
}
use dbextractors.Partitioning.Catalog.Steps.{IsPartition}
use dbextractors.Partitioning.Catalog.Ensured.{IsKept, NamesPartition}
use dbextractors.Partitioning.Catalog.Periodic.{IsConsistent}
use dbextractors.Partitioning.Catalog.Runs.{ensure_partitions_from_table_lem}
use dbextractors.Partitioning.Catalog.Stored.{
  IsDated, IsStored, ensure_partitions_from_table-IsStored,
}

february-IsDate : IsDate (date 2024 2 29)
unfolding days_in_month is_leap
february-IsDate = record {
  year_in = (omega arith, omega arith);
  month_in = (omega arith, omega arith);
  day_in = (omega arith, omega arith);
}

march-IsDate : IsDate (date 2024 3 1)
unfolding days_in_month is_leap
march-IsDate = record {
  year_in = (omega arith, omega arith);
  month_in = (omega arith, omega arith);
  day_in = (omega arith, omega arith);
}

february_bounds : period_bounds range_month (date 2024 2 29) ≡ some (date 2024 2 1, date 2024 3 1)
unfolding period_bounds period_start period_end add_days next_day next_month days_in_month is_leap
february_bounds = refl

no_bounds_test : period_bounds range_month (date 9999 12 3) ≡ none
unfolding period_bounds period_start period_end add_days next_day next_month days_in_month is_leap
no_bounds_test = refl

suffix_test : period_suffix range_day (date 2024 2 9) ≡ codes "2024_02_09"
unfolding period_suffix
suffix_test = refl

abbrev orders : Text
orders = codes "orders"

abbrev accepts : Catalogue → Relation → Bool
accepts cat r = false

abbrev digest : Text → Text
digest s = codes "0badcafe"

abbrev no_text : Text → Option Date
no_text s = none

abbrev values : List Value
values = day_value (date 2024 2 29) ∷ day_value (date 2024 3 1) ∷ []

abbrev made : Catalogue
made =
    record {
      name = codes "orders__2024_03";
      parent = some orders;
      bounds = period (date 2024 3 1) (date 2024 4 1);
    }
    ∷ record {
      name = codes "orders__2024_02";
      parent = some orders;
      bounds = period (date 2024 2 1) (date 2024 3 1);
    }
    ∷ record { name = codes "orders__default"; parent = some orders; bounds = catch_all }
    ∷ []

abbrev made_parts : List Text
made_parts = codes "orders__2024_02" ∷ codes "orders__2024_03" ∷ []

run_test :
    ensure_partitions_from_table orders accepts ascii digest no_text
      (range_mode range_month)
      true
      []
      values
    ≡ ok (made, made_parts)
unfolding ensure_partitions_from_table ensure_default_partition ensure_each ensure_partition_for
    partition_exists create bounds_for relation partition_ref partition_suffix default_ref fit
    period_suffix period_bounds period_start period_end add_days next_day next_month days_in_month
    is_leap
run_test = refl

empty-IsConsistent : IsConsistent orders range_month []
unfolding relation
empty-IsConsistent = record { named = λ t r v found child. absurd (ground arith) }

values-IsDated : All (IsDated no_text) values
values-IsDated = (
  record { day = date 2024 2 29; day_is = refl; date_is = february-IsDate },
  (record { day = date 2024 3 1; day_is = refl; date_is = march-IsDate }, tt),
)

ensure_partitions_from_table-IsStored_example :
    IsConsistent orders range_month made × All (IsStored orders range_month no_text made) values
ensure_partitions_from_table-IsStored_example =
    ensure_partitions_from_table-IsStored orders (omega arith) accepts ascii digest no_text
      range_month true [] made values made_parts values-IsDated empty-IsConsistent run_test

-- Two values of a list with one slug: the second gets no partition of its own.
same_slug_test :
    ensure_partitions_from_table orders accepts ascii digest no_text list_mode false []
      (text_value (codes "db-1") ∷ text_value (codes "db_1") ∷ [])
    ≡ ok (
      record {
        name = codes "orders__db_1";
        parent = some orders;
        bounds = one_value (text_value (codes "db-1"));
      }
          ∷ [],
      codes "orders__db_1" ∷ codes "orders__db_1" ∷ [],
    )
unfolding ensure_partitions_from_table ensure_default_partition ensure_each ensure_partition_for
    partition_exists create bounds_for relation partition_ref partition_suffix fit slug slug_runs
    strip_left strip_right
same_slug_test = refl

ensure_partitions_from_table_lem_example :
    IsKept [] made
    × (Forall₂
          (NamesPartition orders accepts ascii digest no_text (range_mode range_month) made)
          values
          made_parts
        × (((true ≡ false) ⊎ IsPartition orders (default_ref digest orders) made)
            × (ensure_partitions_from_table orders
                  (λ cat r. true)
                  ascii
                  digest
                  no_text
                  (range_mode range_month)
                  true
                  made
                  values
                ≡ ok (made, made_parts))))
ensure_partitions_from_table_lem_example =
    ensure_partitions_from_table_lem orders accepts (λ cat r. true) ascii digest no_text
      (range_mode range_month) true [] made values made_parts run_test
