-- ===== src/Strategies/Full.antt =====
-- `FullLoadStrategy.run` and `_empty_target` of src/dbextractors/core/strategies/full.py, on a
-- connection without autocommit; of `validate`, the check of the key. A batch stands as `_prepare`
-- returns it, with all target columns.
-- Added columns, types and indexes are left out: they change no row. What fails is an input.
pub mod Fill
pub mod Expected
pub mod Ends
pub mod Outcomes
pub mod Fresh
pub mod Complete
pub mod Recovered
use dbextractors.Base.{
  ℕ, zero, suc, ◌+◌, Bool, true, false, ◌&&◌, ◌||◌, not, Option, none, some, List, [], ◌∷◌, ◌++◌,
  Text, Eq, contains, length, is_empty, if◌then◌else◌, nat_eq, ltb,
}
use dbextractors.Reading.{Batch, Outcome, finished, failed}
use dbextractors.Partitioning.{PartitionSpec}
use dbextractors.Partitioning.Spec.{Effective, applies, other_column, effective_spec}
use dbextractors.Target.SeenKeys.{filter_new}
use dbextractors.Target.Shadow.{
  Stored, Database, Swapped, swapped, swap_failed, Outside, swap_shadow_table, table_of,
}

-- `_estimate`: skipped by the settings, the number of rows, or an exception.
pub data Estimate : Type 0 where
  skipped : Estimate
  rows_estimated : ℕ → Estimate
  estimate_failed : Estimate

-- What of the settings the run goes by. `new_columns` are those of a target that is yet to be made.
pub record Settings : Type 0 where
  pub has_pk : Bool
  pub pk_known : Bool
  pub empty_rows_ok : Bool
  pub spec : Option PartitionSpec
  pub new_columns : List Text

-- What fails; `prepare_fails`, of `_prepare` and `filter_new`, and `copy_fails` go by the number of the
-- batch. `_finish` comes after the commit.
pub record Faults : Type 0 where
  pub setup_fails : Bool
  pub create_fails : Bool
  pub prepare_fails : ℕ → Bool
  pub copy_fails : ℕ → Bool
  pub insert_fails : Bool
  pub finish_fails : Bool

-- The loop's variables, and the shadow's rows once there is a shadow.
pub record FullLoad (Row K : Type 0) : Type 0 where
  pub shadow : Option (List Row)
  pub seen : List K
  pub rows_read : ℕ
  pub rows_written : ℕ

pub data LoopStatus (Row K : Type 0) : Type 0 where
  running : FullLoad Row K → LoopStatus Row K
  broken : LoopStatus Row K

-- How the run ends, with the target as other sessions then see it.
pub data Ended (Row : Type 0) : Type 0 where
  returned : ℕ → ℕ → Bool → Database Row → Ended Row
  raised : Database Row → Ended Row

abbrev pub database_of : {Row : Type 0} → Ended Row → Database Row
database_of (returned rows_read rows_written data_present db) = db
database_of (raised db) = db

module _ {Row : Type 0} where
  abbrev pub shadow_rows : Option (List Row) → List Row
  shadow_rows none = []
  shadow_rows (some rows) = rows

  abbrev has_shadow : Option (List Row) → Bool
  has_shadow none = false
  has_shadow (some rows) = true

  -- The shadow has the target's columns, or is made from the batch where there is no target.
  abbrev pub shadow_of : Settings → Option (Stored Row) → List Row → Stored Row
  shadow_of settings none rows = record {
    columns = settings.new_columns;
    rows = rows;
    partition_key = none;
  }
  shadow_of settings (some t) rows = record {
    columns = t.columns;
    rows = rows;
    partition_key = none;
  }

  -- The commit, and `_finish`; an exception before the commit leaves the target to the rollback.
  abbrev pub commit : Faults → ℕ → ℕ → Bool → Database Row → Swapped Row → Ended Row
  commit faults rows_read rows_written data_present db (swap_failed err) = raised db
  commit faults rows_read rows_written data_present db (swapped db' count) =
      if faults.finish_fails then raised db' else returned rows_read rows_written data_present db'

abbrev pub before_loop : {Row K : Type 0} → FullLoad Row K
before_loop = record { shadow = none; seen = []; rows_read = 0; rows_written = 0 }

module _ {Row K : Type 0} ⦃e : Eq K⦄ (key : Row → Option K) (null_text : K) where
  -- `seen.filter_new`, where a key is named.
  abbrev pub new_rows : Bool → List Row → List K → List Row × List K
  new_rows has_pk batch seen =
      if has_pk then filter_new key null_text true batch seen else (batch, seen)

  -- One turn of the loop over the batches.
  unfoldable pub write_batch : Bool → Faults → ℕ → Batch Row → FullLoad Row K → LoopStatus Row K
  write_batch has_pk faults n batch s =
      let (export, seen) = new_rows has_pk batch.rows s.seen in
      let rows = shadow_rows s.shadow in
      let rows_read = s.rows_read + length batch.rows in
      if (not (has_shadow s.shadow) && faults.create_fails) || faults.prepare_fails n
      then broken
      else if is_empty export
      then running record {
        shadow = some rows;
        seen = seen;
        rows_read = rows_read;
        rows_written = s.rows_written;
      }
      else if faults.copy_fails n
      then broken
      else running record {
        shadow = some (rows ++ export);
        seen = seen;
        rows_read = rows_read;
        rows_written = s.rows_written + length export;
      }

  unfoldable pub write_batches :
      Bool → Faults → ℕ → List (Batch Row) → FullLoad Row K → LoopStatus Row K
  write_batches has_pk faults n [] s = running s
  write_batches has_pk faults n (batch ∷ batches) s = elim (write_batch has_pk faults n batch s) [
    | broken ↦ broken
    | running s' ↦ write_batches has_pk faults (suc n) batches s'
  ]

  module _ (o : Outside Row) (settings : Settings) (faults : Faults) where
    unfoldable pub empty_target : Database Row → Ended Row
    empty_target db =
        if not settings.empty_rows_ok
        then returned 0 0 false db
        else if faults.create_fails
        then raised db
        else commit faults 0 0 false db (
            swap_shadow_table o false faults.insert_fails none (shadow_of settings db.target []) db)

    -- After the loop.
    abbrev pub swap_in : Option PartitionSpec → Database Row → FullLoad Row K → Ended Row
    swap_in spec db s = elim s.shadow [
      | none ↦ returned s.rows_read 0 false db
      | some rows ↦ commit faults s.rows_read s.rows_written (ltb 0 s.rows_written) db (
          swap_shadow_table o false faults.insert_fails spec (shadow_of settings db.target rows) db)
    ]

    abbrev pub after_loop :
        Option PartitionSpec → Database Row → Outcome → LoopStatus Row K → Ended Row
    after_loop spec db outcome broken = raised db
    after_loop spec db (failed err) (running s) = raised db
    after_loop spec db finished (running s) = swap_in spec db s

    abbrev pub load_with : List (Batch Row) × Outcome → Database Row → Effective → Ended Row
    load_with read db (other_column actual) = raised db
    load_with read db (applies spec) =
        after_loop spec db read.1 (write_batches settings.has_pk faults 0 read.0 before_loop)

    unfoldable pub load_full : List (Batch Row) × Outcome → Database Row → Ended Row
    load_full read db =
        if faults.setup_fails
        then raised db
        else load_with read db (effective_spec (table_of db.target) settings.spec)

    -- `read` is what `read_batches` yields, with its ending.
    unfoldable pub run : Estimate → List (Batch Row) × Outcome → Database Row → Ended Row
    run estimate read db =
        if settings.has_pk && not settings.pk_known then raised db else elim estimate [
          | estimate_failed ↦ raised db
          | skipped ↦ load_full read db
          | rows_estimated rows ↦ if nat_eq rows 0 then empty_target db else load_full read db
        ]
