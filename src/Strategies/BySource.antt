-- ===== src/Strategies/BySource.antt =====
-- `FullBySourceStrategy` of src/dbextractors/core/strategies/full_by_source.py after `_fingerprint`, on
-- a connection without autocommit: entrypoint.py closes it after the run, which drops what is not
-- committed. A batch stands as `_prepare` returns it. Added columns, types and the index over
-- `_source` are left out: they change no row. What fails is an input.
pub mod Run
pub mod Kept
pub mod Writes
pub mod Others
pub mod Safety
pub mod Ends
pub mod Accounted
pub mod Swapped
pub mod Emptied
pub mod Outcomes
pub mod Uncommitted
pub mod Replaces
pub mod Loads
pub mod Once
use dbextractors.Base.{
  ℕ, zero, suc, ◌+◌, Bool, true, false, ◌&&◌, ◌||◌, not, Option, none, some, List, [], ◌∷◌, ◌++◌,
  map, Text, text_Eq, codes, ◌==◌, length, if◌then◌else◌, nat_eq, ltb,
}
use dbextractors.Naming.Unicode.{Unicode}
use dbextractors.Dates.{Date}
use dbextractors.Partitioning.{PartitionSpec}
use dbextractors.Partitioning.Spec.{source_column}
use dbextractors.Partitioning.Catalog.{Relation, Catalogue}
use dbextractors.Reading.{Batch, Outcome, finished, failed}
use dbextractors.Target.Slices.{
  Labelled, Slices, Store, is_partitioned, target_holds_source, read_fingerprint, write_fingerprint,
  ensure_partition, from_outcome, cut_slice, replace_source_slice,
}

-- What of the configuration the run goes by; `source_label` has no empty text.
pub record SourceSettings : Type 0 where
  pub supported : Bool
  pub source_label : Option Text
  pub partition_by_source : Bool
  pub spec : Option PartitionSpec
  pub force_reload : Bool
  pub empty_rows_ok : Bool
  pub is_last_source : Bool
  pub pk_known : Bool

-- What fails: `layout_fails` is the query of `create_unique_pk_index` whether the target is
-- partitioned, and `undo_fails` its rollback. `batch_fails`, of `_prepare` and COPY, goes by the number of the batch. `cut_fails` is
-- the statement that empties the slice of an empty source.
pub record SourceFaults : Type 0 where
  pub read_fails : Bool
  pub estimate_fails : Bool
  pub create_fails : Bool
  pub batch_fails : ℕ → Bool
  pub replace_fails : Bool
  pub cut_fails : Bool
  pub write_fails : Bool
  pub index_fails : Bool
  pub layout_fails : Bool
  pub undo_fails : Bool

-- The connection: what it sees, and what it has committed.
pub record Session (Row : Type 0) : Type 0 where
  pub working : Store Row
  pub committed : Store Row

pub record LoadResult : Type 0 where
  pub rows_read : ℕ
  pub rows_written : ℕ
  pub unchanged : Bool
  pub data_present : Bool

-- How the run ends, with the connection as it is then closed.
pub data SourceEnd (Row : Type 0) : Type 0 where
  returned : LoadResult → Session Row → SourceEnd Row
  raised : Session Row → SourceEnd Row

abbrev pub session_of : {Row : Type 0} → SourceEnd Row → Session Row
session_of (returned result s) = s
session_of (raised s) = s

-- The variables of the loop over the batches.
pub record Staged (Row : Type 0) : Type 0 where
  pub rows : List (Labelled Row)
  pub rows_read : ℕ

abbrev other_layout : Option PartitionSpec → Bool
other_layout none = false
other_layout (some spec) = not (spec.column == source_column)

abbrev pub has_label : Option Text → Bool
has_label none = false
has_label (some label) = true

-- `false` where it raises.
unfoldable pub validate : SourceSettings → Bool
validate settings =
    settings.supported
    && not (settings.partition_by_source && not (has_label settings.source_label))
    && not (other_layout settings.spec)

module _ {Row : Type 0} where
  abbrev pub commit_session : Session Row → Session Row
  commit_session s = record { working = s.working; committed = s.working }

  abbrev pub rollback_session : Session Row → Session Row
  rollback_session s = record { working = s.committed; committed = s.committed }

  abbrev pub label_row : Option Text → Row → Labelled Row
  label_row label row = record { source = label; values = row }

  abbrev pub nothing_staged : Staged Row
  nothing_staged = record { rows = []; rows_read = 0 }

  abbrev pub with_batch : Option Text → Batch Row → Staged Row → Staged Row
  with_batch label batch s = record {
    rows = s.rows ++ map (label_row label) batch.rows;
    rows_read = s.rows_read + length batch.rows;
  }

  -- The staging table after the batches, `none` where one fails.
  unfoldable pub stage :
      SourceFaults → Option Text → ℕ → List (Batch Row) → Staged Row → Option (Staged Row)
  stage faults label n [] s = some s
  stage faults label n (batch ∷ batches) s =
      if faults.batch_fails n
      then none
      else stage faults label (suc n) batches (with_batch label batch s)

  abbrev pub new_target : Bool → Slices Row
  new_target partitioned = record { partitioned = partitioned; rows = []; indexed = false }

  unfoldable pub prepare_target : Bool → Store Row → Store Row
  prepare_target partitioned db = elim db.target [
    | none ↦ record db { target = some (new_target partitioned) }
    | some t ↦ db
  ]

  -- The fingerprint equals the stored one, and the slice is there.
  abbrev pub matches_stored : Text → Text → Store Row → Bool
  matches_stored label mark db = elim (read_fingerprint label db) [
    | none ↦ false
    | some stored ↦ stored == mark && target_holds_source label db
  ]

  unfoldable pub can_skip :
      SourceSettings → SourceFaults → Option Text → Session Row → Bool × Session Row
  can_skip settings faults none s = (false, s)
  can_skip settings faults (some mark) s = elim settings.source_label [
    | none ↦ (false, s)
    | some label ↦
        if settings.force_reload
        then (false, s)
        else if faults.read_fails
        then (false, rollback_session s)
        else (matches_stored label mark s.working, s)
  ]

  unfoldable pub resolve_partitioning : SourceSettings → Store Row → Bool
  resolve_partitioning settings db = elim db.target [
    | none ↦ settings.partition_by_source && has_label settings.source_label
    | some t ↦ t.partitioned
  ]

  abbrev pub set_indexed : Store Row → Store Row
  set_indexed db = elim db.target [
    | none ↦ db
    | some t ↦ record db { target = some (record t { indexed = true }) }
  ]

  -- `create_unique_pk_index` with `fatal=False`, and whether it raises all the same. In autocommit,
  -- or, on a partitioned target, in the transaction.
  unfoldable pub create_unique_pk_index : SourceFaults → Session Row → Bool × Session Row
  create_unique_pk_index faults s =
      if faults.layout_fails
      then (true, s)
      else if is_partitioned s.working
      then if faults.index_fails
        then (if faults.undo_fails then (true, s) else (false, rollback_session s))
        else (false, record s { working = set_indexed s.working })
      else if faults.index_fails
      then (false, commit_session s)
      else (false, record { working = set_indexed s.working; committed = set_indexed s.working })

  unfoldable pub finish_index : SourceSettings → SourceFaults → Session Row → Bool × Session Row
  finish_index settings faults s =
      if settings.is_last_source && settings.pk_known
      then create_unique_pk_index faults s
      else (false, s)

  abbrev pub ended : LoadResult → Bool × Session Row → SourceEnd Row
  ended result (raises, s) = if raises then raised s else returned result s

  unfoldable pub finish_source :
      SourceSettings → SourceFaults → Option Text → LoadResult → Session Row → SourceEnd Row
  finish_source settings faults none result s = ended result (finish_index settings faults s)
  finish_source settings faults (some mark) result s = elim settings.source_label [
    | none ↦ ended result (finish_index settings faults s)
    | some label ↦
        if faults.write_fails
        then raised s
        else let db = write_fingerprint label mark s.working in
          ended result (finish_index settings faults record { working = db; committed = db })
  ]
