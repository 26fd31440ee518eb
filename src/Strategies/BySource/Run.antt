-- ===== src/Strategies/BySource/Run.antt =====
-- `run`, `_empty_source`, `_create_empty_target` and `_replace_slice` of
-- src/dbextractors/core/strategies/full_by_source.py.
use dbextractors.Base.{
  ℕ, Bool, true, false, not, Option, none, some, List, Text, if◌then◌else◌, nat_eq, ltb,
}
use dbextractors.Naming.Unicode.{Unicode}
use dbextractors.Dates.{Date}
use dbextractors.Partitioning.Catalog.{Relation, Catalogue}
use dbextractors.Reading.{Batch, Outcome, finished, failed}
use dbextractors.Target.Slices.{
  Slices, Store, ensure_partition, from_outcome, cut_slice, replace_source_slice,
}
use dbextractors.Strategies.BySource.{
  SourceSettings, SourceFaults, Session, LoadResult, SourceEnd, returned, raised, Staged, validate,
  rollback_session, stage, nothing_staged, prepare_target, can_skip, resolve_partitioning,
  finish_source,
}

abbrev pub no_rows : LoadResult
no_rows = record { rows_read = 0; rows_written = 0; unchanged = false; data_present = false }

abbrev pub skipped : LoadResult
skipped = record { rows_read = 0; rows_written = 0; unchanged = true; data_present = true }

module _ (target : Text) (refuses : Catalogue → Relation → Bool) (u : Unicode)
    (digest : Text → Text) (fromisoformat : Text → Option Date) {Row : Type 0} where
  abbrev pub with_partition : Option Text → Store Row → Option (Store Row)
  with_partition none db = some db
  with_partition (some label) db =
      elim (from_outcome
        (ensure_partition target refuses u digest fromisoformat db.catalogue label)) [
          | none ↦ none
          | some made ↦ some (record db { catalogue = made.0 })
        ]

  -- `_create_empty_target`; a new partitioned target has the label's partition.
  unfoldable pub create_empty_target :
      SourceSettings → SourceFaults → Bool → Store Row → Option (Store Row)
  create_empty_target settings faults partitioned db =
      if faults.create_fails
      then none
      else if partitioned
      then with_partition settings.source_label (prepare_target true db)
      else some (prepare_target false db)

  abbrev pub cut_target :
      SourceSettings → SourceFaults → Store Row → Slices Row → Option (Store Row)
  cut_target settings faults db t = elim settings.source_label [
    | none ↦ some db
    | some label ↦
        if faults.cut_fails
        then none
        else elim (cut_slice target refuses u digest fromisoformat (some label) db.catalogue t) [
          | none ↦ none
          | some cut ↦
              some (record db { target = some (record t { rows = cut.1 }); catalogue = cut.0 })
        ]
  ]

  -- An existing target loses the slice; what this does is not committed here.
  unfoldable pub empty_source :
      SourceSettings → SourceFaults → Option Text → Bool → Session Row → SourceEnd Row
  empty_source settings faults mark partitioned s = elim s.working.target [
    | none ↦
        if not settings.empty_rows_ok
        then raised s
        else elim (create_empty_target settings faults partitioned s.working) [
          | none ↦ raised s
          | some db ↦
              finish_source settings faults mark no_rows record { working = db; committed = db }
        ]
    | some t ↦ elim (cut_target settings faults s.working t) [
      | none ↦ raised s
      | some db ↦ finish_source settings faults mark no_rows (record s { working = db })
    ]
  ]

  -- The swap of the slice, with its commit, once all batches are staged.
  unfoldable pub swap_slice :
      SourceSettings → SourceFaults → Option Text → Bool → Staged Row → Session Row → SourceEnd Row
  swap_slice settings faults mark partitioned staged s =
      if nat_eq staged.rows_read 0
      then raised (rollback_session s)
      else elim (replace_source_slice target refuses u digest fromisoformat faults.replace_fails
          settings.source_label staged.rows (prepare_target partitioned s.working)) [
            | none ↦ raised (rollback_session s)
            | some (db, rows_written) ↦
                finish_source settings faults mark
                  record {
                    rows_read = staged.rows_read;
                    rows_written = rows_written;
                    unchanged = false;
                    data_present = ltb 0 rows_written;
                  }
                  record { working = db; committed = db }
          ]

  abbrev pub swap_after :
      SourceSettings
      → SourceFaults
      → Option Text
      → Bool
      → Outcome
      → Option (Staged Row)
      → Session Row
      → SourceEnd Row
  swap_after settings faults mark partitioned outcome none s = raised (rollback_session s)
  swap_after settings faults mark partitioned (failed err) (some staged) s =
      raised (rollback_session s)
  swap_after settings faults mark partitioned finished (some staged) s =
      swap_slice settings faults mark partitioned staged s

  -- `read` is what `read_batches` yields, with its ending.
  unfoldable pub replace_slice :
      SourceSettings
      → SourceFaults
      → Option Text
      → Bool
      → List (Batch Row) × Outcome
      → Session Row
      → SourceEnd Row
  replace_slice settings faults mark partitioned read s =
      if faults.create_fails
      then raised s
      else swap_after settings faults mark partitioned read.1
          (stage faults settings.source_label 0 read.0 nothing_staged) s

  unfoldable pub load :
      SourceSettings
      → SourceFaults
      → Option Text
      → ℕ
      → List (Batch Row) × Outcome
      → Session Row
      → SourceEnd Row
  load settings faults mark estimate read s =
      let partitioned = resolve_partitioning settings s.working in
      if nat_eq estimate 0
      then empty_source settings faults mark partitioned s
      else replace_slice settings faults mark partitioned read s

  unfoldable pub run_after :
      SourceSettings
      → SourceFaults
      → Option Text
      → ℕ
      → List (Batch Row) × Outcome
      → Bool × Session Row
      → SourceEnd Row
  run_after settings faults mark estimate read (skip, s) =
      if skip
      then returned skipped s
      else if faults.estimate_fails
      then raised s
      else load settings faults mark estimate read s

  -- `mark` is the fingerprint of the source, `estimate` the rows that it reports.
  unfoldable pub run_by_source :
      SourceSettings
      → SourceFaults
      → Option Text
      → ℕ
      → List (Batch Row) × Outcome
      → Store Row
      → SourceEnd Row
  run_by_source settings faults mark estimate read db =
      let s : Session Row = record { working = db; committed = db } in
      if not (validate settings)
      then raised s
      else run_after settings faults mark estimate read (can_skip settings faults mark s)
