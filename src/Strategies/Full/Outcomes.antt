-- ===== src/Strategies/Full/Outcomes.antt =====
-- All that a full load can leave in the target.
use dbextractors.Base.{
  ◌≡◌, refl, sym, ap, some, subst, ◌∙◌, false, ◌&&◌, not, Option, none, List, [], ◌∷◌, arith, Eq,
  if◌then◌else◌, inl, inr, ltb, nat_eq, nat_eq_iff,
}
use dbextractors.Reading.{Batch, Outcome, finished, failed}
use dbextractors.Partitioning.{PartitionSpec}
use dbextractors.Partitioning.Spec.{Effective, applies, other_column, effective_spec}
use dbextractors.Target.Shadow.{Database, Outside, swap_shadow_table, table_of}
use dbextractors.Strategies.Full.{
  Estimate, skipped, rows_estimated, estimate_failed, Settings, Faults, FullLoad, LoopStatus,
  running, broken, raised, before_loop, shadow_of, empty_target, swap_in, after_loop, load_with,
  load_full, run, write_batches,
}
use dbextractors.Strategies.Full.Fill.{IsFilled, write_batches-IsFilled}
use dbextractors.Strategies.Full.Ends.{
  either_branch, expected_rows, delivered_is, Explained, kept_raised, kept_returned, emptied,
  loaded, commit_cases, unswapped, swapped_in, counted,
}

module _ {Row K : Type 0} ⦃e : Eq K⦄ (key : Row → Option K) (null_text : K) (o : Outside Row)
    (settings : Settings) (faults : Faults) where
  -- After the loop.
  swap_in-Explained :
      (estimate : Estimate) (read : List (Batch Row) × Outcome) (db : Database Row)
      (spec : Option PartitionSpec) (s : FullLoad Row K)
      → read.1 ≡ finished
      → effective_spec (table_of db.target) settings.spec ≡ applies spec
      → IsFilled key null_text settings.has_pk read.0 before_loop s
      → Explained key null_text o settings faults estimate read db
          (swap_in key null_text o settings faults spec db s)
  swap_in-Explained estimate ([], outcome) db spec s whole applied f =
      let nothing : s.shadow ≡ none = f.filled_is in
      let count : s.rows_read ≡ 0 = omega (arith, f.all_read) in
      subst (Explained key null_text o settings faults estimate ([], outcome) db)
        (sym (unswapped key null_text o settings faults spec db s nothing count)) kept_returned
  swap_in-Explained estimate (batch ∷ batches, outcome) db spec s whole applied f =
      let rows = expected_rows key null_text o settings faults (batch ∷ batches) in
      let filled =
        f.filled_is ∙ ap some (delivered_is key null_text o settings faults (batch ∷ batches)) in
      elim (commit_cases key null_text o settings faults s.rows_read s.rows_written
        (ltb 0 s.rows_written) spec rows db
        (swap_shadow_table o false faults.insert_fails spec (shadow_of settings db.target rows) db)
        refl) [
          | inl same ↦
              subst
                (Explained key null_text o settings faults estimate (batch ∷ batches, outcome) db)
                (sym (swapped_in key null_text o settings faults spec db s rows filled ∙ same))
                kept_raised
          | inr (db', (is, same)) ↦
              subst
                (Explained key null_text o settings faults estimate (batch ∷ batches, outcome) db)
                (sym (
                  swapped_in key null_text o settings faults spec db s rows filled
                  ∙ same
                  ∙ counted key null_text o settings faults db' (batch ∷ batches) s f))
                (loaded db' spec whole refl applied is)
        ]

  loop-Explained :
      (estimate : Estimate) (read : List (Batch Row) × Outcome) (db : Database Row)
      (spec : Option PartitionSpec) (r : LoopStatus Row K)
      → write_batches key null_text settings.has_pk faults 0 read.0 before_loop ≡ r
      → effective_spec (table_of db.target) settings.spec ≡ applies spec
      → Explained key null_text o settings faults estimate read db
          (after_loop key null_text o settings faults spec db read.1 r)
  loop-Explained estimate read db spec broken h applied = kept_raised
  loop-Explained estimate (batches, failed err) db spec (running s) h applied = kept_raised
  loop-Explained estimate (batches, finished) db spec (running s) h applied =
      swap_in-Explained estimate (batches, finished) db spec s refl applied
        (write_batches-IsFilled key null_text settings.has_pk faults 0 batches before_loop s h)

  with-Explained :
      (estimate : Estimate) (read : List (Batch Row) × Outcome) (db : Database Row) (x : Effective)
      → effective_spec (table_of db.target) settings.spec ≡ x
      → Explained key null_text o settings faults estimate read db
          (load_with key null_text o settings faults read db x)
  with-Explained estimate read db (other_column actual) h = kept_raised
  with-Explained estimate read db (applies spec) h =
      loop-Explained estimate read db spec
        (write_batches key null_text settings.has_pk faults 0 read.0 before_loop) refl h

  load_full-Explained :
      (estimate : Estimate) (read : List (Batch Row) × Outcome) (db : Database Row)
      → Explained key null_text o settings faults estimate read db
          (load_full key null_text o settings faults read db)
  unfolding load_full
  load_full-Explained estimate read db =
      either_branch (Explained key null_text o settings faults estimate read db) faults.setup_fails
        _ _ (λ bad. kept_raised)
        (λ fine.
          with-Explained estimate read db (effective_spec (table_of db.target) settings.spec) refl)

  empty_target-Explained :
      (read : List (Batch Row) × Outcome) (db : Database Row)
      → Explained key null_text o settings faults
          (rows_estimated 0)
          read
          db
          (empty_target key null_text o settings faults db)
  unfolding empty_target
  empty_target-Explained read db =
      either_branch (Explained key null_text o settings faults (rows_estimated 0) read db)
        (not settings.empty_rows_ok) _ _ (λ refuse. kept_returned)
        (λ allow.
          either_branch (Explained key null_text o settings faults (rows_estimated 0) read db)
            faults.create_fails _ _ (λ bad. kept_raised)
            (λ fine.
              elim (commit_cases key null_text o settings faults 0 0 false none [] db
                (swap_shadow_table o false faults.insert_fails none
                  (shadow_of settings db.target []) db)
                refl) [
                  | inl same ↦
                      subst (Explained key null_text o settings faults (rows_estimated 0) read db)
                        (sym same) kept_raised
                  | inr (db', (is, same)) ↦
                      subst (Explained key null_text o settings faults (rows_estimated 0) read db)
                        (sym same) (emptied db' refl (ground arith) is)
                ]))

  chosen :
      (estimate : Estimate) (read : List (Batch Row) × Outcome) (db : Database Row)
      → Explained key null_text o settings faults estimate read db (elim estimate [
        | estimate_failed ↦ raised db
        | skipped ↦ load_full key null_text o settings faults read db
        | rows_estimated rows ↦
            if nat_eq rows 0
            then empty_target key null_text o settings faults db
            else load_full key null_text o settings faults read db
      ])
  chosen estimate_failed read db = kept_raised
  chosen skipped read db = load_full-Explained skipped read db
  chosen (rows_estimated rows) read db =
      either_branch (Explained key null_text o settings faults (rows_estimated rows) read db)
        (nat_eq rows 0) _ _
        (λ h.
          subst
            (λ n.
              Explained key null_text o settings faults (rows_estimated n) read db
                (empty_target key null_text o settings faults db))
            (sym ((nat_eq_iff rows 0).0 h)) (empty_target-Explained read db))
        (λ h. load_full-Explained (rows_estimated rows) read db)

  -- However a run ends and whatever fails, it leaves the target in one of three states: as it was; with
  -- no rows, where the estimate was 0 and empty_rows_ok is set; or, after a read that finished with at
  -- least one batch, with the rows of all its batches, without a primary key, or, with one, with those
  -- whose key no earlier batch had and, of the rows without a key, those of a batch none of whose keys
  -- an earlier batch had, or of one where the text of a missing value is itself a new key. What it
  -- returns counts the rows read and the rows written. Only a failure after the commit raises with
  -- the target changed.
  pub run-Explained :
      (estimate : Estimate) (read : List (Batch Row) × Outcome) (db : Database Row)
      → Explained key null_text o settings faults estimate read db
          (run key null_text o settings faults estimate read db)
  unfolding run
  run-Explained estimate read db =
      either_branch (Explained key null_text o settings faults estimate read db)
        (settings.has_pk && not settings.pk_known) _ _ (λ bad. kept_raised)
        (λ fine. chosen estimate read db)
