-- ===== src/Strategies/Full/Complete.antt =====
-- A full load in which nothing but the source fails.
use dbextractors.Base.{
  ℕ, suc, ◌≡◌, refl, ap, ◌∙◌, Bool, true, false, ◌&&◌, not, Option, none, some, List, [], ◌∷◌,
  arith, Eq, text_Eq, contains, keep, keep_no, length, is_empty, Bool-cases, inl, inr, ltb, nat_eq,
}
use dbextractors.Reading.{Batch, Outcome, finished}
use dbextractors.Partitioning.Spec.{applies, effective_spec}
use dbextractors.Target.Shadow.{
  Stored, Database, swapped, Outside, partitions_for, swap_into, swap_open, swap_shadow_table,
  table_of,
}
use dbextractors.Strategies.Full.{
  Estimate, skipped, rows_estimated, estimate_failed, Settings, Faults, FullLoad, LoopStatus,
  running, broken, returned, new_rows, before_loop, shadow_of, commit, swap_in, after_loop,
  load_with, load_full, run, write_batch, write_batches,
}
use dbextractors.Strategies.Full.Ends.{swapped_in}
use dbextractors.Strategies.Full.Fill.{deliver, row_count, IsFilled, write_batches-IsFilled}

abbrev pub no_faults : Faults
no_faults = record {
  setup_fails = false;
  create_fails = false;
  prepare_fails = λ n. false;
  copy_fails = λ n. false;
  insert_fails = false;
  finish_fails = false;
}

-- The estimate does not end the run.
abbrev pub goes_on : Estimate → Bool
goes_on skipped = true
goes_on (rows_estimated rows) = not (nat_eq rows 0)
goes_on estimate_failed = false

module _ {Row K : Type 0} ⦃e : Eq K⦄ (key : Row → Option K) (null_text : K) where
  never_broken :
      (has_pk : Bool) (n : ℕ) (batch : Batch Row) (s : FullLoad Row K)
      → ¬ (write_batch key null_text has_pk no_faults n batch s ≡ broken)
  unfolding write_batch
  never_broken has_pk n batch s h =
      elim (Bool-cases (is_empty (new_rows key null_text has_pk batch.rows s.seen).0)) [
        | inl nothing ↦ ground arith
        | inr new ↦ ground arith
      ]

  -- The loop goes on after a turn.
  goes_on_with :
      (has_pk : Bool) (n : ℕ) (batch : Batch Row) (batches : List (Batch Row)) (s : FullLoad Row K)
      (r : LoopStatus Row K)
      → write_batch key null_text has_pk no_faults n batch s ≡ r
      → ((s' : FullLoad Row K)
          → (s'' : FullLoad Row K) × (write_batches key null_text has_pk no_faults
                (suc n)
                batches
                s'
              ≡ running s''))
      → (s'' : FullLoad Row K) × (write_batches key null_text has_pk no_faults n (batch ∷ batches) s
          ≡ running s'')
  unfolding write_batches
  goes_on_with has_pk n batch batches s broken h rest = absurd (never_broken has_pk n batch s h)
  goes_on_with has_pk n batch batches s (running s') h rest =
      let (s'', later) = rest s' in (s'', ground arith)

  pub write_batches_run :
      (has_pk : Bool) (n : ℕ) (batches : List (Batch Row)) (s : FullLoad Row K)
      → (s' : FullLoad Row K) × (write_batches key null_text has_pk no_faults n batches s
          ≡ running s')
  unfolding write_batches
  write_batches_run has_pk n [] s = (s, refl)
  write_batches_run has_pk n (batch ∷ batches) s =
      goes_on_with has_pk n batch batches s _ refl
        (λ s'. write_batches_run has_pk (suc n) batches s')

module _ {Row : Type 0} (o : Outside Row) where
  -- A target that is not partitioned takes the rows of a shadow with its columns.
  swap_ordinary :
      (t shadow : Stored Row) (db : Database Row)
      → db.target ≡ some t
      → shadow.columns ≡ t.columns
      → swap_shadow_table o false false none shadow db
        ≡ swapped
            (record { target = some (record t { rows = shadow.rows }); catalogue = db.catalogue })
            (length shadow.rows)
  unfolding swap_shadow_table swap_open swap_into partitions_for
  swap_ordinary t shadow db there same =
      let gone : keep (λ c. not (contains c t.columns)) t.columns ≡ [] =
        keep_no (λ c. not (contains c t.columns)) t.columns (λ c m. ground arith) in
      rw (there, same, gone) refl

module _ {Row K : Type 0} ⦃e : Eq K⦄ (key : Row → Option K) (null_text : K) (o : Outside Row)
    (settings : Settings) where
  abbrev written : List (Batch Row) → List Row
  written batches = deliver key null_text settings.has_pk batches []

  -- After the loop over at least one batch.
  swap_in_ordinary :
      (batch : Batch Row) (batches : List (Batch Row)) (t : Stored Row) (db : Database Row)
      (s : FullLoad Row K)
      → db.target ≡ some t
      → IsFilled key null_text settings.has_pk (batch ∷ batches) before_loop s
      → swap_in key null_text o settings no_faults none db s
        ≡ returned
            (row_count (batch ∷ batches))
            (length (written (batch ∷ batches)))
            (ltb 0 (length (written (batch ∷ batches))))
            (record {
              target = some (record t { rows = written (batch ∷ batches) });
              catalogue = db.catalogue;
            })
  swap_in_ordinary batch batches t db s there f =
      let rows = written (batch ∷ batches) in
      let shadow : Stored Row = record { columns = t.columns; rows = rows; partition_key = none } in
      let swap = swap_ordinary o t shadow db there refl in
      let filled_with : s.shadow ≡ some rows = f.filled_is in
      let r : s.rows_read ≡ row_count (batch ∷ batches) = omega (arith, f.all_read) in
      let w : s.rows_written ≡ length rows = omega (arith, f.all_written) in
      let db' : Database Row = record {
        target = some (record t { rows = rows });
        catalogue = db.catalogue;
      } in
      swapped_in key null_text o settings no_faults none db s rows filled_with
      ∙ ap
          (λ old.
            commit no_faults s.rows_read s.rows_written (ltb 0 s.rows_written) db
              (swap_shadow_table o false false none (shadow_of settings old rows) db))
          there
      ∙ ap (commit no_faults s.rows_read s.rows_written (ltb 0 s.rows_written) db) swap
      ∙ ap (λ n. returned n s.rows_written (ltb 0 s.rows_written) db') r
      ∙ ap (λ n. returned (row_count (batch ∷ batches)) n (ltb 0 n) db') w

  ordinary_applies :
      (t : Stored Row) (db : Database Row)
      → db.target ≡ some t
      → t.partition_key ≡ none
      → effective_spec (table_of db.target) settings.spec ≡ applies none
  unfolding effective_spec
  ordinary_applies t db there plain = ground arith

  run-goes_on :
      (estimate : Estimate) (read : List (Batch Row) × Outcome) (db : Database Row)
      → goes_on estimate ≡ true
      → (settings.has_pk && not settings.pk_known) ≡ false
      → run key null_text o settings no_faults estimate read db
        ≡ load_full key null_text o settings no_faults read db
  unfolding run
  run-goes_on estimate_failed read db on valid = absurd (ground arith)
  run-goes_on skipped read db on valid = rw valid refl
  run-goes_on (rows_estimated rows) read db on valid =
      let positive : nat_eq rows 0 ≡ false = ground arith in rw (valid, positive) refl

  load_full_ordinary :
      (batch : Batch Row) (batches : List (Batch Row)) (t : Stored Row) (db : Database Row)
      → db.target ≡ some t
      → t.partition_key ≡ none
      → load_full key null_text o settings no_faults (batch ∷ batches, finished) db
        ≡ returned
            (row_count (batch ∷ batches))
            (length (written (batch ∷ batches)))
            (ltb 0 (length (written (batch ∷ batches))))
            (record {
              target = some (record t { rows = written (batch ∷ batches) });
              catalogue = db.catalogue;
            })
  unfolding load_full
  load_full_ordinary batch batches t db there plain =
      let (s, loop) =
        write_batches_run key null_text settings.has_pk 0 (batch ∷ batches) before_loop in
      let f =
        write_batches-IsFilled key null_text settings.has_pk no_faults 0 (batch ∷ batches)
          before_loop s loop in
      ap (load_with key null_text o settings no_faults (batch ∷ batches, finished) db)
        (ordinary_applies t db there plain)
      ∙ ap (after_loop key null_text o settings no_faults none db finished) loop
      ∙ swap_in_ordinary batch batches t db s there f

  -- A run over an existing target that is not partitioned, in which no statement fails and whose read
  -- finishes with at least one batch, returns, and leaves the rows.
  pub run_ordinary :
      (estimate : Estimate) (batch : Batch Row) (batches : List (Batch Row)) (t : Stored Row)
      (db : Database Row)
      → goes_on estimate ≡ true
      → (settings.has_pk && not settings.pk_known) ≡ false
      → db.target ≡ some t
      → t.partition_key ≡ none
      → run key null_text o settings no_faults estimate (batch ∷ batches, finished) db
        ≡ returned
            (row_count (batch ∷ batches))
            (length (written (batch ∷ batches)))
            (ltb 0 (length (written (batch ∷ batches))))
            (record {
              target = some (record t { rows = written (batch ∷ batches) });
              catalogue = db.catalogue;
            })
  run_ordinary estimate batch batches t db on valid there plain =
      run-goes_on estimate (batch ∷ batches, finished) db on valid
      ∙ load_full_ordinary batch batches t db there plain
