-- ===== src/Strategies/Full/Recovered.antt =====
-- A full load over a source that drops its connections.
use dbextractors.Base.{
  ℕ, ◌<◌, ◌≤◌, ◌≡◌, refl, sym, ap, subst, ◌∙◌, Bool, true, false, ◌&&◌, not, Option, none, some,
  List, [], ◌∷◌, ◌++◌, arith, Eq, nat_Eq, contains, NodupList, length, length-append, is_empty, ltb,
  nat_eq, All,
}
use dbextractors.Reading.{Failure, Batch, Stream, finished, is_temporary_error, read_with_resume}
use dbextractors.Reading.Keys.{Ascending}
use dbextractors.Reading.Resume.{rows_of, IsFaithful, read-finished}
use dbextractors.Reading.Recovery.{HasKeys, read_recovers}
use dbextractors.Target.SeenKeys.{key_texts}
use dbextractors.Target.Shadow.{Stored, Database, Outside}
use dbextractors.Strategies.Full.{Estimate, Settings, Ended, returned, run}
use dbextractors.Strategies.Full.Fill.{deliver, row_count}
use dbextractors.Strategies.Full.Fresh.{deliver_all}
use dbextractors.Strategies.Full.Complete.{no_faults, goes_on, run_ordinary}

module _ {Row : Type 0} (key : Row → ℕ) where
  abbrev pub known_key : Row → Option ℕ
  known_key r = some (key r)

  above_every_key :
      (k : ℕ) (rows : List Row)
      → All (λ r. k < key r) rows
      → contains k (key_texts known_key rows) ≡ false
  above_every_key k [] h = refl
  above_every_key k (r ∷ rows) (hr, h) = ground (arith, above_every_key k rows h)

  ascending_nodup : (rows : List Row) → Ascending key rows → NodupList (key_texts known_key rows)
  ascending_nodup [] h = tt
  ascending_nodup (r ∷ rows) (above, h) =
      (above_every_key (key r) rows above, ascending_nodup rows h)

row_count-rows_of :
    {Row : Type 0} (batches : List (Batch Row)) → row_count batches ≡ length (rows_of batches)
row_count-rows_of [] = refl
row_count-rows_of (b ∷ bs) = ground (arith, row_count-rows_of bs, length-append b.rows (rows_of bs))

deliver_plain :
    {Row K : Type 0} ⦃e : Eq K⦄ (key : Row → Option K) (null_text : K) (batches : List (Batch Row))
    (seen : List K)
    → deliver key null_text false batches seen ≡ rows_of batches
deliver_plain key null_text [] seen = refl
deliver_plain key null_text (b ∷ bs) seen =
    ap (λ rows. b.rows ++ rows) (deliver_plain key null_text bs seen)

some_length : {Row : Type 0} (rows : List Row) → is_empty rows ≡ false → ltb 0 (length rows) ≡ true
some_length [] h = absurd (ground arith)
some_length (r ∷ rows) h = ground arith

module _ {Row : Type 0} (key : Row → ℕ) (null_text : ℕ) (o : Outside Row)
    (settings : Settings) where
  deliver_either :
      (has_pk : Bool) (batches : List (Batch Row))
      → Ascending key (rows_of batches)
      → deliver (known_key key) null_text has_pk batches [] ≡ rows_of batches
  deliver_either true batches h =
      deliver_all (known_key key) null_text batches [] (ascending_nodup key (rows_of batches) h)
        (λ k m. refl)
  deliver_either false batches h = deliver_plain (known_key key) null_text batches []

  -- Batches that bring the table.
  run_table :
      (estimate : Estimate) (batches : List (Batch Row)) (table : List Row) (t : Stored Row)
      (db : Database Row)
      → Ascending key table
      → rows_of batches ≡ table
      → is_empty table ≡ false
      → goes_on estimate ≡ true
      → (settings.has_pk && not settings.pk_known) ≡ false
      → db.target ≡ some t
      → t.partition_key ≡ none
      → run (known_key key) null_text o settings no_faults estimate (batches, finished) db
        ≡ returned
            (length table)
            (length table)
            true
            (record { target = some (record t { rows = table }); catalogue = db.catalogue })
  run_table estimate [] table t db asc all some_rows on valid there plain =
      absurd (cc (rw (← all) at some_rows))
  run_table estimate (batch ∷ batches) table t db asc all some_rows on valid there plain =
      let bs = batch ∷ batches in
      let written : deliver (known_key key) null_text settings.has_pk bs [] ≡ table =
        deliver_either settings.has_pk bs (subst (Ascending key) (sym all) asc) ∙ all in
      let count : row_count bs ≡ length table = row_count-rows_of bs ∙ ap length all in
      let answer : ℕ → List Row → Ended Row = λ n rows.
        returned n (length rows) (ltb 0 (length rows))
          (record { target = some (record t { rows = rows }); catalogue = db.catalogue }) in
      run_ordinary (known_key key) null_text o settings estimate batch batches t db on valid there
        plain
      ∙ ap (λ n. answer n (deliver (known_key key) null_text settings.has_pk bs [])) count
      ∙ ap (answer (length table)) written
      ∙ ap
          (λ b.
            returned (length table) (length table) b
              (record { target = some (record t { rows = table }); catalogue = db.catalogue }))
          (some_length table some_rows)

module _ {Row Sql : Type 0} (key : Row → ℕ) (build_sql : Option ℕ → Sql)
    (iter_batches : ℕ → Sql → Stream Row) (attempts : ℕ) (table : List Row)
    (ordered : Ascending key table)
    (faithful : IsFaithful key build_sql iter_batches true true attempts table)
    (keyed : (attempt : ℕ) (sql : Sql) → All HasKeys (iter_batches attempt sql).batches)
    (temporary : (attempt : ℕ) (sql : Sql) (err : Failure)
      → (iter_batches attempt sql).failure ≡ some err
      → is_temporary_error err ≡ true)
    (good : ℕ) (recovered : (sql : Sql) → (iter_batches good sql).failure ≡ none)
    (positive : 0 < good) (within : good ≤ attempts) where
  -- Take a source table that is ordered by its key and has a row, read over a connection that fails
  -- with connection errors only and holds at one of the attempts, with no empty batches. A full load
  -- into an existing target that is not partitioned, in which no statement on the target fails, and
  -- which neither the settings nor the estimate stop, then returns the table's number of rows, read and
  -- written, and leaves exactly the rows of the table in the target, whatever batches they came in.
  pub run-recovers :
      (null_text : ℕ) (o : Outside Row) (settings : Settings) (estimate : Estimate) (t : Stored Row)
      (db : Database Row)
      → is_empty table ≡ false
      → goes_on estimate ≡ true
      → (settings.has_pk && not settings.pk_known) ≡ false
      → db.target ≡ some t
      → t.partition_key ≡ none
      → run
          (known_key key)
          null_text
          o
          settings
          no_faults
          estimate
          (read_with_resume key build_sql iter_batches true attempts)
          db
        ≡ returned
            (length table)
            (length table)
            true
            (record { target = some (record t { rows = table }); catalogue = db.catalogue })
  run-recovers null_text o settings estimate t db some_rows on valid there plain =
      let read = read_with_resume key build_sql iter_batches true attempts in
      let fin =
        read_recovers key build_sql iter_batches attempts keyed temporary good recovered positive
          within in
      let all =
        read-finished key build_sql iter_batches true true attempts table (λ h. ordered) faithful
          fin in
      let tried : nat_eq attempts 0 ≡ false = ground arith in
      let whole : rows_of read.0 ≡ table = all ∙ rw tried refl in
      ap (λ end. run (known_key key) null_text o settings no_faults estimate (read.0, end) db) fin
      ∙ run_table key null_text o settings estimate read.0 table t db ordered whole some_rows on
          valid there plain
