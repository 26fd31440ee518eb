-- ===== src/Strategies/Full/Ends.antt =====
-- The ends that a full load can have.
use dbextractors.Base.{
  ℕ, ◌≡◌, refl, ap, ◌∙◌, Bool, true, false, Option, none, some, List, [], arith, Eq, length,
  is_empty, if◌then◌else◌, inl, inr, ◌⊎◌, ltb,
}
use dbextractors.Reading.{Batch, Outcome, finished}
use dbextractors.Partitioning.{PartitionSpec}
use dbextractors.Partitioning.Spec.{applies, effective_spec}
use dbextractors.Target.Shadow.{
  Stored, Database, Swapped, swapped, swap_failed, Outside, swap_shadow_table, table_of,
}
use dbextractors.Target.Shadow.Laws.{shape, swap_shadow_table-IsSwapped}
use dbextractors.Strategies.Full.{
  Estimate, rows_estimated, Settings, Faults, FullLoad, Ended, returned, raised, before_loop,
  shadow_of, commit, swap_in,
}
use dbextractors.Strategies.Full.Fill.{deliver, row_count, IsFilled}
use dbextractors.Strategies.Full.Expected.{expected, deliver-expected}

-- What holds of both branches holds of the test.
pub either_branch :
    {A : Type 0} (P : A → Type 0) (b : Bool) (x y : A)
    → (b ≡ true → P x)
    → (b ≡ false → P y)
    → P (if b then x else y)
either_branch P true x y h k = h refl
either_branch P false x y h k = k refl

module _ {Row K : Type 0} ⦃e : Eq K⦄ (key : Row → Option K) (null_text : K) (o : Outside Row)
    (settings : Settings) (faults : Faults) where
  -- The target has the rows; it is otherwise what it was, or what `spec` says of a new one.
  pub record IsReplaced (spec : Option PartitionSpec) (rows : List Row) (db db' : Database Row)
      : Type 0 where
    pub rows_are :
        db'.target
        ≡ some (record (shape spec (shadow_of settings db.target rows) db.target) { rows = rows })

  -- The end of a run that has committed.
  abbrev pub committed : ℕ → ℕ → Bool → Database Row → Ended Row
  committed rows_read rows_written data_present db =
      if faults.finish_fails then raised db else returned rows_read rows_written data_present db

  abbrev pub delivered : List (Batch Row) → List Row
  delivered batches = deliver key null_text settings.has_pk batches []

  abbrev pub expected_rows : List (Batch Row) → List Row
  expected_rows batches = expected key null_text settings.has_pk batches

  pub delivered_is : (batches : List (Batch Row)) → delivered batches ≡ expected_rows batches
  delivered_is batches = deliver-expected key null_text settings.has_pk batches

  -- The four ends of a run.
  pub data Explained (estimate : Estimate) (read : List (Batch Row) × Outcome) (db : Database Row)
      : Ended Row → Type 0 where
    kept_raised : Explained estimate read db (raised db)
    kept_returned : Explained estimate read db (returned 0 0 false db)
    emptied :
        (db' : Database Row)
        → estimate ≡ rows_estimated 0
        → settings.empty_rows_ok ≡ true
        → IsReplaced none [] db db'
        → Explained estimate read db (committed 0 0 false db')
    loaded :
        (db' : Database Row) (spec : Option PartitionSpec)
        → read.1 ≡ finished
        → is_empty read.0 ≡ false
        → effective_spec (table_of db.target) settings.spec ≡ applies spec
        → IsReplaced spec (expected_rows read.0) db db'
        → Explained estimate read db (
            committed
              (row_count read.0)
              (length (expected_rows read.0))
              (ltb 0 (length (expected_rows read.0)))
              db')

  shadow_of-rows :
      (t : Option (Stored Row)) (rows : List Row) → (shadow_of settings t rows).rows ≡ rows
  shadow_of-rows none rows = refl
  shadow_of-rows (some t) rows = refl

  pub commit_cases :
      (rows_read rows_written : ℕ) (present : Bool) (spec : Option PartitionSpec) (rows : List Row)
      (db : Database Row) (x : Swapped Row)
      → swap_shadow_table o false faults.insert_fails spec (shadow_of settings db.target rows) db
        ≡ x
      → (commit faults rows_read rows_written present db x ≡ raised db)
        ⊎ ((db' : Database Row) × (IsReplaced spec rows db db'
              × (commit faults rows_read rows_written present db x
                  ≡ committed rows_read rows_written present db')))
  commit_cases rows_read rows_written present spec rows db (swap_failed err) h = inl refl
  commit_cases rows_read rows_written present spec rows db (swapped db' n) h =
      let s =
        swap_shadow_table-IsSwapped o false faults.insert_fails spec
          (shadow_of settings db.target rows) db db' n h in
      let t = shape spec (shadow_of settings db.target rows) db.target in
      let rows_are : db'.target ≡ some (record t { rows = rows }) =
        s.target_is ∙ ap (λ r. some (record t { rows = r })) (shadow_of-rows db.target rows) in
      inr (db', (record { rows_are = rows_are }, refl))

  pub unswapped :
      (spec : Option PartitionSpec) (db : Database Row) (s : FullLoad Row K)
      → s.shadow ≡ none
      → s.rows_read ≡ 0
      → swap_in key null_text o settings faults spec db s ≡ returned 0 0 false db
  unswapped spec db s nothing count = ground arith

  pub swapped_in :
      (spec : Option PartitionSpec) (db : Database Row) (s : FullLoad Row K) (rows : List Row)
      → s.shadow ≡ some rows
      → swap_in key null_text o settings faults spec db s
        ≡ commit faults s.rows_read s.rows_written (ltb 0 s.rows_written) db (
            swap_shadow_table o false faults.insert_fails spec
              (shadow_of settings db.target rows)
              db)
  swapped_in spec db s rows is = ground arith

  pub counted :
      (db : Database Row) (batches : List (Batch Row)) (s : FullLoad Row K)
      → IsFilled key null_text settings.has_pk batches before_loop s
      → committed s.rows_read s.rows_written (ltb 0 s.rows_written) db
        ≡ committed
            (row_count batches)
            (length (expected_rows batches))
            (ltb 0 (length (expected_rows batches)))
            db
  counted db batches s f =
      let r : s.rows_read ≡ row_count batches = omega (arith, f.all_read) in
      let w : s.rows_written ≡ length (expected_rows batches) =
        omega (arith, f.all_written) ∙ ap length (delivered_is batches) in
      ap (λ n. committed n s.rows_written (ltb 0 s.rows_written) db) r
      ∙ ap (λ n. committed (row_count batches) n (ltb 0 n) db) w
