-- ===== src/Strategies/BySource/Once.antt =====
-- The run for one source after a load that nothing stopped.
use dbextractors.Base.{
  ◌≡◌, refl, ap, ◌∙◌, ℕ, nat_eq, Bool, true, false, Option, some, List, arith, Text, text_Eq,
  length, ltb, beq_refl, Option-cases, inl, inr,
}
use dbextractors.Naming.Unicode.{Unicode}
use dbextractors.Dates.{Date}
use dbextractors.Partitioning.Catalog.{Relation, Catalogue}
use dbextractors.Reading.{Batch, Outcome, finished}
use dbextractors.Strategies.Full.Fill.{row_count}
use dbextractors.Target.Slices.{Store, stored_fingerprint, target_holds_source}
use dbextractors.Target.Slices.Cuts.{rows_of, slice, HasOwnPartition}
use dbextractors.Strategies.BySource.{
  Session, resolve_partitioning, SourceSettings, returned, can_skip, validate,
}
use dbextractors.Strategies.BySource.Run.{skipped, run_after, run_by_source}
use dbextractors.Strategies.BySource.Ends.{labelled_rows-length}
use dbextractors.Target.Slices.{holds}
use dbextractors.Strategies.BySource.Replaces.{no_faults, slice-holds, IsGranted}
use dbextractors.Strategies.BySource.Accounted.{load_result}
use dbextractors.Strategies.BySource.Loads.{run_loads}

module _ {Row : Type 0} (label : Text) (target : Text) (refuses : Catalogue → Relation → Bool)
    (u : Unicode) (digest : Text → Text) (fromisoformat : Text → Option Date)
    (settings : SourceSettings) (m : Text) where
  holds_there :
      (db : Store Row) → holds label (rows_of db) ≡ true → target_holds_source label db ≡ true
  unfolding target_holds_source
  holds_there db h = elim (Option-cases db.target) [
    | inl missing ↦ absurd (ground arith)
    | inr (t, there) ↦ ground arith
  ]

  skips :
      (db : Store Row)
      → settings.source_label ≡ some label
      → settings.force_reload ≡ false
      → stored_fingerprint label db.fingerprints ≡ some m
      → target_holds_source label db ≡ true
      → can_skip settings no_faults (some m) (record { working = db; committed = db })
        ≡ (true, record { working = db; committed = db })
  unfolding can_skip
  skips db labelled unforced stored there = let same = beq_refl m in ground arith

  run_is_skipped :
      (estimate : ℕ) (read : List (Batch Row) × Outcome) (db : Store Row)
      → validate settings ≡ true
      → can_skip settings no_faults (some m) (record { working = db; committed = db })
        ≡ (true, record { working = db; committed = db })
      → run_by_source target refuses u digest fromisoformat settings no_faults
          (some m)
          estimate
          read
          db
        ≡ returned skipped (record { working = db; committed = db })
  unfolding run_by_source run_after
  run_is_skipped estimate read db valid h = rw (valid, h) refl

  -- A valid run for a source with rows, which the settings do not force, which is not skipped, whose
  -- batches come to their end and which nothing stops, with a fingerprint, returns the number of the
  -- rows; and the next run for the same source with the same fingerprint, which nothing stops either,
  -- returns at once, whatever the source would then give, and changes nothing of what the first has
  -- committed. Conditions are those of the first run: no table other than the source's own partition
  -- has its name, and PostgreSQL grants that partition where one is made.
  pub run_loads_once :
      (first second : ℕ) (read later : List (Batch Row) × Outcome) (db : Store Row)
      → settings.source_label ≡ some label
      → validate settings ≡ true
      → settings.force_reload ≡ false
      → (can_skip settings no_faults (some m) (record { working = db; committed = db })).0 ≡ false
      → nat_eq first 0 ≡ false
      → read.1 ≡ finished
      → ltb 0 (row_count read.0) ≡ true
      → HasOwnPartition target u digest fromisoformat label db.catalogue
      → IsGranted label target refuses u digest fromisoformat
          (resolve_partitioning settings db)
          db.catalogue
      → (s : Session Row) × ((run_by_source target refuses u digest fromisoformat settings no_faults
              (some m)
              first
              read
              db
            ≡ returned (load_result (row_count read.0)) s)
          × (run_by_source target refuses u digest fromisoformat settings no_faults
                (some m)
                second
                later
                s.committed
              ≡ returned skipped (record { working = s.committed; committed = s.committed })))
  run_loads_once first second read later db labelled valid unforced unskipped some_estimate end
        some_rows own granted =
      let (s, (is, (rows, stored))) =
        run_loads label target refuses u digest fromisoformat settings (some m) first read db
          labelled valid unskipped some_estimate end some_rows own granted in
      let many : ltb 0 (length (slice label (rows_of s.committed))) ≡ true =
        ap (λ l. ltb 0 (length l)) rows
        ∙ ap (ltb 0) (labelled_rows-length label read.0)
        ∙ some_rows in
      (
        s,
        (
          is,
          run_is_skipped second later s.committed valid (
              skips s.committed labelled unforced stored
                (holds_there s.committed (slice-holds label (rows_of s.committed) many))),
        ),
      )
