-- ===== src/Strategies/BySource/Safety.antt =====
-- A run for one source leaves the rows of the other sources.
use dbextractors.Base.{
  ◌≡◌, refl, sym, ap, subst, ◌∙◌, ℕ, Bool, false, not, Option, none, some, List, [], Text,
  if◌then◌else◌, nat_eq, ltb, inl, inr,
}
use dbextractors.Naming.Unicode.{Unicode}
use dbextractors.Dates.{Date}
use dbextractors.Partitioning.Catalog.{Relation, Catalogue}
use dbextractors.Reading.{Batch, Outcome, finished, failed}
use dbextractors.Strategies.Full.Ends.{either_branch}
use dbextractors.Target.Slices.{Labelled, Slices, Store, replace_source_slice}
use dbextractors.Target.Slices.Cuts.{rows_of, others, HasOwnPartition}
use dbextractors.Strategies.BySource.{
  nothing_staged, SourceSettings, SourceFaults, Session, LoadResult, SourceEnd, session_of, raised,
  Staged, stage, prepare_target, can_skip, resolve_partitioning, finish_source, rollback_session,
  validate,
}
use dbextractors.Strategies.BySource.Run.{
  create_empty_target, cut_target, empty_source, swap_slice, swap_after, replace_slice, load,
  run_after, run_by_source, no_rows,
}
use dbextractors.Strategies.BySource.Kept.{Holds, rollback-Holds, finish-Holds, can_skip_session}
use dbextractors.Strategies.BySource.Others.{others_staged, AsBefore, IsWritten-AsBefore}
use dbextractors.Strategies.BySource.Writes.{
  create_empty_target-Same, replaced-IsWritten, cut_target-IsWritten,
}

module _ {Row : Type 0} (label : Text) (before : List (Labelled Row)) (target : Text)
    (refuses : Catalogue → Relation → Bool) (u : Unicode) (digest : Text → Text)
    (fromisoformat : Text → Option Date) where
  abbrev Before : List (Labelled Row) → Type 0
  Before rows = AsBefore label before rows

  abbrev Rows : List (Labelled Row) → List (Text × Text) → Type 0
  Rows rows marks = Before rows

  abbrev Own : Catalogue → Type 0
  Own cat = HasOwnPartition target u digest fromisoformat label cat

  -- The whole session has the other sources' rows as before.
  abbrev Safe : SourceEnd Row → Type 0
  Safe e = Holds Rows (session_of e)

  module _ (settings : SourceSettings) (faults : SourceFaults) (mark : Option Text) where
    finished_with :
        (result : LoadResult) (s : Session Row)
        → Holds Rows s
        → Safe (finish_source settings faults mark result s)
    finished_with result s h = finish-Holds Rows settings faults mark result s h (λ l m _ _. h.seen)

    empty_source-Safe :
        (partitioned : Bool) (s : Session Row)
        → settings.source_label ≡ some label
        → Own s.working.catalogue
        → Holds Rows s
        → Safe
            (empty_source target refuses u digest fromisoformat settings faults mark partitioned s)
    unfolding empty_source
    empty_source-Safe partitioned s labelled own h = with_target s.working.target refl
      where
        after_cut :
            (x : Option (Store Row))
            → ((db : Store Row) → x ≡ some db → Before (rows_of db))
            → Safe (elim x [
              | none ↦ raised s
              | some db ↦ finish_source settings faults mark no_rows (record s { working = db })
            ])
        after_cut none k = h
        after_cut (some db) k =
            finished_with no_rows (record s { working = db })
              (record { seen = k db refl; kept = h.kept })

        after_create :
            (x : Option (Store Row))
            → ((db : Store Row) → x ≡ some db → Before (rows_of db))
            → Safe (elim x [
              | none ↦ raised s
              | some db ↦
                  finish_source settings faults mark no_rows
                    (record { working = db; committed = db })
            ])
        after_create none k = h
        after_create (some db) k =
            finished_with no_rows (record { working = db; committed = db })
              (record { seen = k db refl; kept = k db refl })

        with_target :
            (t : Option (Slices Row))
            → s.working.target ≡ t
            → Safe (elim t [
              | none ↦
                  if not settings.empty_rows_ok
                  then raised s
                  else elim (create_empty_target target refuses u digest fromisoformat settings
                      faults partitioned s.working) [
                        | none ↦ raised s
                        | some db ↦
                            finish_source settings faults mark no_rows
                              record { working = db; committed = db }
                      ]
              | some t ↦
                  elim (cut_target target refuses u digest fromisoformat settings faults s.working
                    t) [
                      | none ↦ raised s
                      | some db ↦
                          finish_source settings faults mark no_rows (record s { working = db })
                    ]
            ])
        with_target none missing =
            either_branch Safe (not settings.empty_rows_ok) _ _ (λ _. h)
              (λ _.
                after_create
                  (create_empty_target target refuses u digest fromisoformat settings faults
                    partitioned s.working)
                  (λ db e.
                    let (rows, _) =
                      create_empty_target-Same target refuses u digest fromisoformat settings faults
                        partitioned s.working db e in
                    ap (others label) rows ∙ h.seen))
        with_target (some t) there =
            after_cut (cut_target target refuses u digest fromisoformat settings faults s.working t)
              (λ db e.
                IsWritten-AsBefore label before [] s.working db
                  (cut_target-IsWritten target refuses u digest fromisoformat label settings faults
                    s.working db t labelled own there e)
                  refl h.seen)

    swap_slice-Safe :
        (partitioned : Bool) (staged : Staged Row) (s : Session Row)
        → settings.source_label ≡ some label
        → Own s.working.catalogue
        → others label staged.rows ≡ []
        → Holds Rows s
        → Safe (
            swap_slice target refuses u digest fromisoformat settings faults mark partitioned staged
              s)
    unfolding swap_slice
    swap_slice-Safe partitioned staged s labelled own ours h =
        either_branch Safe (nat_eq staged.rows_read 0) _ _ (λ _. rollback-Holds Rows s h)
          (λ _.
            after_swap
              (replace_source_slice target refuses u digest fromisoformat faults.replace_fails
                settings.source_label staged.rows (prepare_target partitioned s.working))
              (λ db n e.
                let (written, _) =
                  replaced-IsWritten target refuses u digest fromisoformat label
                    faults.replace_fails partitioned staged.rows s.working db n own
                    (subst
                      (λ l.
                        replace_source_slice target refuses u digest fromisoformat
                          faults.replace_fails l staged.rows (prepare_target partitioned s.working)
                        ≡ some (db, n))
                      labelled e) in
                IsWritten-AsBefore label before staged.rows s.working db written ours h.seen))
      where
        after_swap :
            (x : Option (Store Row × ℕ))
            → ((db : Store Row) (n : ℕ) → x ≡ some (db, n) → Before (rows_of db))
            → Safe (elim x [
              | none ↦ raised (rollback_session s)
              | some (db, rows_written) ↦
                  finish_source settings faults mark
                    record {
                      rows_read = staged.rows_read;
                      rows_written = rows_written;
                      unchanged = false;
                      data_present = ltb 0 rows_written;
                    }
                    record { working = db; committed = db }
            ])
        after_swap none k = rollback-Holds Rows s h
        after_swap (some (db, n)) k =
            finished_with _ (record { working = db; committed = db })
              (record { seen = k db n refl; kept = k db n refl })

    swap_after-Safe :
        (partitioned : Bool) (outcome : Outcome) (x : Option (Staged Row)) (s : Session Row)
        → settings.source_label ≡ some label
        → Own s.working.catalogue
        → ((staged : Staged Row) → x ≡ some staged → others label staged.rows ≡ [])
        → Holds Rows s
        → Safe (
            swap_after target refuses u digest fromisoformat settings faults mark partitioned
              outcome x s)
    swap_after-Safe partitioned outcome none s labelled own ours h = rollback-Holds Rows s h
    swap_after-Safe partitioned (failed err) (some staged) s labelled own ours h =
        rollback-Holds Rows s h
    swap_after-Safe partitioned finished (some staged) s labelled own ours h =
        swap_slice-Safe partitioned staged s labelled own (ours staged refl) h

    load-Safe :
        (estimate : ℕ) (read : List (Batch Row) × Outcome) (s : Session Row)
        → settings.source_label ≡ some label
        → Own s.working.catalogue
        → Holds Rows s
        → Safe (load target refuses u digest fromisoformat settings faults mark estimate read s)
    unfolding load replace_slice
    load-Safe estimate read s labelled own h =
        let partitioned = resolve_partitioning settings s.working in
        either_branch Safe (nat_eq estimate 0) _ _
          (λ _. empty_source-Safe partitioned s labelled own h)
          (λ _.
            either_branch Safe faults.create_fails _ _ (λ _. h)
              (λ _.
                swap_after-Safe partitioned read.1 _ s labelled own
                  (λ staged e.
                    others_staged label faults 0 read.0 nothing_staged staged refl (
                      subst (λ l. stage faults l 0 read.0 nothing_staged ≡ some staged) labelled e))
                  h))

    run_after-Safe :
        (estimate : ℕ) (read : List (Batch Row) × Outcome) (x : Bool × Session Row)
        → settings.source_label ≡ some label
        → Own x.1.working.catalogue
        → Holds Rows x.1
        → Safe
            (run_after target refuses u digest fromisoformat settings faults mark estimate read x)
    unfolding run_after
    run_after-Safe estimate read (skip, s) labelled own h =
        either_branch Safe skip _ _ (λ _. h)
          (λ _.
            either_branch Safe faults.estimate_fails _ _ (λ _. h)
              (λ _. load-Safe estimate read s labelled own h))

    run-Safe :
        (estimate : ℕ) (read : List (Batch Row) × Outcome) (db : Store Row)
        → settings.source_label ≡ some label
        → Own db.catalogue
        → Before (rows_of db)
        → Safe (
            run_by_source target refuses u digest fromisoformat settings faults mark estimate read
              db)
    unfolding run_by_source
    run-Safe estimate read db labelled own h =
        let s : Session Row = record { working = db; committed = db } in
        let here : Holds Rows s = record { seen = h; kept = h } in
        let same : (can_skip settings faults mark s).1 ≡ s =
          elim (can_skip_session settings faults mark s) [ inl e ↦ e | inr e ↦ e ] in
        either_branch Safe (not (validate settings)) _ _ (λ _. here)
          (λ _.
            run_after-Safe estimate read (can_skip settings faults mark s) labelled
              (subst (λ (x : Session Row). Own x.working.catalogue) (sym same) own)
              (subst (Holds Rows) (sym same) here))

module _ {Row : Type 0} (target : Text) (refuses : Catalogue → Relation → Bool) (u : Unicode)
    (digest : Text → Text) (fromisoformat : Text → Option Date) where
  -- A run for one source, however it ends and whatever fails, leaves what is committed of the rows of
  -- all other sources as it was, if no table other than the source's own partition has its name.
  pub run-others :
      (settings : SourceSettings) (faults : SourceFaults) (mark : Option Text) (estimate : ℕ)
      (read : List (Batch Row) × Outcome) (label : Text) (db : Store Row)
      → settings.source_label ≡ some label
      → HasOwnPartition target u digest fromisoformat label db.catalogue
      → others label (
          rows_of
            (session_of (
              run_by_source target refuses u digest fromisoformat settings faults mark estimate read
                db)).committed)
        ≡ others label (rows_of db)
  run-others settings faults mark estimate read label db labelled own =
      let safe =
        run-Safe label (rows_of db) target refuses u digest fromisoformat settings faults mark
          estimate read db labelled own refl in
      safe.kept
