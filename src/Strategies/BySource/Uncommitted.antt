-- ===== src/Strategies/BySource/Uncommitted.antt =====
-- A source that reports no rows, where no fingerprint is known: what is not committed.
use dbextractors.Base.{
  ◌≡◌, refl, sym, ap, ◌∙◌, Bool, true, false, ◌&&◌, not, Option, none, some, List, arith, Text,
  text_Eq, Bool-cases, Option-cases, inl, inr,
}
use dbextractors.Naming.Unicode.{Unicode}
use dbextractors.Dates.{Date}
use dbextractors.Partitioning.Catalog.{Relation, Catalogue}
use dbextractors.Reading.{Batch, Outcome}
use dbextractors.Target.Slices.{Slices, Store, cut_slice}
use dbextractors.Strategies.BySource.{
  SourceSettings, SourceFaults, Session, SourceEnd, ended, finish_source, session_of, can_skip,
  validate, resolve_partitioning,
}
use dbextractors.Strategies.BySource.Run.{
  no_rows, cut_target, empty_source, load, run_after, run_by_source,
}
use dbextractors.Strategies.Full.Ends.{either_branch}
use dbextractors.Target.Slices.{is_partitioned}
use dbextractors.Strategies.BySource.{finish_index, create_unique_pk_index}

module _ {Row : Type 0} (target : Text) (refuses : Catalogue → Relation → Bool) (u : Unicode)
    (digest : Text → Text) (fromisoformat : Text → Option Date) (settings : SourceSettings)
    (faults : SourceFaults) (db : Store Row) (t : Slices Row) where
  -- What is committed is what was there before the run.
  abbrev Unchanged : SourceEnd Row → Type 0
  Unchanged e = (session_of e).committed ≡ db

  abbrev NoIndex : Type 0
  NoIndex = (settings.is_last_source && (settings.pk_known && not t.partitioned)) ≡ false

  partitioned_index :
      (s : Session Row)
      → is_partitioned s.working ≡ true
      → s.committed ≡ db
      → (create_unique_pk_index faults s).1.committed ≡ db
  unfolding create_unique_pk_index
  partitioned_index s parts same = elim (Bool-cases faults.layout_fails) [
    | inl unknown ↦ ground arith
    | inr known ↦ elim (Bool-cases faults.index_fails) [
      | inl fails ↦ elim (Bool-cases faults.undo_fails) [
        | inl stuck ↦ ground arith
        | inr undone ↦ ground arith
      ]
      | inr made ↦ ground arith
    ]
  ]

  indexed_unchanged :
      (s : Session Row)
      → is_partitioned s.working ≡ t.partitioned
      → NoIndex
      → s.committed ≡ db
      → (finish_index settings faults s).1.committed ≡ db
  unfolding finish_index
  indexed_unchanged s shape no_index same =
      elim (Bool-cases (settings.is_last_source && settings.pk_known)) [
        | inr unwanted ↦ ground arith
        | inl wanted ↦
            let parts : t.partitioned ≡ true = ground arith in
            let kept = partitioned_index s (shape ∙ parts) same in ground arith
      ]

  ended-Unchanged :
      (raises : Bool) (s : Session Row) → s.committed ≡ db → Unchanged (ended no_rows (raises, s))
  ended-Unchanged true s same = same
  ended-Unchanged false s same = same

  end-Unchanged :
      (s : Session Row)
      → is_partitioned s.working ≡ t.partitioned
      → NoIndex
      → s.committed ≡ db
      → Unchanged (finish_source settings faults none no_rows s)
  unfolding finish_source
  end-Unchanged s shape no_index same =
      let index = finish_index settings faults s in
      ended-Unchanged index.0 index.1 (indexed_unchanged s shape no_index same)

  cut_shape :
      (db' : Store Row)
      → db.target ≡ some t
      → cut_target target refuses u digest fromisoformat settings faults db t ≡ some db'
      → is_partitioned db' ≡ t.partitioned
  cut_shape db' there e = elim (Option-cases settings.source_label) [
    | inl unlabelled ↦
        let same : db ≡ db' = ground arith in sym (ap is_partitioned same) ∙ ground (arith, there)
    | inr (label, labelled) ↦ elim (Bool-cases faults.cut_fails) [
      | inl bad ↦ absurd (ground arith)
      | inr good ↦
          elim (Option-cases
            (cut_slice target refuses u digest fromisoformat (some label) db.catalogue t)) [
              | inl bad ↦ absurd (ground arith)
              | inr ((cat, rows), cut) ↦
                  let new : Store Row = record db {
                    target = some (record t { rows = rows });
                    catalogue = cat;
                  } in
                  let is : new ≡ db' = ground arith in sym (ap is_partitioned is)
            ]
    ]
  ]

  abbrev fresh_session : Session Row
  fresh_session = record { working = db; committed = db }

  empty-Unchanged :
      (partitioned : Bool)
      → db.target ≡ some t
      → NoIndex
      → Unchanged (
          empty_source target refuses u digest fromisoformat settings faults none partitioned
            fresh_session)
  unfolding empty_source
  empty-Unchanged partitioned there no_index =
      elim (Option-cases (cut_target target refuses u digest fromisoformat settings faults db t)) [
        | inl bad ↦ ground arith
        | inr (db', good) ↦
            let s : Session Row = record { working = db'; committed = db } in
            let kept = end-Unchanged s (cut_shape db' there good) no_index refl in ground arith
      ]

  -- A run for a source that reports no rows, without a fingerprint, leaves what is committed as it
  -- was, where the target exists and the run does not make the index of an unpartitioned target:
  -- after it nothing is committed, and the connection is closed.
  pub run-uncommitted :
      (read : List (Batch Row) × Outcome)
      → db.target ≡ some t
      → (settings.is_last_source && (settings.pk_known && not t.partitioned)) ≡ false
      → (session_of (
          run_by_source target refuses u digest fromisoformat settings faults none 0 read
            db)).committed
        ≡ db
  unfolding run_by_source run_after can_skip load
  run-uncommitted read there no_index =
      either_branch Unchanged (not (validate settings)) _ _ (λ _. refl)
        (λ _.
          either_branch Unchanged faults.estimate_fails _ _ (λ _. refl)
            (λ _. empty-Unchanged (resolve_partitioning settings db) there no_index))
