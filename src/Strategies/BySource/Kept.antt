-- ===== src/Strategies/BySource/Kept.antt =====
-- The ends of a run: `_finish` changes no row, and what it commits.
use dbextractors.Base.{
  ◌≡◌, refl, sym, subst, Bool, true, false, ◌&&◌, Option, none, some, List, arith, Text, Bool-cases,
  Option-cases, inl, inr, ◌⊎◌,
}
use dbextractors.Target.Slices.{Labelled, Store, is_partitioned, write_fingerprint, put_fingerprint}
use dbextractors.Target.Slices.Cuts.{rows_of}
use dbextractors.Strategies.Full.Ends.{either_branch}
use dbextractors.Strategies.BySource.{
  SourceSettings, SourceFaults, Session, LoadResult, ended, raised, session_of, commit_session,
  rollback_session, set_indexed, can_skip, create_unique_pk_index, finish_index, finish_source,
}

module _ {Row : Type 0} where
  -- `P` holds of the rows and fingerprints that the connection sees and of those that it has
  -- committed.
  pub record Holds (P : List (Labelled Row) → List (Text × Text) → Type 0) (s : Session Row)
      : Type 0 where
    pub seen : P (rows_of s.working) s.working.fingerprints
    pub kept : P (rows_of s.committed) s.committed.fingerprints

  set_indexed-rows : (db : Store Row) → rows_of (set_indexed db) ≡ rows_of db
  set_indexed-rows db = elim (Option-cases db.target) [
    | inl missing ↦ ground arith
    | inr (t, there) ↦ ground arith
  ]

  set_indexed-fingerprints : (db : Store Row) → (set_indexed db).fingerprints ≡ db.fingerprints
  set_indexed-fingerprints db = elim (Option-cases db.target) [
    | inl missing ↦ ground arith
    | inr (t, there) ↦ ground arith
  ]

  -- The session once the fingerprint is written and committed.
  abbrev pub with_mark : Text → Text → Session Row → Session Row
  with_mark label mark s =
      let db = write_fingerprint label mark s.working in record { working = db; committed = db }

  abbrev pub marked : Option Text → Option Text → Session Row → Session Row
  marked none mark s = s
  marked (some label) none s = s
  marked (some label) (some mark) s = with_mark label mark s

  -- It raises where the fingerprint cannot be written, and otherwise ends as the index does.
  pub finish_cases :
      (settings : SourceSettings) (faults : SourceFaults) (mark : Option Text) (result : LoadResult)
      (s : Session Row)
      → (finish_source settings faults mark result s ≡ raised s)
        ⊎ (finish_source settings faults mark result s
            ≡ ended result (finish_index settings faults (marked settings.source_label mark s)))
  unfolding finish_source
  finish_cases settings faults none result s = elim (Option-cases settings.source_label) [
    | inl unlabelled ↦ inr (ground arith)
    | inr (label, labelled) ↦ inr (ground arith)
  ]
  finish_cases settings faults (some mark) result s = elim (Option-cases settings.source_label) [
    | inl unlabelled ↦ inr (ground arith)
    | inr (label, labelled) ↦ elim (Bool-cases faults.write_fails) [
      | inl fails ↦ inl (ground arith)
      | inr written ↦ inr (ground arith)
    ]
  ]

  -- It leaves the connection as it was, or undoes what is not committed.
  pub can_skip_session :
      (settings : SourceSettings) (faults : SourceFaults) (mark : Option Text) (s : Session Row)
      → ((can_skip settings faults mark s).1 ≡ s)
        ⊎ ((can_skip settings faults mark s).1 ≡ rollback_session s)
  unfolding can_skip
  can_skip_session settings faults none s = inl refl
  can_skip_session settings faults (some mark) s = elim (Option-cases settings.source_label) [
    | inl unlabelled ↦ inl (ground arith)
    | inr (label, labelled) ↦ elim (Bool-cases settings.force_reload) [
      | inl forced ↦ inl (ground arith)
      | inr unforced ↦ elim (Bool-cases faults.read_fails) [
        | inl failed ↦ inr (ground arith)
        | inr read ↦ inl (ground arith)
      ]
    ]
  ]

  module _ (P : List (Labelled Row) → List (Text × Text) → Type 0) where
    pub rollback-Holds : (s : Session Row) → Holds P s → Holds P (rollback_session s)
    rollback-Holds s h = record { seen = h.kept; kept = h.kept }

    commit-Holds : (s : Session Row) → Holds P s → Holds P (commit_session s)
    commit-Holds s h = record { seen = h.seen; kept = h.seen }

    indexed :
        (db : Store Row)
        → P (rows_of db) db.fingerprints
        → P (rows_of (set_indexed db)) (set_indexed db).fingerprints
    indexed db h =
        subst (λ rows. P rows (set_indexed db).fingerprints) (sym (set_indexed-rows db))
          (subst (λ marks. P (rows_of db) marks) (sym (set_indexed-fingerprints db)) h)

    abbrev Left : Bool × Session Row → Type 0
    Left (raises, s) = Holds P s

    create_unique_pk_index-Holds :
        (faults : SourceFaults) (s : Session Row)
        → Holds P s
        → Holds P (create_unique_pk_index faults s).1
    unfolding create_unique_pk_index
    create_unique_pk_index-Holds faults s h =
        either_branch Left faults.layout_fails _ _ (λ _. h)
          (λ _.
            either_branch Left (is_partitioned s.working) _ _
              (λ _.
                either_branch Left faults.index_fails _ _
                  (λ _. either_branch Left faults.undo_fails _ _ (λ _. h) (λ _. rollback-Holds s h))
                  (λ _. record { seen = indexed s.working h.seen; kept = h.kept }))
              (λ _.
                either_branch Left faults.index_fails _ _ (λ _. commit-Holds s h)
                  (λ _. record {
                    seen = indexed s.working h.seen;
                    kept = indexed s.working h.seen;
                  })))

    pub finish_index-Holds :
        (settings : SourceSettings) (faults : SourceFaults) (s : Session Row)
        → Holds P s
        → Holds P (finish_index settings faults s).1
    unfolding finish_index
    finish_index-Holds settings faults s h =
        either_branch Left (settings.is_last_source && settings.pk_known) _ _
          (λ _. create_unique_pk_index-Holds faults s h) (λ _. h)

    ended-Holds :
        (result : LoadResult) (raises : Bool) (s : Session Row)
        → Holds P s
        → Holds P (session_of (ended result (raises, s)))
    ended-Holds result true s h = h
    ended-Holds result false s h = h

    marked-Holds :
        (label mark : Option Text) (s : Session Row)
        → Holds P s
        → ((l m : Text)
            → label ≡ some l
            → mark ≡ some m
            → P (rows_of s.working) (put_fingerprint l m s.working.fingerprints))
        → Holds P (marked label mark s)
    marked-Holds none mark s h w = h
    marked-Holds (some label) none s h w = h
    marked-Holds (some label) (some mark) s h w = record {
      seen = w label mark refl refl;
      kept = w label mark refl refl;
    }

    pub finish-Holds :
        (settings : SourceSettings) (faults : SourceFaults) (mark : Option Text)
        (result : LoadResult) (s : Session Row)
        → Holds P s
        → ((l m : Text)
            → settings.source_label ≡ some l
            → mark ≡ some m
            → P (rows_of s.working) (put_fingerprint l m s.working.fingerprints))
        → Holds P (session_of (finish_source settings faults mark result s))
    finish-Holds settings faults mark result s h w =
        elim (finish_cases settings faults mark result s) [
          | inl e ↦ subst (λ x. Holds P (session_of x)) (sym e) h
          | inr e ↦
              let index = finish_index settings faults (marked settings.source_label mark s) in
              subst (λ x. Holds P (session_of x)) (sym e)
                (ended-Holds result index.0 index.1 (
                  finish_index-Holds settings faults (marked settings.source_label mark s)
                    (marked-Holds settings.source_label mark s h w)))
        ]

    pub can_skip-Holds :
        (settings : SourceSettings) (faults : SourceFaults) (mark : Option Text) (s : Session Row)
        → Holds P s
        → Holds P (can_skip settings faults mark s).1
    can_skip-Holds settings faults mark s h = elim (can_skip_session settings faults mark s) [
      | inl same ↦ subst (Holds P) (sym same) h
      | inr undone ↦ subst (Holds P) (sym undone) (rollback-Holds s h)
    ]
