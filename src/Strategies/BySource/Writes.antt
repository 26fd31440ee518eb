-- ===== src/Strategies/BySource/Writes.antt =====
-- What the writes of a run for one source leave.
use dbextractors.Base.{
  ◌≡◌, refl, sym, ap, subst, ◌∙◌, ℕ, Bool, true, false, Option, none, some, List, [], ◌++◌, arith,
  append-nil, Text, length, Bool-cases, Option-cases, inl, inr,
}
use dbextractors.Naming.Unicode.{Unicode}
use dbextractors.Dates.{Date}
use dbextractors.Partitioning.Catalog.{Relation, Catalogue}
use dbextractors.Target.Slices.{
  Labelled, Slices, Store, from_outcome, ensure_partition, cut_slice, replace_source_slice,
}
use dbextractors.Target.Slices.Cuts.{
  rows_of, others, replace_source_slice-IsReplaced, HasOwnPartition, cut_slice-delete,
}
use dbextractors.Strategies.BySource.{SourceSettings, SourceFaults, prepare_target}
use dbextractors.Strategies.BySource.Run.{create_empty_target, cut_target, with_partition}

module _ {Row : Type 0} where
  -- The rows and the fingerprints are the same.
  abbrev pub Same : Store Row → Store Row → Type 0
  Same db db' = (rows_of db' ≡ rows_of db) × (db'.fingerprints ≡ db.fingerprints)

  pub prepare_target-Same :
      (partitioned : Bool) (db : Store Row) → Same db (prepare_target partitioned db)
  unfolding prepare_target
  prepare_target-Same partitioned db = elim (Option-cases db.target) [
    | inl missing ↦ (ground arith, ground arith)
    | inr (t, there) ↦ (ground arith, ground arith)
  ]

  pub prepare_target-catalogue :
      (partitioned : Bool) (db : Store Row)
      → (prepare_target partitioned db).catalogue ≡ db.catalogue
  unfolding prepare_target
  prepare_target-catalogue partitioned db = elim (Option-cases db.target) [
    | inl missing ↦ ground arith
    | inr (t, there) ↦ ground arith
  ]

module _ {Row : Type 0} (label : Text) where
  -- The rows of the source are gone from `db`, and `staged` stand there.
  abbrev pub IsWritten : List (Labelled Row) → Store Row → Store Row → Type 0
  IsWritten staged db db' =
      (rows_of db' ≡ others label (rows_of db) ++ staged) × (db'.fingerprints ≡ db.fingerprints)

module _ {Row : Type 0} (target : Text) (refuses : Catalogue → Relation → Bool) (u : Unicode)
    (digest : Text → Text) (fromisoformat : Text → Option Date) where
  with_partition-Same :
      (given : Option Text) (db db' : Store Row)
      → with_partition target refuses u digest fromisoformat given db ≡ some db'
      → Same db db'
  with_partition-Same none db db' e =
      let is : db ≡ db' = ground arith in subst (Same db) is (refl, refl)
  with_partition-Same (some l) db db' e =
      elim (Option-cases
        (from_outcome (ensure_partition target refuses u digest fromisoformat db.catalogue l))) [
          | inl bad ↦ absurd (ground arith)
          | inr (made, good) ↦
              let is : record db { catalogue = made.0 } ≡ db' = ground arith in
              subst (Same db) is (refl, refl)
        ]

  pub create_empty_target-Same :
      (settings : SourceSettings) (faults : SourceFaults) (partitioned : Bool) (db db' : Store Row)
      → create_empty_target target refuses u digest fromisoformat settings faults partitioned db
        ≡ some db'
      → Same db db'
  unfolding create_empty_target
  create_empty_target-Same settings faults partitioned db db' e =
      elim (Bool-cases faults.create_fails) [
        | inl bad ↦ absurd (ground arith)
        | inr good ↦ elim (Bool-cases partitioned) [
          | inl parts ↦
              let (rows, marks) =
                with_partition-Same settings.source_label (prepare_target true db) db'
                  (ground arith) in
              let (rows', marks') = prepare_target-Same true db in (rows ∙ rows', marks ∙ marks')
          | inr plain ↦
              let is : prepare_target false db ≡ db' = ground arith in
              subst (Same db) is (prepare_target-Same false db)
        ]
      ]

  module _ (label : Text) where
    pub replaced-IsWritten :
        (fails partitioned : Bool) (staged : List (Labelled Row)) (db db' : Store Row) (n : ℕ)
        → HasOwnPartition target u digest fromisoformat label db.catalogue
        → replace_source_slice target refuses u digest fromisoformat fails
            (some label)
            staged
            (prepare_target partitioned db)
          ≡ some (db', n)
        → IsWritten label staged db db' × (n ≡ length staged)
    replaced-IsWritten fails partitioned staged db db' n own e =
        let prepared = prepare_target partitioned db in
        let r =
          replace_source_slice-IsReplaced target refuses u digest fromisoformat fails (some label)
            staged prepared db' n e in
        let own' : HasOwnPartition target u digest fromisoformat label prepared.catalogue =
          subst (HasOwnPartition target u digest fromisoformat label)
            (sym (prepare_target-catalogue partitioned db)) own in
        let gone : r.rows ≡ others label r.table.rows =
          cut_slice-delete target refuses u digest fromisoformat label prepared.catalogue
            db'.catalogue r.table r.rows own' r.cut in
        let (rows, marks) = prepare_target-Same partitioned db in
        let before_are : rows_of prepared ≡ r.table.rows = ground (arith, r.there) in
        let after_are : rows_of db' ≡ r.rows ++ staged = ground (arith, r.target_is) in
        (
          (
            after_are ∙ ap (λ l. l ++ staged) (gone ∙ ap (others label) (sym before_are ∙ rows)),
            r.marks_are ∙ marks,
          ),
          r.count,
        )

    pub cut_target-IsWritten :
        (settings : SourceSettings) (faults : SourceFaults) (db db' : Store Row) (t : Slices Row)
        → settings.source_label ≡ some label
        → HasOwnPartition target u digest fromisoformat label db.catalogue
        → db.target ≡ some t
        → cut_target target refuses u digest fromisoformat settings faults db t ≡ some db'
        → IsWritten label [] db db'
    cut_target-IsWritten settings faults db db' t labelled own there e =
        elim (Bool-cases faults.cut_fails) [
          | inl bad ↦ absurd (ground arith)
          | inr good ↦
              elim (Option-cases
                (cut_slice target refuses u digest fromisoformat (some label) db.catalogue t)) [
                  | inl bad ↦ absurd (ground arith)
                  | inr ((cat, rows), cut) ↦
                      let new : Store Row = record db {
                        target = some (record t { rows = rows });
                        catalogue = cat;
                      } in
                      let is : new ≡ db' = ground arith in
                      let gone : rows ≡ others label t.rows =
                        cut_slice-delete target refuses u digest fromisoformat label db.catalogue
                          cat t rows own cut in
                      let before_are : rows_of db ≡ t.rows = ground (arith, there) in
                      subst (IsWritten label [] db) is
                        (gone ∙ ap (others label) (sym before_are) ∙ sym (append-nil _), refl)
                ]
        ]
