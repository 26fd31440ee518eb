-- ===== src/Entrypoint/Sources.antt =====
-- A full load by source over several databases.
use dbextractors.Base.{
  ◌≡◌, refl, sym, ap, subst, ◌∙◌, ℕ, Bool, true, false, Option, none, some, List, [], ◌∷◌, arith,
  Text, text_Eq, text_beq_iff, ◌==◌, contains, NodupList, All, is_empty, if◌then◌else◌, Bool-cases,
  inl, inr,
}
use dbextractors.Naming.Unicode.{Unicode}
use dbextractors.Dates.{Date}
use dbextractors.Partitioning.Catalog.{Relation, Catalogue}
use dbextractors.Reading.{Batch, Outcome}
use dbextractors.Target.Slices.{Labelled, Store, names_source}
use dbextractors.Target.Slices.Cuts.{rows_of, slice, others, HasOwnPartition}
use dbextractors.Strategies.BySource.{
  SourceSettings, SourceFaults, SourceEnd, returned, raised, session_of,
}
use dbextractors.Strategies.BySource.Run.{run_by_source}
use dbextractors.Strategies.BySource.Safety.{run-others}
use dbextractors.Entrypoint.{run_databases}

-- What the run of one database meets.
pub record SourceInput (Row : Type 0) : Type 0 where
  pub faults : SourceFaults
  pub mark : Option Text
  pub estimate : ℕ
  pub read : List (Batch Row) × Outcome

abbrev succeeded : {Row : Type 0} → SourceEnd Row → Bool
succeeded (returned result s) = true
succeeded (raised s) = false

module _ {Row : Type 0} where
  slice-others_of :
      (label source : Text) (rows : List (Labelled Row))
      → (source == label) ≡ false
      → slice label (others source rows) ≡ slice label rows
  slice-others_of label source [] h = refl
  slice-others_of label source (r ∷ rows) h = elim (Bool-cases (names_source source r.source)) [
    | inl its ↦
        let never = named_once label source r.source its h in
        ground (arith, slice-others_of label source rows h)
    | inr not_its ↦ ground (arith, slice-others_of label source rows h)
  ]
    where
      named_once :
          (label source : Text) (s : Option Text)
          → names_source source s ≡ true
          → (source == label) ≡ false
          → names_source label s ≡ false
      named_once label source none h k = refl
      named_once label source (some t) h k = let is = (text_beq_iff t source).0 h in rw is k

module _ {Row : Type 0} (target : Text) (refuses : Catalogue → Relation → Bool) (u : Unicode)
    (digest : Text → Text) (fromisoformat : Text → Option Date) (settings : SourceSettings)
    (input : Text → SourceInput Row) where
  -- `_run_one` with this strategy: the connection is closed after the run.
  abbrev pub run_source : Option Text → Text → Bool → Bool → Store Row → Bool × Store Row
  run_source label database first last db =
      let e =
        run_by_source target refuses u digest fromisoformat
          (record settings { source_label = label; is_last_source = last }) (input database).faults
          (input database).mark (input database).estimate (input database).read db in
      (succeeded e, (session_of e).committed)

  abbrev after_one : Text → Bool → Bool → Store Row → Store Row
  after_one database first last db = (run_source (some database) database first last db).1

  -- The databases with the stores that their runs begin with.
  abbrev pub beginnings : Bool → List Text → Store Row → List (Text × Store Row)
  beginnings first [] db = []
  beginnings first (database ∷ databases) db =
      (database, db) ∷ beginnings false databases (after_one database first (is_empty databases) db)

  -- The store that the database's own run leaves, or the one without it.
  abbrev pub own_end : Text → Bool → List Text → Store Row → Store Row
  own_end label first [] db = db
  own_end label first (database ∷ databases) db =
      let after = after_one database first (is_empty databases) db in
      let rest = own_end label false databases after in if database == label then after else rest

  abbrev pub HasOwn : Text × Store Row → Type 0
  HasOwn (label, db) = HasOwnPartition target u digest fromisoformat label db.catalogue

  slice_kept :
      (label database : Text) (first last : Bool) (db : Store Row)
      → (database == label) ≡ false
      → HasOwnPartition target u digest fromisoformat database db.catalogue
      → slice label (rows_of (after_one database first last db)) ≡ slice label (rows_of db)
  slice_kept label database first last db other own =
      let kept =
        run-others target refuses u digest fromisoformat
          (record settings { source_label = some database; is_last_source = last })
          (input database).faults (input database).mark (input database).estimate
          (input database).read database db refl own in
      sym (slice-others_of label database (rows_of (after_one database first last db)) other)
      ∙ ap (slice label) kept
      ∙ slice-others_of label database (rows_of db) other

  all_kept :
      (label : Text) (first : Bool) (databases : List Text) (db : Store Row)
      → contains label databases ≡ false
      → All HasOwn (beginnings first databases db)
      → slice label (rows_of (run_databases run_source true first databases db).1)
        ≡ slice label (rows_of db)
  unfolding run_databases
  all_kept label first [] db h own = refl
  all_kept label first (database ∷ databases) db h (own, owns) =
      all_kept label false databases (after_one database first (is_empty databases) db)
        (ground arith) owns
      ∙ slice_kept label database first (is_empty databases) db (ground arith) own

  -- After the loop over several databases with different names, whatever fails, the target has of each
  -- source exactly the rows that this source's own run has left, if at the start of every run no
  -- table other than the source's own partition has its name.
  pub run_sources_slice :
      (label : Text) (first : Bool) (databases : List Text) (db : Store Row)
      → NodupList databases
      → All HasOwn (beginnings first databases db)
      → slice label (rows_of (run_databases run_source true first databases db).1)
        ≡ slice label (rows_of (own_end label first databases db))
  unfolding run_databases
  run_sources_slice label first [] db once owns = refl
  run_sources_slice label first (database ∷ databases) db (fresh, once) (own, owns) =
      let after = after_one database first (is_empty databases) db in
      elim (Bool-cases (database == label)) [
        | inl same ↦
            let is = (text_beq_iff database label).0 same in
            let gone : contains label databases ≡ false =
              subst (λ l. contains l databases ≡ false) is fresh in
            all_kept label false databases after gone owns
            ∙ ap (λ s. slice label (rows_of s)) (sym (taken label database first databases db same))
        | inr other ↦
            run_sources_slice label false databases after once owns
            ∙ ap (λ s. slice label (rows_of s))
                (sym (passed label database first databases db other))
      ]
    where
      taken :
          (label database : Text) (first : Bool) (databases : List Text) (db : Store Row)
          → (database == label) ≡ true
          → own_end label first (database ∷ databases) db
            ≡ after_one database first (is_empty databases) db
      taken label database first databases db h = rw h refl

      passed :
          (label database : Text) (first : Bool) (databases : List Text) (db : Store Row)
          → (database == label) ≡ false
          → own_end label first (database ∷ databases) db
            ≡ own_end label false databases (after_one database first (is_empty databases) db)
      passed label database first databases db h = rw h refl
