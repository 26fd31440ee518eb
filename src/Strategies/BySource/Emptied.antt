-- ===== src/Strategies/BySource/Emptied.antt =====
-- The ends of a run for a source without rows.
use dbextractors.Base.{
  ◌≡◌, refl, sym, ap, subst, ◌∙◌, ℕ, Bool, Option, none, some, List, [], arith, Text, text_Eq,
  append-nil, Bool-cases, Option-cases, inl, inr, ◌⊎◌,
}
use dbextractors.Naming.Unicode.{Unicode}
use dbextractors.Dates.{Date}
use dbextractors.Partitioning.Catalog.{Relation, Catalogue}
use dbextractors.Reading.{Batch, Outcome}
use dbextractors.Target.Slices.{Labelled, Slices, Store, stored_fingerprint}
use dbextractors.Target.Slices.Cuts.{rows_of, slice, slice-others, HasOwnPartition}
use dbextractors.Strategies.BySource.{
  SourceSettings, SourceFaults, Session, SourceEnd, raised, finish_source,
}
use dbextractors.Strategies.BySource.Run.{no_rows, create_empty_target, cut_target, empty_source}
use dbextractors.Strategies.BySource.Kept.{Holds, marked}
use dbextractors.Strategies.BySource.Ends.{Has, HasStore, new_mark, finish_ends, stored-put}
use dbextractors.Strategies.BySource.Writes.{create_empty_target-Same, cut_target-IsWritten}
use dbextractors.Strategies.BySource.Accounted.{
  old_mark, own_rows, Accounted, raised_kept, raised_emptied, emptied,
}

module _ {Row : Type 0} (label : Text) (target : Text) (refuses : Catalogue → Relation → Bool)
    (u : Unicode) (digest : Text → Text) (fromisoformat : Text → Option Date)
    (settings : SourceSettings) (faults : SourceFaults) (mark : Option Text) (estimate : ℕ)
    (read : List (Batch Row) × Outcome) (db : Store Row) where
  abbrev Ends : SourceEnd Row → Type 0
  Ends e = Accounted label mark estimate read db e

  abbrev fresh_session : Session Row
  fresh_session = record { working = db; committed = db }

  abbrev Own : Type 0
  Own = HasOwnPartition target u digest fromisoformat label db.catalogue

  abbrev before_mark : Option Text
  before_mark = old_mark label mark estimate read db

  abbrev before_rows : List (Labelled Row)
  before_rows = own_rows label mark estimate read db

  abbrev empty_end : Bool → SourceEnd Row
  empty_end partitioned =
      empty_source target refuses u digest fromisoformat settings faults mark partitioned
        fresh_session

  abbrev created : Bool → Option (Store Row)
  created partitioned =
      create_empty_target target refuses u digest fromisoformat settings faults partitioned db

  creation :
      (partitioned : Bool)
      → db.target ≡ none
      → (empty_end partitioned ≡ raised fresh_session)
        ⊎ ((db' : Store Row) × ((created partitioned ≡ some db')
              × (empty_end partitioned
                  ≡ finish_source settings faults mark no_rows
                      (record { working = db'; committed = db' }))))
  unfolding empty_source
  creation partitioned missing = elim (Bool-cases settings.empty_rows_ok) [
    | inr unwanted ↦ inl (ground arith)
    | inl wanted ↦ elim (Option-cases (created partitioned)) [
      | inl bad ↦ inl (ground arith)
      | inr (db', good) ↦ inr (db', (good, ground arith))
    ]
  ]

  abbrev cut : Slices Row → Option (Store Row)
  cut t = cut_target target refuses u digest fromisoformat settings faults db t

  removal :
      (partitioned : Bool) (t : Slices Row)
      → db.target ≡ some t
      → (empty_end partitioned ≡ raised fresh_session)
        ⊎ ((db' : Store Row) × ((cut t ≡ some db')
              × (empty_end partitioned
                  ≡ finish_source settings faults mark no_rows
                      (record { working = db'; committed = db }))))
  unfolding empty_source
  removal partitioned t there = elim (Option-cases (cut t)) [
    | inl bad ↦ inl (ground arith)
    | inr (db', good) ↦ inr (db', (good, ground arith))
  ]

  -- What is committed of an emptied slice depends on whether a fingerprint is written.
  abbrev Emptied : List (Labelled Row) → List (Text × Text) → Type 0
  Emptied rows marks =
      ((mark ≡ none) × Has label before_rows before_mark rows marks)
      ⊎ Has label [] (new_mark mark before_mark) rows marks

  marked_empty :
      (m : Option Text) (db' : Store Row)
      → m ≡ mark
      → HasStore label [] before_mark db'
      → Holds Emptied (marked (some label) m (record { working = db'; committed = db }))
  marked_empty none db' same has = record {
    seen = inr (subst (λ x. HasStore label [] (new_mark x before_mark) db') same has);
    kept = inl (sym same, (refl, refl));
  }
  marked_empty (some m) db' same has =
      let put = stored-put label m db'.fingerprints in
      let is : new_mark (some m) before_mark ≡ new_mark mark before_mark =
        ap (λ x. new_mark x before_mark) same in
      record { seen = inr (has.0, put ∙ is); kept = inr (has.0, put ∙ is) }

  marked_new :
      (m : Option Text) (db' : Store Row)
      → m ≡ mark
      → HasStore label [] before_mark db'
      → Holds Emptied (marked (some label) m (record { working = db'; committed = db' }))
  marked_new none db' same has =
      let has' : HasStore label [] (new_mark mark before_mark) db' =
        subst (λ x. HasStore label [] (new_mark x before_mark) db') same has in
      record { seen = inr has'; kept = inr has' }
  marked_new (some m) db' same has =
      let put = stored-put label m db'.fingerprints in
      let is : new_mark (some m) before_mark ≡ new_mark mark before_mark =
        ap (λ x. new_mark x before_mark) same in
      record { seen = inr (has.0, put ∙ is); kept = inr (has.0, put ∙ is) }

  finished_empty :
      (s : Session Row)
      → settings.source_label ≡ some label
      → estimate ≡ 0
      → HasStore label before_rows before_mark s.committed
      → Holds Emptied (marked (some label) mark s)
      → Ends (finish_source settings faults mark no_rows s)
  finished_empty s labelled zero_rows kept h =
      elim (finish_ends label settings faults mark no_rows s Emptied labelled h) [
        | inl e ↦ subst Ends (sym e) (raised_kept s kept)
        | inr (s', (inl e, left)) ↦ subst Ends (sym e) (emptied s' zero_rows left.kept)
        | inr (s', (inr e, left)) ↦ subst Ends (sym e) (elim left.kept [
          | inl (unknown, same) ↦ raised_kept s' same
          | inr gone ↦ raised_emptied s' zero_rows gone
        ])
      ]

  pub empty_source-Ends :
      (partitioned : Bool)
      → settings.source_label ≡ some label
      → Own
      → estimate ≡ 0
      → Ends (empty_end partitioned)
  empty_source-Ends partitioned labelled own zero_rows = elim (Option-cases db.target) [
    | inl missing ↦ elim (creation partitioned missing) [
      | inl e ↦ subst Ends (sym e) (raised_kept fresh_session (refl, refl))
      | inr (db', (made, e)) ↦
          let (rows, marks) =
            create_empty_target-Same target refuses u digest fromisoformat settings faults
              partitioned db db' made in
          let nothing : rows_of db ≡ [] = ground (arith, missing) in
          let none_before : before_rows ≡ [] = ap (slice label) nothing in
          let s : Session Row = record { working = db'; committed = db' } in
          let has : HasStore label [] before_mark db' =
            (ap (slice label) (rows ∙ nothing), ap (stored_fingerprint label) marks) in
          let same : HasStore label before_rows before_mark db' =
            subst (λ l. HasStore label l before_mark db') (sym none_before) has in
          subst Ends (sym e)
            (finished_empty s labelled zero_rows same (marked_new mark db' refl has))
    ]
    | inr (t, there) ↦ elim (removal partitioned t there) [
      | inl e ↦ subst Ends (sym e) (raised_kept fresh_session (refl, refl))
      | inr (db', (made, e)) ↦
          let (rows, marks) =
            cut_target-IsWritten target refuses u digest fromisoformat label settings faults db db'
              t labelled own there made in
          let has : HasStore label [] before_mark db' = (
            ap (slice label) (rows ∙ append-nil _) ∙ slice-others label (rows_of db),
            ap (stored_fingerprint label) marks,
          ) in
          subst Ends (sym e) (
            finished_empty (record { working = db'; committed = db }) labelled zero_rows
              (refl, refl) (marked_empty mark db' refl has))
    ]
  ]
