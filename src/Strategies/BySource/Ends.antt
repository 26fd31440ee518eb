-- ===== src/Strategies/BySource/Ends.antt =====
-- The ends that a run for one source can have.
use dbextractors.Base.{
  Bool, true, false, ◌≡◌, refl, sym, ap, subst, ◌∙◌, ℕ, suc, ◌+◌, Option, none, some, List, [], ◌∷◌,
  ◌++◌, arith, text_Eq, append-nil, append_assoc, Text, length, length-append, map, Bool-cases, inl,
  inr, ◌⊎◌, beq_refl,
}
use dbextractors.Reading.{Batch}
use dbextractors.Strategies.Full.Fill.{row_count}
use dbextractors.Target.Slices.{Labelled, Store, stored_fingerprint, put_fingerprint}
use dbextractors.Target.Slices.Cuts.{rows_of, slice}
use dbextractors.Strategies.BySource.{
  SourceSettings, SourceFaults, Session, LoadResult, ended, returned, raised, Staged, label_row,
  with_batch, stage, finish_source, finish_index,
}
use dbextractors.Strategies.BySource.Kept.{Holds, marked, finish_cases, finish_index-Holds}

pub stored-put :
    (label mark : Text) (marks : List (Text × Text))
    → stored_fingerprint label (put_fingerprint label mark marks) ≡ some mark
unfolding stored_fingerprint put_fingerprint
stored-put label mark [] = rw (beq_refl label) refl
stored-put label mark ((name, old) ∷ marks) =
    ground (arith, stored-put label mark marks, beq_refl label)

module _ {Row : Type 0} where
  abbrev pub batch_rows : List (Batch Row) → List Row
  batch_rows [] = []
  batch_rows (batch ∷ batches) = batch.rows ++ batch_rows batches

  abbrev pub labelled_rows : Text → List (Batch Row) → List (Labelled Row)
  labelled_rows label batches = map (label_row (some label)) (batch_rows batches)

  map-append :
      (label : Text) (xs ys : List Row)
      → map (label_row (some label)) (xs ++ ys)
        ≡ map (label_row (some label)) xs ++ map (label_row (some label)) ys
  map-append label [] ys = refl
  map-append label (x ∷ xs) ys = ap (λ l. label_row (some label) x ∷ l) (map-append label xs ys)

  pub slice_labelled :
      (label : Text) (rows : List Row)
      → slice label (map (label_row (some label)) rows) ≡ map (label_row (some label)) rows
  slice_labelled label [] = refl
  slice_labelled label (r ∷ rows) =
      rw (beq_refl label) (ap (λ l. label_row (some label) r ∷ l) (slice_labelled label rows))

  -- What is staged, and how many rows were read, once no batch has failed.
  pub record IsStaged (label : Text) (batches : List (Batch Row)) (s s' : Staged Row) : Type 0 where
    pub rows_are : s'.rows ≡ s.rows ++ labelled_rows label batches
    pub read_are : s'.rows_read ≡ s.rows_read + row_count batches

  pub stage-IsStaged :
      (faults : SourceFaults) (label : Text) (n : ℕ) (batches : List (Batch Row))
      (s s' : Staged Row)
      → stage faults (some label) n batches s ≡ some s'
      → IsStaged label batches s s'
  unfolding stage
  stage-IsStaged faults label n [] s s' e =
      let same : s ≡ s' = ground arith in
      subst (λ x. IsStaged label [] s x) same
        record { rows_are = sym (append-nil s.rows); read_are = omega arith }
  stage-IsStaged faults label n (batch ∷ batches) s s' e =
      elim (Bool-cases (faults.batch_fails n)) [
        | inl bad ↦ absurd (ground arith)
        | inr good ↦
            let f =
              stage-IsStaged faults label (suc n) batches (with_batch (some label) batch s) s'
                (ground arith) in
            record {
              rows_are =
                  f.rows_are
                  ∙ append_assoc s.rows (map (label_row (some label)) batch.rows)
                      (labelled_rows label batches)
                  ∙ ap (λ l. s.rows ++ l) (sym (map-append label batch.rows (batch_rows batches)));
              read_are = omega (arith, f.read_are);
            }
      ]

  length-labelled :
      (label : Text) (rows : List Row) → length (map (label_row (some label)) rows) ≡ length rows
  length-labelled label [] = refl
  length-labelled label (r ∷ rows) = ap suc (length-labelled label rows)

  pub labelled_rows-length :
      (label : Text) (batches : List (Batch Row))
      → length (labelled_rows label batches) ≡ row_count batches
  labelled_rows-length label [] = refl
  labelled_rows-length label (batch ∷ batches) =
      ap length (map-append label batch.rows (batch_rows batches))
      ∙ length-append (map (label_row (some label)) batch.rows) (labelled_rows label batches)
      ∙ omega (arith, length-labelled label batch.rows, labelled_rows-length label batches)

abbrev pub new_mark : Option Text → Option Text → Option Text
new_mark none old = old
new_mark (some mark) old = some mark

module _ {Row : Type 0} (label : Text) where
  -- The source's rows and its fingerprint.
  abbrev pub Has :
      List (Labelled Row) → Option Text → List (Labelled Row) → List (Text × Text) → Type 0
  Has own mark rows marks = (slice label rows ≡ own) × (stored_fingerprint label marks ≡ mark)

  abbrev pub HasStore : List (Labelled Row) → Option Text → Store Row → Type 0
  HasStore own mark db = Has own mark (rows_of db) db.fingerprints

  ended_cases :
      (result : LoadResult) (raises : Bool) (s : Session Row)
      → (ended result (raises, s) ≡ returned result s) ⊎ (ended result (raises, s) ≡ raised s)
  ended_cases result true s = inr refl
  ended_cases result false s = inl refl

  -- An end after the fingerprint is written has what the session has once the fingerprint is written.
  pub finish_ends :
      (settings : SourceSettings) (faults : SourceFaults) (mark : Option Text) (result : LoadResult)
      (s : Session Row) (Q : List (Labelled Row) → List (Text × Text) → Type 0)
      → settings.source_label ≡ some label
      → Holds Q (marked (some label) mark s)
      → (finish_source settings faults mark result s ≡ raised s)
        ⊎ ((s' : Session Row) × (((finish_source settings faults mark result s ≡ returned result s')
                ⊎ (finish_source settings faults mark result s ≡ raised s'))
              × Holds Q s'))
  finish_ends settings faults mark result s Q labelled h =
      elim (finish_cases settings faults mark result s) [
        | inl e ↦ inl e
        | inr e ↦
            let given : Holds Q (marked settings.source_label mark s) =
              subst (λ l. Holds Q (marked l mark s)) (sym labelled) h in
            let index = finish_index settings faults (marked settings.source_label mark s) in
            inr (
              index.1,
              (
                elim (ended_cases result index.0 index.1) [
                  | inl good ↦ inl (e ∙ good)
                  | inr bad ↦ inr (e ∙ bad)
                ],
                finish_index-Holds Q settings faults (marked settings.source_label mark s) given,
              ),
            )
      ]

  pub marked_with :
      (mark : Option Text) (s : Session Row) (own : List (Labelled Row)) (old : Option Text)
      → Holds (Has own old) s
      → Holds (Has own (new_mark mark old)) (marked (some label) mark s)
  marked_with none s own old h = h
  marked_with (some m) s own old h =
      let put = stored-put label m s.working.fingerprints in
      record { seen = (h.seen.0, put); kept = (h.seen.0, put) }
