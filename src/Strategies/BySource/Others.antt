-- ===== src/Strategies/BySource/Others.antt =====
-- The rows of the other sources, through the writes of a run.
use dbextractors.Base.{
  ◌≡◌, refl, ap, subst, ◌∙◌, ℕ, suc, not, some, List, [], ◌∷◌, ◌++◌, arith, append-nil, Text,
  keep-append, map, Bool-cases, inl, inr, beq_refl,
}
use dbextractors.Reading.{Batch}
use dbextractors.Target.Slices.{Labelled, Store, names_source}
use dbextractors.Target.Slices.Cuts.{rows_of, others, others_again}
use dbextractors.Strategies.BySource.{SourceFaults, Staged, label_row, with_batch, stage}
use dbextractors.Strategies.BySource.Writes.{IsWritten}

module _ {Row : Type 0} (label : Text) where
  others_labelled : (batch : List Row) → others label (map (label_row (some label)) batch) ≡ []
  others_labelled [] = refl
  others_labelled (r ∷ batch) = rw (beq_refl label) (others_labelled batch)

  pub others_staged :
      (faults : SourceFaults) (n : ℕ) (batches : List (Batch Row)) (s s' : Staged Row)
      → others label s.rows ≡ []
      → stage faults (some label) n batches s ≡ some s'
      → others label s'.rows ≡ []
  unfolding stage
  others_staged faults n [] s s' h e =
      let same : s ≡ s' = ground arith in subst (λ x. others label x.rows ≡ []) same h
  others_staged faults n (batch ∷ batches) s s' h e = elim (Bool-cases (faults.batch_fails n)) [
    | inl bad ↦ absurd (ground arith)
    | inr good ↦
        let more = map (label_row (some label)) batch.rows in
        others_staged faults (suc n) batches (with_batch (some label) batch s) s'
          (keep-append (λ row. not (names_source label row.source)) s.rows more
            ∙ rw (h, others_labelled batch.rows) refl)
          (ground arith)
  ]

module _ {Row : Type 0} (label : Text) (before : List (Labelled Row)) where
  -- The rows of the other sources are those before.
  abbrev pub AsBefore : List (Labelled Row) → Type 0
  AsBefore rows = others label rows ≡ others label before

  pub IsWritten-AsBefore :
      (staged : List (Labelled Row)) (db db' : Store Row)
      → IsWritten label staged db db'
      → others label staged ≡ []
      → AsBefore (rows_of db)
      → AsBefore (rows_of db')
  IsWritten-AsBefore staged db db' (rows, _) ours h =
      ap (others label) rows
      ∙ keep-append (λ row. not (names_source label row.source)) (others label (rows_of db)) staged
      ∙ ap (λ l. others label (others label (rows_of db)) ++ l) ours
      ∙ append-nil _
      ∙ others_again label (rows_of db)
      ∙ h
