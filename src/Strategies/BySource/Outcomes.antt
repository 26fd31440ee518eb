-- ===== src/Strategies/BySource/Outcomes.antt =====
-- A run for one source, by its ends.
use dbextractors.Base.{
  ◌≡◌, refl, sym, ap, subst, ◌∙◌, ℕ, Bool, true, not, Option, none, some, List, arith, Text,
  text_Eq, ◌==◌, nat_eq, nat_eq_iff, text_beq_iff, Bool-cases, Option-cases, inl, inr,
}
use dbextractors.Naming.Unicode.{Unicode}
use dbextractors.Dates.{Date}
use dbextractors.Partitioning.Catalog.{Relation, Catalogue}
use dbextractors.Reading.{Batch, Outcome, finished, failed}
use dbextractors.Strategies.Full.Ends.{either_branch}
use dbextractors.Target.Slices.{Store, stored_fingerprint, target_holds_source}
use dbextractors.Target.Slices.Cuts.{HasOwnPartition}
use dbextractors.Strategies.BySource.{
  SourceSettings, SourceFaults, Session, SourceEnd, returned, raised, Staged, nothing_staged, stage,
  rollback_session, can_skip, validate, resolve_partitioning,
}
use dbextractors.Strategies.BySource.Run.{
  skipped, swap_after, replace_slice, load, run_after, run_by_source,
}
use dbextractors.Strategies.BySource.Kept.{can_skip_session}
use dbextractors.Strategies.BySource.Ends.{IsStaged, stage-IsStaged}
use dbextractors.Strategies.BySource.Accounted.{Accounted, raised_kept, skipped_kept}
use dbextractors.Strategies.BySource.Swapped.{swap_slice-Ends}
use dbextractors.Strategies.BySource.Emptied.{empty_source-Ends}

module _ {Row : Type 0} (label : Text) (target : Text) (refuses : Catalogue → Relation → Bool)
    (u : Unicode) (digest : Text → Text) (fromisoformat : Text → Option Date)
    (settings : SourceSettings) (faults : SourceFaults) (mark : Option Text) (estimate : ℕ)
    (read : List (Batch Row) × Outcome) (db : Store Row) where
  abbrev Ends : SourceEnd Row → Type 0
  Ends e = Accounted label mark estimate read db e

  abbrev fresh_session : Session Row
  fresh_session = record { working = db; committed = db }

  abbrev Own : Type 0
  Own = HasOwnPartition target u digest fromisoformat label db.catalogue

  swap_after-Ends :
      (partitioned : Bool) (x : Option (Staged Row)) (outcome : Outcome)
      → settings.source_label ≡ some label
      → Own
      → read.1 ≡ outcome
      → ((staged : Staged Row) → x ≡ some staged → IsStaged label read.0 nothing_staged staged)
      → Ends (
          swap_after target refuses u digest fromisoformat settings faults mark partitioned outcome
            x fresh_session)
  swap_after-Ends partitioned none outcome labelled own end st =
      raised_kept (rollback_session fresh_session) (refl, refl)
  swap_after-Ends partitioned (some staged) (failed err) labelled own end st =
      raised_kept (rollback_session fresh_session) (refl, refl)
  swap_after-Ends partitioned (some staged) finished labelled own end st =
      swap_slice-Ends label target refuses u digest fromisoformat settings faults mark estimate read
        db partitioned staged labelled own end (st staged refl)

  load-Ends :
      settings.source_label ≡ some label
      → Own
      → Ends (
          load target refuses u digest fromisoformat settings faults mark estimate read
            fresh_session)
  unfolding load replace_slice
  load-Ends labelled own =
      let partitioned = resolve_partitioning settings db in
      either_branch Ends (nat_eq estimate 0) _ _
        (λ zero_rows.
          empty_source-Ends label target refuses u digest fromisoformat settings faults mark
            estimate read db partitioned labelled own ((nat_eq_iff estimate 0).0 zero_rows))
        (λ _.
          either_branch Ends faults.create_fails _ _ (λ _. raised_kept fresh_session (refl, refl))
            (λ _. swap_after-Ends partitioned _ read.1 labelled own refl (λ staged e.
              stage-IsStaged faults label 0 read.0 nothing_staged staged
                (subst (λ l. stage faults l 0 read.0 nothing_staged ≡ some staged) labelled e))))

  -- A skip has found the fingerprint and the slice.
  skip_cases :
      (m : Option Text)
      → settings.source_label ≡ some label
      → (can_skip settings faults m fresh_session).0 ≡ true
      → (f : Text) × ((m ≡ some f)
          × ((stored_fingerprint label db.fingerprints ≡ some f)
              × (target_holds_source label db ≡ true)))
  unfolding can_skip
  skip_cases none labelled h = absurd (ground arith)
  skip_cases (some f) labelled h = elim (Bool-cases settings.force_reload) [
    | inl forced ↦ absurd (ground arith)
    | inr unforced ↦ elim (Bool-cases faults.read_fails) [
      | inl unread ↦ absurd (ground arith)
      | inr was_read ↦ elim (Option-cases (stored_fingerprint label db.fingerprints)) [
        | inl nothing ↦ absurd (ground arith)
        | inr (old, stored) ↦ elim (Bool-cases (old == f)) [
          | inl same ↦ (f, (refl, (stored ∙ ap some ((text_beq_iff old f).0 same), ground arith)))
          | inr other ↦ absurd (ground arith)
        ]
      ]
    ]
  ]

  run_after-Ends :
      (x : Bool × Session Row)
      → settings.source_label ≡ some label
      → Own
      → x.1 ≡ fresh_session
      → (x.0 ≡ true → Ends (returned skipped fresh_session))
      → Ends (run_after target refuses u digest fromisoformat settings faults mark estimate read x)
  unfolding run_after
  run_after-Ends (skip, s) labelled own same k =
      either_branch Ends skip _ _ (λ h. subst (λ s. Ends (returned skipped s)) (sym same) (k h))
        (λ _.
          either_branch Ends faults.estimate_fails _ _
            (λ _. subst (λ s. Ends (raised s)) (sym same) (raised_kept fresh_session (refl, refl)))
            (λ _.
              subst
                (λ s.
                  Ends (
                    load target refuses u digest fromisoformat settings faults mark estimate read
                      s))
                (sym same) (load-Ends labelled own)))

  -- A run for one source, whatever fails, ends in one of these ways. It raises, and the source's rows
  -- and its fingerprint are as before; or, after the commit of the swap, they are the rows of all
  -- batches with the fingerprint as before. It returns without a load only where the fingerprint is
  -- the stored one and the target has rows of the source. It returns for a source that reports no
  -- rows, and its rows are gone, or, where no fingerprint is known, perhaps as before. Or it returns
  -- the number of the rows of the batches, which came to their end, and the source's rows are those,
  -- with the new fingerprint where there is one. A condition is that no table other than the source's
  -- own partition has its name.
  pub run-Accounted :
      settings.source_label ≡ some label
      → HasOwnPartition target u digest fromisoformat label db.catalogue
      → Accounted label mark estimate read db (
          run_by_source target refuses u digest fromisoformat settings faults mark estimate read db)
  unfolding run_by_source
  run-Accounted labelled own =
      let same : (can_skip settings faults mark fresh_session).1 ≡ fresh_session =
        elim (can_skip_session settings faults mark fresh_session) [ inl e ↦ e | inr e ↦ e ] in
      either_branch Ends (not (validate settings)) _ _ (λ _. raised_kept fresh_session (refl, refl))
        (λ _. run_after-Ends (can_skip settings faults mark fresh_session) labelled own same (λ h.
          let (f, (is, (stored, there))) = skip_cases mark labelled h in
          skipped_kept fresh_session f is stored there refl))
