-- ===== src/Entrypoint/Statuses.antt =====
-- What a run over the selected databases reports.
use dbextractors.Base.{
  ◌≡◌, refl, Bool, true, false, inl, inr, Option, List, [], ◌∷◌, arith, Text, is_empty, keep,
  length, ltb, or_else, All, Bool-cases,
}
use dbextractors.Strategies.Full.Ends.{either_branch}
use dbextractors.Entrypoint.{
  SourceStatus, RunReport, reported, extraction_failed, label_of, has_failed, run_databases,
  run_selected,
}

module _ {S : Type 0} (run_one : Option Text → Text → Bool → Bool → S → Bool × S) where
  -- The runs of the databases, one after the other: each begins with the state that the one before
  -- it left, whether or not that failed, and its status says whether it ended without an exception.
  pub data Ran (multi : Bool) : Bool → List Text → S → List SourceStatus → S → Type 0 where
    no_more : (first : Bool) (st : S) → Ran multi first [] st [] st
    one_more :
        (first success : Bool) (database : Text) (databases : List Text) (st st' st'' : S)
        (statuses : List SourceStatus)
        → run_one (label_of multi database) database first (is_empty databases) st ≡ (success, st')
        → Ran multi false databases st' statuses st''
        → Ran multi first
            (database ∷ databases)
            st
            (record { source = label_of multi database; success = success } ∷ statuses)
            st''

  pub run_databases-Ran :
      (multi first : Bool) (databases : List Text) (st : S)
      → Ran multi first databases st
          (run_databases run_one multi first databases st).0
          (run_databases run_one multi first databases st).1
  unfolding run_databases
  run_databases-Ran multi first [] st = no_more first st
  run_databases-Ran multi first (database ∷ databases) st =
      let one = run_one (label_of multi database) database first (is_empty databases) st in
      one_more first one.0 database databases st one.1 _ _ refl
        (run_databases-Ran multi false databases one.1)

  all_good :
      (statuses : List SourceStatus)
      → is_empty (keep has_failed statuses) ≡ true
      → All (λ (s : SourceStatus). s.success ≡ true) statuses
  all_good [] h = tt
  all_good (s ∷ statuses) h = elim (Bool-cases s.success) [
    | inl good ↦ (good, all_good statuses (ground arith))
    | inr bad ↦ absurd (ground arith)
  ]

  -- The two reports of a run over selected databases.
  pub data Reported (multi : Bool) (databases : List Text) (st : S) : RunReport S → Type 0 where
    succeeded :
        (statuses : List SourceStatus) (st' : S)
        → Ran multi true databases st statuses st'
        → All (λ (s : SourceStatus). s.success ≡ true) statuses
        → Reported multi databases st (reported statuses st')
    raised_for :
        (statuses : List SourceStatus) (st' : S)
        → Ran multi true databases st statuses st'
        → is_empty (keep has_failed statuses) ≡ false
        → Reported multi databases st (extraction_failed (keep has_failed statuses) st')

  -- Every selected database has its run, in order, on the state that the runs before it left, whether
  -- or not they failed, and its status tells how that run ended. The run as a whole reports success
  -- exactly if each of them succeeded, and else raises with those that failed.
  pub run_selected-Reported :
      (multi_source : Option Bool) (databases : List Text) (st : S)
      → Reported
          (or_else multi_source (ltb 1 (length databases)))
          databases
          st
          (run_selected run_one multi_source databases st)
  unfolding run_selected
  run_selected-Reported multi_source databases st =
      let multi = or_else multi_source (ltb 1 (length databases)) in
      let done = run_databases run_one multi true databases st in
      let ran = run_databases-Ran multi true databases st in
      either_branch (Reported multi databases st) (is_empty (keep has_failed done.0)) _ _
        (λ good. succeeded done.0 done.1 ran (all_good done.0 good))
        (λ bad. raised_for done.0 done.1 ran bad)
