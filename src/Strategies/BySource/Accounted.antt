-- ===== src/Strategies/BySource/Accounted.antt =====
-- The ends that a run for one source can have, by what they leave.
use dbextractors.Base.{◌≡◌, ℕ, true, false, Option, none, some, List, [], Text, text_Eq, ltb, ◌⊎◌}
use dbextractors.Reading.{Batch, Outcome, finished}
use dbextractors.Strategies.Full.Fill.{row_count}
use dbextractors.Target.Slices.{Labelled, Store, stored_fingerprint, target_holds_source}
use dbextractors.Target.Slices.Cuts.{rows_of, slice}
use dbextractors.Strategies.BySource.{Session, LoadResult, SourceEnd, returned, raised}
use dbextractors.Strategies.BySource.Run.{no_rows, skipped}
use dbextractors.Strategies.BySource.Ends.{HasStore, new_mark, labelled_rows}

-- The result of a load of n rows.
abbrev pub load_result : ℕ → LoadResult
load_result n = record {
  rows_read = n;
  rows_written = n;
  unchanged = false;
  data_present = ltb 0 n;
}

module _ {Row : Type 0} (label : Text) (mark : Option Text) (estimate : ℕ)
    (read : List (Batch Row) × Outcome) (db : Store Row) where
  abbrev pub old_mark : Option Text
  old_mark = stored_fingerprint label db.fingerprints

  abbrev pub own_rows : List (Labelled Row)
  own_rows = slice label (rows_of db)

  -- The ends of a run: what is committed of the source's rows, and its fingerprint.
  pub data Accounted : SourceEnd Row → Type 0 where
    raised_kept :
        (s : Session Row) → HasStore label own_rows old_mark s.committed → Accounted (raised s)
    raised_swapped :
        (s : Session Row)
        → read.1 ≡ finished
        → HasStore label (labelled_rows label read.0) old_mark s.committed
        → Accounted (raised s)
    raised_after :
        (s : Session Row)
        → read.1 ≡ finished
        → HasStore label (labelled_rows label read.0) (new_mark mark old_mark) s.committed
        → Accounted (raised s)
    raised_emptied :
        (s : Session Row)
        → estimate ≡ 0
        → HasStore label [] (new_mark mark old_mark) s.committed
        → Accounted (raised s)
    skipped_kept :
        (s : Session Row) (m : Text)
        → mark ≡ some m
        → old_mark ≡ some m
        → target_holds_source label db ≡ true
        → s.committed ≡ db
        → Accounted (returned skipped s)
    emptied :
        (s : Session Row)
        → estimate ≡ 0
        → ((mark ≡ none) × HasStore label own_rows old_mark s.committed)
          ⊎ HasStore label [] (new_mark mark old_mark) s.committed
        → Accounted (returned no_rows s)
    swapped :
        (s : Session Row)
        → read.1 ≡ finished
        → ltb 0 (row_count read.0) ≡ true
        → HasStore label (labelled_rows label read.0) (new_mark mark old_mark) s.committed
        → Accounted (returned (load_result (row_count read.0)) s)
