-- ===== src/Strategies/BySource/Swapped.antt =====
-- The ends of the swap of a slice.
use dbextractors.Base.{
  ◌≡◌, refl, sym, ap, subst, ◌∙◌, ℕ, Bool, true, false, Option, none, some, List, ◌++◌, arith, Text,
  text_Eq, keep-append, length, ltb, nat_eq, Bool-cases, Option-cases, inl, inr,
}
use dbextractors.Naming.Unicode.{Unicode}
use dbextractors.Dates.{Date}
use dbextractors.Partitioning.Catalog.{Relation, Catalogue}
use dbextractors.Reading.{Batch, Outcome, finished}
use dbextractors.Strategies.Full.Fill.{row_count}
use dbextractors.Target.Slices.{Store, names_source, stored_fingerprint, replace_source_slice}
use dbextractors.Target.Slices.Cuts.{rows_of, others, slice, slice-others, HasOwnPartition}
use dbextractors.Strategies.BySource.{
  SourceSettings, SourceFaults, Session, LoadResult, SourceEnd, raised, Staged, nothing_staged,
  finish_source, rollback_session, prepare_target,
}
use dbextractors.Strategies.BySource.Run.{swap_slice}
use dbextractors.Strategies.BySource.Kept.{Holds}
use dbextractors.Strategies.BySource.Ends.{
  Has, HasStore, labelled_rows, labelled_rows-length, slice_labelled, batch_rows, IsStaged,
  finish_ends, marked_with,
}
use dbextractors.Strategies.BySource.Writes.{replaced-IsWritten}
use dbextractors.Strategies.BySource.Accounted.{
  load_result, old_mark, Accounted, raised_kept, raised_swapped, raised_after, swapped,
}

module _ {Row : Type 0} (label : Text) (target : Text) (refuses : Catalogue → Relation → Bool)
    (u : Unicode) (digest : Text → Text) (fromisoformat : Text → Option Date)
    (settings : SourceSettings) (faults : SourceFaults) (mark : Option Text) (estimate : ℕ)
    (read : List (Batch Row) × Outcome) (db : Store Row) where
  abbrev Ends : SourceEnd Row → Type 0
  Ends e = Accounted label mark estimate read db e

  abbrev fresh_session : Session Row
  fresh_session = record { working = db; committed = db }

  abbrev Own : Type 0
  Own = HasOwnPartition target u digest fromisoformat label db.catalogue

  pub swapped_rows :
      (partitioned : Bool) (staged : Staged Row) (db' : Store Row) (n : ℕ)
      → Own
      → IsStaged label read.0 nothing_staged staged
      → replace_source_slice target refuses u digest fromisoformat faults.replace_fails
          (some label)
          staged.rows
          (prepare_target partitioned db)
        ≡ some (db', n)
      → HasStore label (labelled_rows label read.0) (old_mark label mark estimate read db) db'
        × (n ≡ row_count read.0)
  swapped_rows partitioned staged db' n own st e =
      let (written, count) =
        replaced-IsWritten target refuses u digest fromisoformat label faults.replace_fails
          partitioned staged.rows db db' n own e in
      let (rows, marks) = written in
      let new_rows : slice label staged.rows ≡ labelled_rows label read.0 =
        ap (slice label) st.rows_are ∙ slice_labelled label (batch_rows read.0) in
      (
        (
          ap (slice label) rows
              ∙ keep-append (λ row. names_source label row.source) (others label (rows_of db))
                  staged.rows
              ∙ ap (λ l. l ++ slice label staged.rows) (slice-others label (rows_of db))
              ∙ new_rows,
          ap (stored_fingerprint label) marks,
        ),
        count ∙ ap length st.rows_are ∙ labelled_rows-length label read.0,
      )

  abbrev swap : Bool → Staged Row → Option (Store Row × ℕ)
  swap partitioned staged =
      replace_source_slice target refuses u digest fromisoformat faults.replace_fails
        settings.source_label staged.rows (prepare_target partitioned db)

  abbrev swap_end : Bool → Staged Row → SourceEnd Row
  swap_end partitioned staged =
      swap_slice target refuses u digest fromisoformat settings faults mark partitioned staged
        fresh_session

  nothing_swapped :
      (partitioned : Bool) (staged : Staged Row)
      → nat_eq staged.rows_read 0 ≡ true
      → swap_end partitioned staged ≡ raised (rollback_session fresh_session)
  unfolding swap_slice
  nothing_swapped partitioned staged h = ground arith

  swap_refused :
      (partitioned : Bool) (staged : Staged Row)
      → nat_eq staged.rows_read 0 ≡ false
      → swap partitioned staged ≡ none
      → swap_end partitioned staged ≡ raised (rollback_session fresh_session)
  unfolding swap_slice
  swap_refused partitioned staged h e = ground arith

  abbrev pub result : ℕ → ℕ → LoadResult
  result read written = record {
    rows_read = read;
    rows_written = written;
    unchanged = false;
    data_present = ltb 0 written;
  }

  pub result_is : (a b n : ℕ) → a ≡ n → b ≡ n → result a b ≡ load_result n
  result_is a b n h k = ap (λ x. result x b) h ∙ ap (λ x. result n x) k

  pub swap_made :
      (partitioned : Bool) (staged : Staged Row) (db' : Store Row) (n : ℕ)
      → nat_eq staged.rows_read 0 ≡ false
      → swap partitioned staged ≡ some (db', n)
      → swap_end partitioned staged
        ≡ finish_source settings faults mark
            (result staged.rows_read n)
            record { working = db'; committed = db' }
  unfolding swap_slice
  swap_made partitioned staged db' n h e = ground arith

  pub swap_slice-Ends :
      (partitioned : Bool) (staged : Staged Row)
      → settings.source_label ≡ some label
      → Own
      → read.1 ≡ finished
      → IsStaged label read.0 nothing_staged staged
      → Ends (
          swap_slice target refuses u digest fromisoformat settings faults mark partitioned staged
            fresh_session)
  swap_slice-Ends partitioned staged labelled own fin st =
      let count : staged.rows_read ≡ row_count read.0 = omega (arith, st.read_are) in
      elim (Bool-cases (nat_eq staged.rows_read 0)) [
        | inl nothing ↦
            subst Ends (sym (nothing_swapped partitioned staged nothing))
              (raised_kept (rollback_session fresh_session) (refl, refl))
        | inr something ↦ elim (Option-cases (swap partitioned staged)) [
          | inl bad ↦
              subst Ends (sym (swap_refused partitioned staged something bad))
                (raised_kept (rollback_session fresh_session) (refl, refl))
          | inr ((db', n), good) ↦
              let (has, written) = swapped_rows partitioned staged db' n own st (
                subst
                  (λ l.
                    replace_source_slice target refuses u digest fromisoformat faults.replace_fails
                      l staged.rows (prepare_target partitioned db)
                    ≡ some (db', n))
                  labelled good) in
              let s : Session Row = record { working = db'; committed = db' } in
              let here : Holds
                  (Has label (labelled_rows label read.0) (old_mark label mark estimate read db))
                  s =
                record { seen = has; kept = has } in
              let is : swap_slice target refuses u digest fromisoformat settings faults mark
                    partitioned staged fresh_session
                  ≡ finish_source settings faults mark (load_result (row_count read.0)) s =
                swap_made partitioned staged db' n something good
                ∙ ap (λ x. finish_source settings faults mark x s)
                    (result_is staged.rows_read n (row_count read.0) count written) in
              let some_rows : ltb 0 (row_count read.0) ≡ true = ground (arith, count) in
              elim (finish_ends label settings faults mark (load_result (row_count read.0)) s _
                labelled (marked_with label mark s _ _ here)) [
                  | inl e ↦ subst Ends (sym (is ∙ e)) (raised_swapped s fin has)
                  | inr (s', (inl e, left)) ↦
                      subst Ends (sym (is ∙ e)) (swapped s' fin some_rows left.kept)
                  | inr (s', (inr e, left)) ↦
                      subst Ends (sym (is ∙ e)) (raised_after s' fin left.kept)
                ]
        ]
      ]
