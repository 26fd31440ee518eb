-- ===== src/Strategies/BySource/Loads.antt =====
-- A load for one source that nothing stops.
use dbextractors.Base.{
  Bool-cases, ◌&&◌, ◌≡◌, refl, sym, ap, subst, ◌∙◌, ℕ, Bool, true, false, Option, none, some, List,
  [], arith, Text, text_Eq, ltb, nat_eq, Option-cases, inl, inr,
}
use dbextractors.Naming.Unicode.{Unicode}
use dbextractors.Dates.{Date}
use dbextractors.Partitioning.Catalog.{Relation, Catalogue}
use dbextractors.Reading.{Batch, Outcome, finished, failed}
use dbextractors.Strategies.Full.Fill.{row_count}
use dbextractors.Target.Slices.{
  Slices, Store, is_partitioned, stored_fingerprint, replace_source_slice,
}
use dbextractors.Target.Slices.Cuts.{HasOwnPartition}
use dbextractors.Strategies.BySource.{
  SourceSettings, Session, LoadResult, SourceEnd, returned, Staged, nothing_staged, stage,
  finish_source, prepare_target, can_skip, validate, resolve_partitioning,
}
use dbextractors.Strategies.BySource.Run.{
  swap_slice, swap_after, replace_slice, load, run_after, run_by_source,
}
use dbextractors.Strategies.BySource.Kept.{
  Holds, with_mark, marked, can_skip_session, finish_index-Holds,
}
use dbextractors.Strategies.BySource.Ends.{
  Has, HasStore, new_mark, labelled_rows, batch_rows, IsStaged, stage-IsStaged, marked_with,
}
use dbextractors.Strategies.BySource.Writes.{prepare_target-catalogue}
use dbextractors.Strategies.BySource.Accounted.{load_result}
use dbextractors.Strategies.BySource.Swapped.{swapped_rows, swap_made, result_is}
use dbextractors.Strategies.BySource.{finish_index, create_unique_pk_index}
use dbextractors.Strategies.BySource.Replaces.{no_faults, stage_all, IsGranted, replaces}

module _ {Row : Type 0} (label : Text) (target : Text) (refuses : Catalogue → Relation → Bool)
    (u : Unicode) (digest : Text → Text) (fromisoformat : Text → Option Date)
    (settings : SourceSettings) (mark : Option Text) (estimate : ℕ)
    (read : List (Batch Row) × Outcome) (db : Store Row) where
  abbrev fresh_session : Session Row
  fresh_session = record { working = db; committed = db }

  abbrev whole : SourceEnd Row
  whole =
      run_by_source target refuses u digest fromisoformat settings no_faults mark estimate read db

  swap_after_is :
      (partitioned : Bool) (staged : Staged Row) (outcome : Outcome)
      → outcome ≡ finished
      → swap_after target refuses u digest fromisoformat settings no_faults mark partitioned outcome
          (some staged)
          fresh_session
        ≡ swap_slice target refuses u digest fromisoformat settings no_faults mark partitioned
            staged fresh_session
  swap_after_is partitioned staged finished h = refl
  swap_after_is partitioned staged (failed err) h = absurd (ground arith)

  whole_is_swap :
      (staged : Staged Row) (x : Bool × Session Row)
      → x ≡ (false, fresh_session)
      → nat_eq estimate 0 ≡ false
      → read.1 ≡ finished
      → stage no_faults settings.source_label 0 read.0 nothing_staged ≡ some staged
      → run_after target refuses u digest fromisoformat settings no_faults mark estimate read x
        ≡ swap_slice target refuses u digest fromisoformat settings no_faults mark
            (resolve_partitioning settings db)
            staged
            fresh_session
  unfolding run_after load replace_slice
  whole_is_swap staged x same some_rows end st =
      let after = swap_after_is (resolve_partitioning settings db) staged read.1 end in
      rw (same, some_rows, st) after

  prepared :
      (t : Slices Row) × (((prepare_target (resolve_partitioning settings db) db).target ≡ some t)
        × (t.partitioned ≡ resolve_partitioning settings db))
  unfolding prepare_target resolve_partitioning
  prepared = elim (Option-cases db.target) [
    | inl missing ↦
        let t : Slices Row = record {
          partitioned = resolve_partitioning settings db;
          rows = [];
          indexed = false;
        } in
        (t, (ground arith, refl))
    | inr (t, there) ↦ (t, (ground arith, ground arith))
  ]

  index_returns : (s : Session Row) → (finish_index settings no_faults s).0 ≡ false
  unfolding finish_index create_unique_pk_index
  index_returns s = elim (Bool-cases (settings.is_last_source && settings.pk_known)) [
    | inr unwanted ↦ ground arith
    | inl wanted ↦ elim (Bool-cases (is_partitioned s.working)) [
      | inl parts ↦ ground arith
      | inr whole ↦ ground arith
    ]
  ]

  finish_returned :
      (result : LoadResult) (m : Option Text) (s : Session Row)
      → finish_source settings no_faults m result s
        ≡ returned result (finish_index settings no_faults (marked settings.source_label m s)).1
  unfolding finish_source
  finish_returned result none s = elim (Option-cases settings.source_label) [
    | inl unlabelled ↦ let fine = index_returns s in ground arith
    | inr (l, labelled) ↦ let fine = index_returns s in ground arith
  ]
  finish_returned result (some m) s = elim (Option-cases settings.source_label) [
    | inl unlabelled ↦ let fine = index_returns s in ground arith
    | inr (l, labelled) ↦ let fine = index_returns (with_mark l m s) in ground arith
  ]

  -- The load returns, and the source's rows are those of the batches.
  abbrev pub Loaded : Type 0
  Loaded =
      (s : Session Row) × ((whole ≡ returned (load_result (row_count read.0)) s)
        × HasStore label (labelled_rows label read.0)
            (new_mark mark (stored_fingerprint label db.fingerprints)) s.committed)

  slice_replaced :
      (staged : Staged Row)
      → HasOwnPartition target u digest fromisoformat label db.catalogue
      → IsGranted label target refuses u digest fromisoformat
          (resolve_partitioning settings db)
          db.catalogue
      → IsStaged label read.0 nothing_staged staged
      → (x : Store Row × ℕ) × (replace_source_slice target refuses u digest fromisoformat false
            (some label)
            staged.rows
            (prepare_target (resolve_partitioning settings db) db)
          ≡ some x)
  slice_replaced staged own granted st =
      let partitioned = resolve_partitioning settings db in
      let before = prepare_target partitioned db in
      let cat_is = prepare_target-catalogue partitioned db in
      let (t, (there, shape)) = prepared in
      let (x, made) =
        replaces label target refuses u digest fromisoformat t (batch_rows read.0) before
          (subst (HasOwnPartition target u digest fromisoformat label) (sym cat_is) own)
          (subst (λ p. IsGranted label target refuses u digest fromisoformat p before.catalogue)
            (sym shape)
            (subst (λ cat. IsGranted label target refuses u digest fromisoformat partitioned cat)
              (sym cat_is) granted))
          there in
      (
        x,
        subst
            (λ rows.
              replace_source_slice target refuses u digest fromisoformat false (some label) rows
                before
              ≡ some x)
            (sym st.rows_are) made,
      )

  marks_left :
      (s : Session Row)
      → settings.source_label ≡ some label
      → Holds (Has label (labelled_rows label read.0) (stored_fingerprint label db.fingerprints)) s
      → Holds
          (Has label
            (labelled_rows label read.0)
            (new_mark mark (stored_fingerprint label db.fingerprints)))
          (marked settings.source_label mark s)
  marks_left s labelled here =
      subst
        (λ l.
          Holds
            (Has label (labelled_rows label read.0)
              (new_mark mark (stored_fingerprint label db.fingerprints)))
            (marked l mark s))
        (sym labelled) (marked_with label mark s _ _ here)

  swap_loads :
      (staged : Staged Row)
      → settings.source_label ≡ some label
      → HasOwnPartition target u digest fromisoformat label db.catalogue
      → IsGranted label target refuses u digest fromisoformat
          (resolve_partitioning settings db)
          db.catalogue
      → ltb 0 (row_count read.0) ≡ true
      → IsStaged label read.0 nothing_staged staged
      → whole
        ≡ swap_slice target refuses u digest fromisoformat settings no_faults mark
            (resolve_partitioning settings db)
            staged
            fresh_session
      → Loaded
  swap_loads staged labelled own granted some_rows st is =
      let partitioned = resolve_partitioning settings db in
      let before = prepare_target partitioned db in
      let ((db', n), made') = slice_replaced staged own granted st in
      let (has, written) =
        swapped_rows label target refuses u digest fromisoformat settings no_faults mark estimate
          read db partitioned staged db' n own st made' in
      let s : Session Row = record { working = db'; committed = db' } in
      let here : Holds
          (Has label (labelled_rows label read.0) (stored_fingerprint label db.fingerprints)) s =
        record { seen = has; kept = has } in
      let count : staged.rows_read ≡ row_count read.0 = omega (arith, st.read_are) in
      let left = marks_left s labelled here in
      let ended =
        finish_index-Holds _ settings no_faults (marked settings.source_label mark s) left in
      (
        (finish_index settings no_faults (marked settings.source_label mark s)).1,
        (
          is
              ∙ swap_made label target refuses u digest fromisoformat settings no_faults mark
                  estimate read db partitioned staged db' n (ground (arith, count))
                  (subst
                    (λ l.
                      replace_source_slice target refuses u digest fromisoformat false l staged.rows
                        before
                      ≡ some (db', n))
                    (sym labelled) made')
              ∙ ap (λ x. finish_source settings no_faults mark x s)
                  (result_is label target refuses u digest fromisoformat settings no_faults mark
                    estimate read db staged.rows_read n (row_count read.0) count written)
              ∙ finish_returned (load_result (row_count read.0)) mark s,
          ended.kept,
        ),
      )

  not_skipped :
      (x : Bool × Session Row) → x.0 ≡ false → x.1 ≡ fresh_session → x ≡ (false, fresh_session)
  not_skipped (skip, s) h k = ap (λ b. (b, s)) h ∙ ap (λ t. (false, t)) k

  whole_is_run_after :
      validate settings ≡ true
      → whole
        ≡ run_after target refuses u digest fromisoformat settings no_faults mark estimate read
            (can_skip settings no_faults mark fresh_session)
  unfolding run_by_source
  whole_is_run_after valid = rw valid refl

  -- A valid run that nothing stops, of a source with rows whose batches come to their end, returns
  -- their number, and the committed rows of the source are those of the batches, with the new
  -- fingerprint where there is one. Conditions are that the run is not skipped, that no table other
  -- than the source's own partition has its name, and, if the target is or becomes partitioned, that
  -- PostgreSQL grants that partition.
  pub run_loads :
      settings.source_label ≡ some label
      → validate settings ≡ true
      → (can_skip settings no_faults mark fresh_session).0 ≡ false
      → nat_eq estimate 0 ≡ false
      → read.1 ≡ finished
      → ltb 0 (row_count read.0) ≡ true
      → HasOwnPartition target u digest fromisoformat label db.catalogue
      → IsGranted label target refuses u digest fromisoformat
          (resolve_partitioning settings db)
          db.catalogue
      → Loaded
  run_loads labelled valid unskipped some_estimate end some_rows own granted =
      let same : (can_skip settings no_faults mark fresh_session).1 ≡ fresh_session =
        elim (can_skip_session settings no_faults mark fresh_session) [ inl e ↦ e | inr e ↦ e ] in
      let (staged, st) = stage_all label 0 read.0 nothing_staged in
      let st' : stage no_faults settings.source_label 0 read.0 nothing_staged ≡ some staged =
        subst (λ l. stage no_faults l 0 read.0 nothing_staged ≡ some staged) (sym labelled) st in
      swap_loads staged labelled own granted some_rows
        (stage-IsStaged no_faults label 0 read.0 nothing_staged staged st)
        (whole_is_run_after valid
          ∙ whole_is_swap staged (can_skip settings no_faults mark fresh_session)
              (not_skipped (can_skip settings no_faults mark fresh_session) unskipped same)
              some_estimate end st')
