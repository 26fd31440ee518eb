-- ===== src/Strategies/ParentIncremental/Windows.antt =====
-- What a run that replaces the window leaves of each parent's rows.
use dbextractors.Base.{
  ◌≡◌, refl, sym, ap, ◌∙◌, ℕ, suc, Bool, false, ◌&&◌, ◌||◌, not, Option, none, some, List, [], ◌∷◌,
  ◌++◌, append_assoc, append-nil, arith, Eq, ◌==◌, contains, keep, keep-append, length, nat_eq,
  if◌then◌else◌, Bool-cases, Option-cases, inl, inr,
}
use dbextractors.Reading.{Batch, Outcome, finished, failed}
use dbextractors.Strategies.ParentIncremental.{
  ParentRow, ChildRow, WindowSettings, WindowFaults, replaced, window_ids, parent_keys, keys,
  has_repeat, in_window, delete_window, insert_from_staging, stage_window, swap_window,
  window_after, replace_window, run_parent,
}

abbrev pub names : {K : Type 0} ⦃e : Eq K⦄ → K → Option K → Bool
names p none = false
names p (some k) = k == p

module _ {J K V : Type 0} ⦃ej : Eq J⦄ ⦃ek : Eq K⦄ where
  -- The rows of a parent.
  abbrev pub of_parent : K → List (ChildRow J K V) → List (ChildRow J K V)
  of_parent p rows = keep (λ row. names p row.parent) rows

  abbrev pub batch_rows : List (Batch (ChildRow J K V)) → List (ChildRow J K V)
  batch_rows [] = []
  batch_rows (batch ∷ batches) = batch.rows ++ batch_rows batches

  stage_window_lem :
      (faults : WindowFaults) (n : ℕ) (batches : List (Batch (ChildRow J K V)))
      (staged staged' : List (ChildRow J K V))
      → stage_window faults n batches staged ≡ some staged'
      → staged' ≡ staged ++ batch_rows batches
  unfolding stage_window
  stage_window_lem faults n [] staged staged' h =
      let is : staged ≡ staged' = ground arith in sym is ∙ sym (append-nil staged)
  stage_window_lem faults n (batch ∷ batches) staged staged' h =
      elim (Bool-cases (faults.window_batch_fails n)) [
        | inl bad ↦ absurd (ground arith)
        | inr good ↦
            stage_window_lem faults (suc n) batches (staged ++ batch.rows) staged' (ground arith)
            ∙ append_assoc staged batch.rows (batch_rows batches)
      ]

  -- The parent is in the window, of the target's copy or of what was read.
  abbrev pub is_touched : ℕ → List (ParentRow K) → List (ChildRow J K V) → K → Bool
  is_touched cutoff parents staged p =
      contains p (window_ids cutoff parents) || contains p (parent_keys staged)

  kept_of_parent :
      (cutoff : ℕ) (parents : List (ParentRow K)) (staged rows : List (ChildRow J K V)) (p : K)
      → of_parent p (keep (λ row. not (in_window cutoff parents staged row)) rows)
        ≡ (if is_touched cutoff parents staged p then [] else of_parent p rows)
  kept_of_parent cutoff parents staged [] p =
      elim (Bool-cases (is_touched cutoff parents staged p)) [
        | inl within ↦ ground arith
        | inr outside ↦ ground arith
      ]
  kept_of_parent cutoff parents staged (r ∷ rows) p =
      let ih = kept_of_parent cutoff parents staged rows p in
      elim (Option-cases r.parent) [
        | inl orphan ↦ ground arith
        | inr (k, of_k) ↦ elim (Bool-cases (k == p)) [
          | inr other ↦ ground arith
          | inl same ↦ let is = (ek.eq_test_iff k p).0 same in ground arith
        ]
      ]

  none_of_parent :
      (rows : List (ChildRow J K V)) (p : K)
      → contains p (parent_keys rows) ≡ false
      → of_parent p rows ≡ []
  none_of_parent [] p h = refl
  none_of_parent (r ∷ rows) p h = elim (Option-cases r.parent) [
    | inl orphan ↦ let ih = none_of_parent rows p in ground arith
    | inr (k, of_k) ↦ elim (Bool-cases (k == p)) [
      | inl same ↦ absurd (ground arith)
      | inr other ↦ let ih = none_of_parent rows p (ground arith) in ground arith
    ]
  ]

  replaced_parent :
      (cutoff : ℕ) (parents : List (ParentRow K)) (staged rows : List (ChildRow J K V)) (p : K)
      → of_parent p (keep (λ row. not (in_window cutoff parents staged row)) rows ++ staged)
        ≡ (if is_touched cutoff parents staged p then of_parent p staged else of_parent p rows)
  replaced_parent cutoff parents staged rows p =
      let kept = keep (λ row. not (in_window cutoff parents staged row)) rows in
      let split = keep-append (λ row. names p row.parent) kept staged in
      let left = kept_of_parent cutoff parents staged rows p in
      elim (Bool-cases (is_touched cutoff parents staged p)) [
        | inl within ↦
            let gone : of_parent p kept ≡ [] = left ∙ rw within refl in
            split ∙ ap (λ l. l ++ of_parent p staged) gone ∙ rw within refl
        | inr outside ↦
            let same : of_parent p kept ≡ of_parent p rows = left ∙ rw outside refl in
            let none_new = none_of_parent staged p (ground arith) in
            split
            ∙ ap (λ l. l ++ of_parent p staged) same
            ∙ ap (λ l. of_parent p rows ++ l) none_new
            ∙ append-nil (of_parent p rows)
            ∙ rw outside refl
      ]

  -- The target once the window is replaced.
  abbrev pub with_window :
      ℕ → List (ParentRow K) → List (ChildRow J K V) → List (ChildRow J K V) → List (ChildRow J K V)
  with_window cutoff parents staged rows =
      keep (λ row. not (in_window cutoff parents staged row)) rows ++ staged

  -- What a replaced window is.
  pub record IsReplaced (cutoff : ℕ) (parents : List (ParentRow K))
      (read : List (Batch (ChildRow J K V)) × Outcome) (rows : List (ChildRow J K V))
      (read_count written : ℕ) (rows' : List (ChildRow J K V)) : Type 0 where
    pub whole : read.1 ≡ finished
    pub rows_are : rows' ≡ with_window cutoff parents (batch_rows read.0) rows
    pub read_are : read_count ≡ length (batch_rows read.0)
    pub written_are : written ≡ length (batch_rows read.0)

  swapped :
      (settings : WindowSettings) (faults : WindowFaults) (cutoff : ℕ)
      (parents : List (ParentRow K)) (rows staged : List (ChildRow J K V)) (n m d : ℕ)
      (rows' : List (ChildRow J K V))
      → swap_window settings faults cutoff parents rows staged ≡ replaced n m d rows'
      → (rows' ≡ with_window cutoff parents staged rows)
        × ((n ≡ length staged) × (m ≡ length staged))
  unfolding insert_from_staging delete_window
  swapped settings faults cutoff parents rows staged n m d rows' h =
      elim (Bool-cases faults.write_fails) [
        | inl bad ↦ absurd (ground arith)
        | inr good ↦
            elim (Bool-cases
              (settings.has_pk && has_repeat (keys (with_window cutoff parents staged rows)))) [
                | inl twice ↦ absurd (ground arith)
                | inr once ↦ (ground arith, (ground arith, ground arith))
              ]
      ]

  after_stage :
      (settings : WindowSettings) (faults : WindowFaults) (cutoff : ℕ)
      (parents : List (ParentRow K)) (rows : List (ChildRow J K V))
      (read : List (Batch (ChildRow J K V)) × Outcome) (outcome : Outcome)
      (x : Option (List (ChildRow J K V))) (n m d : ℕ) (rows' : List (ChildRow J K V))
      → read.1 ≡ outcome
      → stage_window faults 0 read.0 [] ≡ x
      → window_after settings faults cutoff parents rows outcome x ≡ replaced n m d rows'
      → IsReplaced cutoff parents read rows n m rows'
  after_stage settings faults cutoff parents rows read outcome none n m d rows' o s h =
      absurd (ground arith)
  after_stage settings faults cutoff parents rows read (failed err) (some staged) n m d rows' o s
        h =
      absurd (ground arith)
  after_stage settings faults cutoff parents rows read finished (some staged) n m d rows' o s h =
      let all : staged ≡ batch_rows read.0 = stage_window_lem faults 0 read.0 [] staged s in
      let (rows_are, (read_are, written_are)) =
        swapped settings faults cutoff parents rows staged n m d rows' h in
      record {
        whole = o;
        rows_are = rows_are ∙ ap (λ l. with_window cutoff parents l rows) all;
        read_are = read_are ∙ ap length all;
        written_are = written_are ∙ ap length all;
      }

  run_replaced :
      (settings : WindowSettings) (faults : WindowFaults) (cutoff : ℕ) (estimate : Option ℕ)
      (read : List (Batch (ChildRow J K V)) × Outcome) (parents : List (ParentRow K))
      (rows : List (ChildRow J K V)) (n m d : ℕ) (rows' : List (ChildRow J K V))
      → run_parent settings faults cutoff estimate read (some parents) (some rows)
        ≡ replaced n m d rows'
      → IsReplaced cutoff parents read rows n m rows'
  unfolding run_parent replace_window
  run_replaced settings faults cutoff estimate read parents rows n m d rows' h =
      elim (Bool-cases settings.valid) [
        | inr invalid ↦ absurd (ground arith)
        | inl valid ↦ elim (Option-cases estimate) [
          | inl unknown ↦ absurd (ground arith)
          | inr (count, known) ↦ elim (Bool-cases (nat_eq count 0)) [
            | inl nothing ↦ absurd (ground arith)
            | inr something ↦ elim (Bool-cases faults.setup_fails) [
              | inl bad ↦ absurd (ground arith)
              | inr good ↦
                  after_stage settings faults cutoff parents rows read read.1
                    (stage_window faults 0 read.0 []) n m d rows' refl refl (ground arith)
            ]
          ]
        ]
      ]

  -- Where a run replaces the window, the read came to its end, all rows that it brought are counted
  -- as read and as written, and each parent in the window, of the target's copy or of what was read,
  -- has exactly the rows that were read of it, in their order; the rows of every other parent are
  -- as before.
  pub run_parent-of_parent :
      (settings : WindowSettings) (faults : WindowFaults) (cutoff : ℕ) (estimate : Option ℕ)
      (read : List (Batch (ChildRow J K V)) × Outcome) (parents : List (ParentRow K))
      (rows : List (ChildRow J K V)) (n m d : ℕ) (rows' : List (ChildRow J K V)) (p : K)
      → run_parent settings faults cutoff estimate read (some parents) (some rows)
        ≡ replaced n m d rows'
      → (read.1 ≡ finished)
        × ((n ≡ length (batch_rows read.0))
            × ((m ≡ length (batch_rows read.0))
                × (of_parent p rows' ≡ (
                    if is_touched cutoff parents (batch_rows read.0) p
                    then of_parent p (batch_rows read.0)
                    else of_parent p rows))))
  run_parent-of_parent settings faults cutoff estimate read parents rows n m d rows' p h =
      let r = run_replaced settings faults cutoff estimate read parents rows n m d rows' h in
      (
        r.whole,
        (
          r.read_are,
          (
            r.written_are,
            ap (of_parent p) r.rows_are ∙ replaced_parent cutoff parents (batch_rows read.0) rows p,
          ),
        ),
      )
