-- ===== src/Strategies/HashDiff/Download/Marks.antt =====
-- What `_apply` leaves, with the marks of the deleted rows.
use dbextractors.Base.{
  ℕ, ◌+◌, ◌≡◌, refl, ap, ◌∙◌, Bool, false, ◌&&◌, ◌||◌, not, Option, none, some, List, [], ◌∷◌,
  arith, map, nat_eq, nat_Eq, Eq, if◌then◌else◌, inl, inr, Bool-cases,
}
use dbextractors.Target.Sql.{is_true, is_false}
use dbextractors.Target.Table.{Table, find, has_key, has_duplicate}
use dbextractors.Target.Snapshot.{diff, changed_cursor}
use dbextractors.Target.Deletion.{is_live, in_source}
use dbextractors.Target.Deletion.Laws.{marked, mark_deleted_in_source-marked}
use dbextractors.Strategies.HashDiff.Download.{
  Hashed, Managed, entries, in_keys, to_row, of_rows, apply_changes, mark_gone, apply_difference,
}
use dbextractors.Strategies.HashDiff.Download.Convergence.{stale_of, apply_changes-diff}

module _ {H S V : Type 0} where
  -- A row with the right mark: a row of the source that is marked deleted is revived, one that is gone
  -- and marked present is marked deleted, both with a new timestamp.
  abbrev pub with_mark : Bool → S → Hashed H (Managed S V) → Hashed H (Managed S V)
  with_mark live now r =
      if (if live then is_true r.values.deleted else is_false r.values.deleted)
      then record r { values = record r.values { deleted = some (not live); timestamp = now } }
      else r

  abbrev pub mark_found :
      Bool → S → Option (Hashed H (Managed S V)) → Option (Hashed H (Managed S V))
  mark_found live now none = none
  mark_found live now (some r) = some (with_mark live now r)

  abbrev keys : Table (Hashed H (Managed S V)) → List (Option ℕ)
  keys source = map (λ r. some r.0) source

  live_keys :
      (source : Table (Hashed H (Managed S V))) (k : ℕ)
      → is_live (keys source) (some k) ≡ has_key k source
  unfolding is_live
  live_keys [] k = refl
  live_keys ((j, r) ∷ source) k = ap (λ b. nat_eq j k || b) (live_keys source k)

  marked_row :
      (live : List (Option ℕ)) (now : S) (k : ℕ) (r : Hashed H (Managed S V))
      → marked live none now (to_row (k, r)) ≡ to_row (k, with_mark (is_live live (some k)) now r)
  unfolding in_source
  marked_row live now k r = elim (Bool-cases (is_live live (some k))) [
    | inl there ↦ elim (Bool-cases (is_true r.values.deleted)) [
      | inl wrong ↦ rw (there, wrong) refl
      | inr right ↦ rw (there, right) refl
    ]
    | inr gone ↦ elim (Bool-cases (is_false r.values.deleted)) [
      | inl wrong ↦ rw (gone, wrong) refl
      | inr right ↦ rw (gone, right) refl
    ]
  ]

  -- The table with the right marks.
  abbrev pub marks :
      List (Option ℕ) → S → Table (Hashed H (Managed S V)) → Table (Hashed H (Managed S V))
  marks live now [] = []
  marks live now ((k, r) ∷ t) = (k, with_mark (is_live live (some k)) now r) ∷ marks live now t

  of_rows-marked :
      (live : List (Option ℕ)) (now : S) (t : Table (Hashed H (Managed S V)))
      → of_rows (map (marked live none now) (map to_row t)) ≡ marks live now t
  of_rows-marked live now [] = refl
  of_rows-marked live now ((k, r) ∷ t) =
      let rest = of_rows-marked live now t in
      ap (λ x. of_rows (x ∷ map (marked live none now) (map to_row t))) (marked_row live now k r)
      ∙ ap (λ x. (k, with_mark (is_live live (some k)) now r) ∷ x) rest

  find-marks :
      (live : List (Option ℕ)) (now : S) (k : ℕ) (t : Table (Hashed H (Managed S V)))
      → find k (marks live now t) ≡ mark_found (is_live live (some k)) now (find k t)
  unfolding find
  find-marks live now k [] = refl
  find-marks live now k ((j, r) ∷ t) = elim (Bool-cases (nat_eq j k)) [
    | inl same ↦
        let is : j ≡ k = ground arith in
        rw same (ap (λ n. some (with_mark (is_live live (some n)) now r)) is)
    | inr other ↦ rw other (find-marks live now k t)
  ]

  same_hash :
      (live : Bool) (now : S) (r : Hashed H (Managed S V)) → (with_mark live now r).hash ≡ r.hash
  same_hash live now r =
      elim (Bool-cases (if live then is_true r.values.deleted else is_false r.values.deleted)) [
        | inl wrong ↦ rw wrong refl
        | inr right ↦ rw right refl
      ]

  entries-marks :
      (live : List (Option ℕ)) (now : S) (t : Table (Hashed H (Managed S V)))
      → entries (marks live now t) ≡ entries t
  entries-marks live now [] = refl
  entries-marks live now ((k, r) ∷ t) =
      rw (same_hash (is_live live (some k)) now r, entries-marks live now t) refl

  apply_difference-marks :
      ⦃h : Eq H⦄
      → (batch_size : ℕ) (now : S) (source target t : Table (Hashed H (Managed S V)))
      → apply_changes batch_size source target ≡ some t
      → apply_difference batch_size now source target ≡ some (marks (keys source) now t)
  unfolding apply_difference
  apply_difference-marks batch_size now source target t e =
      let row =
        ap (λ x. some (of_rows x.0))
          (mark_deleted_in_source-marked (keys source) none now (map to_row t)) in
      ap (mark_gone now source) e ∙ row ∙ ap some (of_rows-marked (keys source) now t)

  -- Where the source and the target have each key once, _apply ends without an exception. A row of
  -- the source that the target has not, or with another hash, is afterwards in the target as the
  -- source has it, and every other key is as before, but for the marks: a row whose key the source
  -- has is no longer marked deleted, and one whose key it has not is no longer marked present, with a
  -- new timestamp where the mark was wrong. A second difference then counts no added and no changed
  -- row, and its query brings no key.
  pub apply_difference-diff :
      ⦃h : Eq H⦄
      → (batch_size : ℕ) (now : S) (source target : Table (Hashed H (Managed S V)))
      → has_duplicate source ≡ false
      → has_duplicate target ≡ false
      → (t : Table (Hashed H (Managed S V))) × ((apply_difference batch_size now source target
            ≡ some t)
          × (((k : ℕ)
                → find k t
                  ≡ mark_found (has_key k source) now (
                      if in_keys k (stale_of source target) && has_key k source
                      then find k source
                      else find k target))
              × (((diff (entries source) (entries t)).added
                      + (diff (entries source) (entries t)).changed
                    ≡ 0)
                  × (changed_cursor (entries source) (entries t) ≡ []))))
  apply_difference-diff batch_size now source target unique keyed =
      let (t, (applied, (found, (settled, cursor)))) =
        apply_changes-diff batch_size source target unique keyed in
      let same = entries-marks (keys source) now t in
      (
        marks (keys source) now t,
        (
          apply_difference-marks batch_size now source target t applied,
          (
            λ k.
                find-marks (keys source) now k t
                ∙ ap (λ b. mark_found b now (find k t)) (live_keys source k)
                ∙ ap (mark_found (has_key k source) now) (found k),
            (
              ap (λ x. (diff (entries source) x).added + (diff (entries source) x).changed) same
                  ∙ settled,
              ap (changed_cursor (entries source)) same ∙ cursor,
            ),
          ),
        ),
      )
