-- ===== src/Target/Deletion/Laws.antt =====
-- The two statements of the deletion marks do one thing: each row's mark says whether its key is gone.
use dbextractors.Base.{
  ◌+◌, ◌≡◌, refl, ap, ◌∙◌, Bool, true, false, ◌&&◌, not, Option, none, some, List, [], ◌∷◌, map,
  Text, Eq, arith, if◌then◌else◌, Bool-cases, inl, inr,
}
use dbextractors.Target.Sql.{is_true, is_false, update, count}
use dbextractors.Target.Deletion.{
  Row, in_source, is_live, to_revive, to_mark, revive, mark, mark_deleted_in_source,
}

module _ {ℓ} {R : Type ℓ} (test : R → Bool) (change : R → R) where
  update_lem :
      (rows : List R)
      → update test change rows ≡ (map (λ r. if test r then change r else r) rows, count test rows)
  update_lem [] = refl
  update_lem (r ∷ rows) = elim (Bool-cases (test r)) [
    | inl touched ↦ rw (touched, update_lem rows) refl
    | inr other ↦ rw (other, update_lem rows) refl
  ]

module _ {K S V : Type 0} ⦃e : Eq K⦄ (live : List (Option K)) (label : Option Text) (now : S) where
  -- The mark of a row does not say what the live keys say. A row without a mark has none to correct,
  -- and a row of another source is not looked at.
  abbrev pub is_stale : Row K S V → Bool
  is_stale r =
      in_source label r.source
      && (if is_live live r.key then is_true r.deleted else is_false r.deleted)

  abbrev pub marked : Row K S V → Row K S V
  marked r =
      if is_stale r
      then record r { deleted = some (not (is_live live r.key)); timestamp = now }
      else r

  abbrev revived : Row K S V → Row K S V
  revived r =
      if to_revive live label r then record r { deleted = some false; timestamp = now } else r

  abbrev deleted : Row K S V → Row K S V
  deleted r = if to_mark live label r then record r { deleted = some true; timestamp = now } else r

  abbrev OneRow : Row K S V → Type 0
  OneRow r =
      (deleted (revived r) ≡ marked r)
      × ((if to_revive live label r then 1 else 0)
            + (if to_mark live label (revived r) then 1 else 0)
          ≡ (if is_stale r then 1 else 0))

  one_row :
      (key : Option K) (source : Option Text) (deleted : Option Bool) (timestamp : S) (value : V)
      → OneRow (record {
        key = key;
        source = source;
        deleted = deleted;
        timestamp = timestamp;
        value = value;
      })
  unfolding to_revive to_mark
  one_row key source none timestamp value = elim (Bool-cases (is_live live key)) [
    | inl here ↦ elim (Bool-cases (in_source label source)) [
      | inl ours ↦ rw (here, ours) (refl, refl)
      | inr other ↦ rw (here, other) (refl, refl)
    ]
    | inr gone ↦ elim (Bool-cases (in_source label source)) [
      | inl ours ↦ rw (gone, ours) (refl, refl)
      | inr other ↦ rw (gone, other) (refl, refl)
    ]
  ]
  one_row key source (some true) timestamp value = elim (Bool-cases (is_live live key)) [
    | inl here ↦ elim (Bool-cases (in_source label source)) [
      | inl ours ↦ rw (here, ours, ours, here) (refl, refl)
      | inr other ↦ rw (here, other) (refl, refl)
    ]
    | inr gone ↦ elim (Bool-cases (in_source label source)) [
      | inl ours ↦ rw (gone, ours) (refl, refl)
      | inr other ↦ rw (gone, other) (refl, refl)
    ]
  ]
  one_row key source (some false) timestamp value = elim (Bool-cases (is_live live key)) [
    | inl here ↦ elim (Bool-cases (in_source label source)) [
      | inl ours ↦ rw (here, ours, here) (refl, refl)
      | inr other ↦ rw (here, other) (refl, refl)
    ]
    | inr gone ↦ elim (Bool-cases (in_source label source)) [
      | inl ours ↦ rw (gone, ours, gone) (refl, refl)
      | inr other ↦ rw (gone, other) (refl, refl)
    ]
  ]

  all_rows :
      (rows : List (Row K S V))
      → (map deleted (map revived rows) ≡ map marked rows)
        × (count (to_revive live label) rows + count (to_mark live label) (map revived rows)
            ≡ count is_stale rows)
  all_rows [] = (refl, omega arith)
  all_rows (r ∷ rows) =
      let (row, n) = one_row r.key r.source r.deleted r.timestamp r.value in
      let (rest, m) = all_rows rows in (rw (row, rest) refl, ground (arith, n, m))

  revive_lem :
      (rows : List (Row K S V))
      → revive live label now rows ≡ (map revived rows, count (to_revive live label) rows)
  unfolding revive
  revive_lem rows =
      update_lem (to_revive live label) (λ r. record r { deleted = some false; timestamp = now })
        rows

  mark_lem :
      (rows : List (Row K S V))
      → mark live label now rows ≡ (map deleted rows, count (to_mark live label) rows)
  unfolding mark
  mark_lem rows =
      update_lem (to_mark live label) (λ r. record r { deleted = some true; timestamp = now }) rows

  -- Exactly the rows whose mark is wrong get the right mark and a new timestamp, all other rows and
  -- all other columns stay, and the result counts the changed rows.
  pub mark_deleted_in_source-marked :
      (rows : List (Row K S V))
      → mark_deleted_in_source live label now rows ≡ (map marked rows, count is_stale rows)
  unfolding mark_deleted_in_source
  mark_deleted_in_source-marked rows =
      let (r, n) = all_rows rows in rw (revive_lem rows, mark_lem (map revived rows), r, n) refl

  -- Once marked, a row is not stale.
  marked_fresh : (r : Row K S V) → is_stale (marked r) ≡ false
  marked_fresh r = elim (Bool-cases (is_stale r)) [
    | inl stale ↦ rw stale (elim (Bool-cases (is_live live r.key)) [
      | inl here ↦ ground arith
      | inr gone ↦ ground arith
    ])
    | inr fresh ↦ rw (fresh, fresh) refl
  ]

  all_fresh : (rows : List (Row K S V)) → count is_stale (map marked rows) ≡ 0
  all_fresh [] = refl
  all_fresh (r ∷ rows) = rw (marked_fresh r) (all_fresh rows)

module _ {K S V : Type 0} ⦃e : Eq K⦄ (live : List (Option K)) (label : Option Text)
    (later : S) where
  fresh_unchanged :
      (rows : List (Row K S V))
      → count (is_stale live label later) rows ≡ 0
      → map (marked live label later) rows ≡ rows
  fresh_unchanged [] h = refl
  fresh_unchanged (r ∷ rows) h = elim (Bool-cases (is_stale live label later r)) [
    | inl stale ↦ absurd (ground arith)
    | inr fresh ↦ rw fresh (ap (λ x. r ∷ x) (fresh_unchanged rows (ground arith)))
  ]

  -- A second run with the same live keys touches no row.
  pub mark_deleted_in_source_again :
      (now : S) (rows : List (Row K S V))
      → let once = (mark_deleted_in_source live label now rows).0 in
        mark_deleted_in_source live label later once ≡ (once, 0)
  mark_deleted_in_source_again now rows =
      let fresh = all_fresh live label now rows in
      let same = fresh_unchanged (map (marked live label now) rows) fresh in
      rw (mark_deleted_in_source-marked live label now rows) (
        mark_deleted_in_source-marked live label later (map (marked live label now) rows)
        ∙ rw (same, fresh) refl)

  -- Exactly the rows whose mark is wrong get the right mark and a new timestamp, all other rows and
  -- all other columns stay, and the result counts the changed rows; a second run with the same live
  -- keys, at any time, touches no row.
  pub mark_deleted_in_source_lem :
      (now : S) (rows : List (Row K S V))
      → (mark_deleted_in_source live label now rows
          ≡ (map (marked live label now) rows, count (is_stale live label now) rows))
        × (mark_deleted_in_source live label later (mark_deleted_in_source live label now rows).0
            ≡ ((mark_deleted_in_source live label now rows).0, 0))
  mark_deleted_in_source_lem now rows =
      (mark_deleted_in_source-marked live label now rows, mark_deleted_in_source_again now rows)
