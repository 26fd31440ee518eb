-- ===== src/Tests/Snapshot.antt =====
-- Three source rows against a target of three, and the marks that follow.
use dbextractors.Base.{
  ℕ, ◌≡◌, refl, Bool, true, false, Option, none, some, List, [], ◌∷◌, map, nat_Eq,
}
use dbextractors.Target.Sql.{count}
use dbextractors.Target.Deletion.{
  Row, mark_deleted_in_source, revive, mark, to_revive, to_mark, is_live, in_source,
}
use dbextractors.Target.Deletion.Laws.{is_stale, marked, mark_deleted_in_source_lem}
use dbextractors.Target.Snapshot.{
  Entry, diff, changed_keys, changed_cursor, fill_batches, left_join, is_added, differs,
}

abbrev entry : ℕ → Option ℕ → Entry ℕ ℕ
entry key hash = record { key = some key; hash = hash }

abbrev snapshot : List (Entry ℕ ℕ)
snapshot = entry 1 (some 10) ∷ entry 2 (some 20) ∷ entry 4 none ∷ []

abbrev target : List (Entry ℕ ℕ)
target = entry 1 (some 10) ∷ entry 2 (some 21) ∷ entry 3 none ∷ []

diff_test : diff snapshot target ≡ record { added = 1; changed = 1; matched = 1; source_rows = 3 }
unfolding diff left_join is_added differs
diff_test = refl

changed_keys_test : changed_keys 1 snapshot target ≡ (some 2 ∷ []) ∷ (some 4 ∷ []) ∷ []
unfolding changed_keys changed_cursor fill_batches left_join is_added differs
changed_keys_test = refl

abbrev same_source : List (Entry ℕ ℕ)
same_source = entry 1 (some 10) ∷ entry 3 none ∷ []

abbrev row : ℕ → Option Bool → ℕ → Row ℕ ℕ ℕ
row key deleted at = record {
  key = some key;
  source = none;
  deleted = deleted;
  timestamp = at;
  value = key;
}

abbrev rows : List (Row ℕ ℕ ℕ)
rows = row 1 (some true) 5 ∷ row 2 (some false) 5 ∷ row 3 (some false) 5 ∷ row 4 none 5 ∷ []

abbrev live : List (Option ℕ)
live = some 1 ∷ some 2 ∷ []

mark_test :
    mark_deleted_in_source live none 9 rows
    ≡ (row 1 (some false) 9 ∷ row 2 (some false) 5 ∷ row 3 (some true) 9 ∷ row 4 none 5 ∷ [], 2)
unfolding mark_deleted_in_source revive mark to_revive to_mark is_live in_source
mark_test = refl

mark_deleted_in_source_lem_example :
    (mark_deleted_in_source live none 9 rows
      ≡ (map (marked live none 9) rows, count (is_stale live none 9) rows))
    × (mark_deleted_in_source live none 11 (mark_deleted_in_source live none 9 rows).0
        ≡ ((mark_deleted_in_source live none 9 rows).0, 0))
mark_deleted_in_source_lem_example = mark_deleted_in_source_lem live none 11 9 rows
