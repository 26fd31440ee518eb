-- ===== src/Tests/Download.antt =====
-- A difference of three rows, applied.
use dbextractors.Base.{
  Bool, true, none, ℕ, ◌+◌, ◌≡◌, refl, false, ◌&&◌, some, [], ◌∷◌, nat_Eq, if◌then◌else◌,
}
use dbextractors.Target.Table.{
  Table, find, put, put_all, has_key, has_duplicate, upsert_from_staging,
}
use dbextractors.Target.Snapshot.{
  diff, changed_cursor, changed_keys, fill_batches, left_join, is_added, differs,
}
use dbextractors.Strategies.HashDiff.Download.{
  Hashed, entries, in_keys, fetch, download, Managed, apply_difference, apply_changes,
}
use dbextractors.Strategies.HashDiff.Download.Convergence.{stale_of}
use dbextractors.Strategies.HashDiff.Download.Marks.{mark_found, apply_difference-diff}

abbrev hashed : ℕ → ℕ → Hashed ℕ ℕ
hashed hash values = record { hash = some hash; values = values }

abbrev source : Table (Hashed ℕ ℕ)
source = (1, hashed 11 100) ∷ (2, hashed 22 200) ∷ (3, hashed 33 300) ∷ []

abbrev target : Table (Hashed ℕ ℕ)
target = (1, hashed 11 100) ∷ (2, hashed 20 199) ∷ (4, hashed 44 400) ∷ []

apply_changes_test :
    apply_changes 1 source target
    ≡ some ((1, hashed 11 100) ∷ (2, hashed 22 200) ∷ (4, hashed 44 400) ∷ (3, hashed 33 300) ∷ [])
unfolding apply_changes download fetch upsert_from_staging put_all put has_duplicate diff
    changed_cursor changed_keys fill_batches left_join is_added differs
apply_changes_test = refl

abbrev managed : ℕ → Bool → ℕ → Hashed ℕ (Managed ℕ ℕ)
managed hash deleted value = record {
  hash = some hash;
  values = record { source = none; deleted = some deleted; timestamp = 5; value = value };
}

-- Row 3 is new, row 2 is back, and row 4 is gone.
abbrev live_source : Table (Hashed ℕ (Managed ℕ ℕ))
live_source = (1, managed 11 false 100) ∷ (2, managed 22 false 200) ∷ (3, managed 33 false 300) ∷ []

abbrev old_target : Table (Hashed ℕ (Managed ℕ ℕ))
old_target = (1, managed 11 false 100) ∷ (2, managed 22 true 200) ∷ (4, managed 44 false 400) ∷ []

live_unique : has_duplicate live_source ≡ false
unfolding has_duplicate
live_unique = refl

old_unique : has_duplicate old_target ≡ false
unfolding has_duplicate
old_unique = refl

apply_difference-diff_example :
    (t : Table (Hashed ℕ (Managed ℕ ℕ))) × ((apply_difference 1 9 live_source old_target ≡ some t)
      × (((k : ℕ)
            → find k t
              ≡ mark_found (has_key k live_source) 9 (
                  if in_keys k (stale_of live_source old_target) && has_key k live_source
                  then find k live_source
                  else find k old_target))
          × (((diff (entries live_source) (entries t)).added
                  + (diff (entries live_source) (entries t)).changed
                ≡ 0)
              × (changed_cursor (entries live_source) (entries t) ≡ []))))
apply_difference-diff_example =
    apply_difference-diff 1 9 live_source old_target live_unique old_unique
