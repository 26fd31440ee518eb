-- ===== src/Tests/HashDiff.antt =====
-- A load that goes by the difference, and one whose hashes have drifted.
use dbextractors.Base.{
  ℕ, ◌+◌, ◌*◌, ◌<◌, ◌≡◌, ◌⊎◌, refl, true, false, some, List, [], ◌∷◌, flatten, length, is_none,
  nat_Eq,
}
use dbextractors.Target.Sql.{count}
use dbextractors.Target.Snapshot.{Entry, Difference, add, diff, left_join, is_added, differs}
use dbextractors.Strategies.HashDiff.{
  Situation, fallback_full, apply, Fallback, choose, precheck, target_hash_state, scan,
  reseed_reason,
}
use dbextractors.Strategies.HashDiff.Choice.{choose_apply}

abbrev ready : Situation
ready = record {
  ignores_hash = false;
  table_exists = true;
  has_key_column = true;
  has_hash_column = true;
  has_hashed_columns = true;
  has_unique_index = true;
}

abbrev entry : ℕ → ℕ → Entry ℕ ℕ
entry key hash = record { key = some key; hash = some hash }

abbrev target : List (Entry ℕ ℕ)
target = entry 1 10 ∷ entry 2 20 ∷ []

abbrev batches : List (List (Entry ℕ ℕ))
batches = (entry 1 10 ∷ []) ∷ (entry 2 21 ∷ []) ∷ []

abbrev difference : Difference
difference = record { added = 0; changed = 1; matched = 1; source_rows = 2 }

choose_test : choose ready batches false target ≡ apply difference
unfolding choose precheck target_hash_state scan add reseed_reason diff left_join is_added differs
choose_test = refl

drifted_test :
    choose ready ((entry 1 11 ∷ entry 2 21 ∷ []) ∷ []) false target
    ≡ fallback_full Fallback.hashes_drifted
unfolding choose precheck target_hash_state scan add reseed_reason diff left_join is_added differs
drifted_test = refl

choose_apply_example :
    (false ≡ false)
    × (difference ≡ diff (flatten batches) target)
    × (count (λ t. is_none t.hash) target < length target)
    × ((0 < difference.matched) ⊎ (100 * difference.changed < 95 * length target))
    × ((difference.added + difference.changed < length target)
        ⊎ (count (λ t. is_none t.hash) target ≡ 0))
choose_apply_example = choose_apply ready batches false target difference choose_test
