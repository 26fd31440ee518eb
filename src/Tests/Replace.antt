-- ===== src/Tests/Replace.antt =====
-- Two staged rows over a target of two, one of which they replace.
use dbextractors.Base.{ℕ, ◌≡◌, refl, false, some, [], ◌∷◌, length}
use dbextractors.Target.Table.{Table, find, has_duplicate, put_all, put, upsert_from_staging}
use dbextractors.Target.Replace.{key_range, delete_staged, replace_by_key}
use dbextractors.Target.Replace.Refinement.{replace_by_key-upsert}

abbrev staging : Table ℕ
staging = (2, 21) ∷ (5, 50) ∷ []

abbrev target : Table ℕ
target = (1, 10) ∷ (2, 20) ∷ []

replace_test : replace_by_key false staging target ≡ some ((1, 10) ∷ (2, 21) ∷ (5, 50) ∷ [], 2)
unfolding replace_by_key delete_staged key_range
replace_test = refl

upsert_test : upsert_from_staging staging target ≡ some ((1, 10) ∷ (2, 21) ∷ (5, 50) ∷ [])
unfolding upsert_from_staging has_duplicate put_all put
upsert_test = refl

replace_by_key-upsert_example :
    (out : Table ℕ) × (replace_by_key false staging target ≡ some (out, length staging))
    × ((j : ℕ) → find j out ≡ find j ((1, 10) ∷ (2, 21) ∷ (5, 50) ∷ []))
replace_by_key-upsert_example = replace_by_key-upsert staging target _ upsert_test
