-- ===== src/Tests/SeenKeys.antt =====
-- Two batches that overlap, with a row that has no key. A row is its key and its value; the text of a
-- missing value is 999.
use dbextractors.Base.{ℕ, ◌≡◌, refl, true, not, Option, none, some, List, [], ◌∷◌, nat_Eq, keep}
use dbextractors.Target.SeenKeys.{filter_new, filter_batches}
use dbextractors.Target.SeenKeys.Laws.{has_key}
use dbextractors.Target.SeenKeys.Nulls.{filter_new_nulls}

abbrev key : Option ℕ × ℕ → Option ℕ
key (k, _) = k

abbrev first : List (Option ℕ × ℕ)
first = (some 1, 10) ∷ (some 2, 20) ∷ (none, 30) ∷ []

abbrev second : List (Option ℕ × ℕ)
second = (some 2, 20) ∷ (some 3, 40) ∷ (none, 50) ∷ []

-- The second batch loses its row without a key, the first does not.
filter_batches_test :
    (filter_batches key 999 (first ∷ second ∷ []) []).0 ≡ first ∷ ((some 3, 40) ∷ []) ∷ []
unfolding filter_batches filter_new
filter_batches_test = refl

filter_new_nulls_example :
    keep (λ r. not (has_key key r)) (filter_new key 999 true second (1 ∷ 2 ∷ [])).0 ≡ []
filter_new_nulls_example = filter_new_nulls key 999 second (1 ∷ 2 ∷ []) refl
