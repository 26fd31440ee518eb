-- ===== src/Tests/Csv.antt =====
-- Reads of a text in two chunks, and pieces of a list.
use dbextractors.Base.{ℕ, ◌≡◌, refl, some, List, [], ◌∷◌, arith, flatten, take, ◌≤◌}
use dbextractors.Base.{false, ◌*◌, ◌⊎◌, none}
use dbextractors.Strategies.Batching.{SizeEstimate, chunked_list, resolve_batch_size}
use dbextractors.Strategies.Batching.Laws.{resolve_batch_size_bounds}
use dbextractors.Target.CsvReader.{Reader, fresh, read, reads}
use dbextractors.Target.CsvReader.Ending.{repeated, reads_end}
use dbextractors.Target.CsvReader.Refinement.{IsValid, reads_deliver, total}

abbrev chunks : List (List ℕ)
chunks = (1 ∷ 2 ∷ 3 ∷ []) ∷ (4 ∷ 5 ∷ []) ∷ []

reads_test : (reads (2 ∷ 2 ∷ 4 ∷ []) (fresh chunks)).0 ≡ (1 ∷ 2 ∷ []) ∷ (3 ∷ 4 ∷ []) ∷ (5 ∷ []) ∷ []
unfolding reads read
reads_test = refl

abbrev half_way : Reader ℕ
half_way = record {
  chunks = (4 ∷ 5 ∷ []) ∷ [];
  buffer = 1 ∷ 2 ∷ 3 ∷ [];
  offset = 2;
  exhausted = false;
}

half_way-IsValid : IsValid half_way
half_way-IsValid = record { within = omega arith; finished = λ h. cc }

reads_deliver_example :
    flatten (reads (2 ∷ 2 ∷ []) (fresh chunks)).0 ≡ take (total (2 ∷ 2 ∷ [])) (flatten chunks)
reads_deliver_example = reads_deliver chunks (2 ∷ 2 ∷ [])

chunked_list_test : chunked_list {A = ℕ} (1 ∷ 2 ∷ 3 ∷ []) 2 ≡ some ((1 ∷ 2 ∷ []) ∷ (3 ∷ []) ∷ [])
unfolding chunked_list
chunked_list_test = refl

-- 800,000 rows of 418 MB, and a configured batch of 500 rows.
abbrev estimate : SizeEstimate
estimate = record { rows = 800000; size = 41800 }

-- A configured batch below the floor of 1000 rows grows to the floor.
resolve_batch_size_test : resolve_batch_size (some 500) none (some estimate) ≡ 1000
unfolding resolve_batch_size
resolve_batch_size_test = refl

resolve_batch_size_bounds_example :
    let batch = resolve_batch_size (some 500) none (some estimate) in
    (1000 ≤ batch)
    × ((batch ≤ 500) ⊎ (batch ≡ 1000))
    × ((batch * 41800 ≤ 800000 * 40000) ⊎ (batch ≡ 1000))
resolve_batch_size_bounds_example =
    resolve_batch_size_bounds (some 500) none estimate (omega arith) (omega arith)

reads_end_example :
    (flatten (reads (repeated 3 2) (fresh chunks)).0 ≡ flatten chunks)
    × ((read (some 2) (reads (repeated 3 2) (fresh chunks)).1).0 ≡ [])
reads_end_example = reads_end chunks 3 2 (omega arith)
