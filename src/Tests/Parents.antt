-- ===== src/Tests/Parents.antt =====
-- Order lines: order 1 was changed on day 10, order 2 on day 3; the window begins on day 5.
use dbextractors.Base.{
  ℕ, ◌≡◌, refl, Bool, Option, leb, true, false, none, some, List, [], ◌∷◌, arith, nat_Eq, contains,
  keep, length, if◌then◌else◌,
}
use dbextractors.Reading.{Batch, Outcome, finished}
use dbextractors.Strategies.ParentIncremental.{
  ParentRow, ChildRow, WindowSettings, WindowFaults, nothing_in_window, replaced, window_ids,
  source_where, admitted, delete_window, insert_from_staging, stage_window, replace_window,
  run_parent,
}
use dbextractors.Strategies.ParentIncremental.Windows.{
  of_parent, batch_rows, is_touched, run_parent-of_parent,
}
use dbextractors.Strategies.ParentIncremental.Synced.{run_parent_synced}

abbrev line : ℕ → ℕ → ChildRow ℕ ℕ ℕ
line key parent = record { key = some key; parent = some parent; values = 0 }

abbrev orders : List (ParentRow ℕ)
orders =
    record { id = some 1; dates = some 10 ∷ none ∷ [] }
    ∷ record { id = some 2; dates = some 3 ∷ none ∷ [] }
    ∷ []

abbrev source : List (ChildRow ℕ ℕ ℕ)
source = line 10 1 ∷ line 99 1 ∷ line 11 1 ∷ line 20 2 ∷ []

-- Line 12 is gone from the source.
abbrev target : List (ChildRow ℕ ℕ ℕ)
target = line 10 1 ∷ line 12 1 ∷ line 20 2 ∷ []

abbrev read : List (Batch (ChildRow ℕ ℕ ℕ)) × Outcome
read = (record { has_key = true; rows = line 10 1 ∷ line 11 1 ∷ [] } ∷ [], finished)

abbrev settings : WindowSettings
settings = record { valid = true; has_pk = true }

abbrev no_faults : WindowFaults
no_faults = record { setup_fails = false; window_batch_fails = λ n. false; write_fails = false }

abbrev result : List (ChildRow ℕ ℕ ℕ)
result = line 20 2 ∷ line 10 1 ∷ line 11 1 ∷ []

window_run :
    run_parent settings no_faults 5 (some 2) read (some orders) (some target)
    ≡ replaced 2 2 2 result
unfolding run_parent replace_window stage_window delete_window insert_from_staging window_ids
window_run = refl

run_parent-of_parent_example :
    (read.1 ≡ finished)
    × ((2 ≡ length (batch_rows read.0))
        × ((2 ≡ length (batch_rows read.0))
            × (of_parent 1 result ≡ (
                if is_touched 5 orders (batch_rows read.0) 1
                then of_parent 1 (batch_rows read.0)
                else of_parent 1 target))))
run_parent-of_parent_example =
    run_parent-of_parent settings no_faults 5 (some 2) read orders target 2 2 2 result 1 window_run

-- The configured condition leaves out the keys above 90.
abbrev where_clause : Option (ChildRow ℕ ℕ ℕ → Bool)
where_clause = some (λ row. elim row.key [ none ↦ true | some k ↦ leb k 90 ])

brought : batch_rows read.0 ≡ keep (source_where where_clause 5 orders) source
unfolding source_where window_ids
brought = refl

agreed :
    (p : ℕ)
    → contains p (window_ids 5 orders) ≡ false
    → of_parent p target ≡ of_parent p (keep (admitted where_clause) source)
unfolding window_ids
agreed p h = ground arith

run_parent_synced_example : of_parent 1 result ≡ of_parent 1 (keep (admitted where_clause) source)
run_parent_synced_example =
    run_parent_synced where_clause settings no_faults 5 (some 2) read orders target source 2 2 2
      result window_run brought agreed 1

-- The only line of the window is gone from the source: the estimate is 0, and line 12 stays.
stale_line_stays :
    run_parent settings no_faults 5 (some 0) ([], finished) (some orders) (some target)
    ≡ nothing_in_window
unfolding run_parent
stale_line_stays = refl

-- The source reported two rows and streamed none: the window is emptied.
window_emptied :
    run_parent settings no_faults 5 (some 2) ([], finished) (some orders) (some target)
    ≡ replaced 0 0 2 (line 20 2 ∷ [])
unfolding run_parent replace_window stage_window delete_window insert_from_staging window_ids
window_emptied = refl
