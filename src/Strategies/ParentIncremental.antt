-- ===== src/Strategies/ParentIncremental.antt =====
-- `ParentIncrementalStrategy` of src/dbextractors/core/strategies/parent_incremental.py: `run` with
-- `_source_where`, `_replace_window`, `_delete_window` and `_insert_from_staging`. A row stands with
-- its key and its parent's key, NULL as `none`; a date by its day. Batches stand as `_prepare`
-- returns them. Columns, types and the creation of the index are left out. What fails is an input.
pub mod Windows
pub mod Synced
use dbextractors.Base.{
  ℕ, zero, suc, ◌+◌, Bool, true, false, ◌&&◌, ◌||◌, not, Option, none, some, List, [], ◌∷◌, ◌++◌,
  Eq, ◌==◌, contains, keep, length, leb, nat_eq, if◌then◌else◌,
}
use dbextractors.Reading.{Batch, Outcome, finished, failed}

-- A row of the parent table: its key, and the values of the date columns.
pub record ParentRow (K : Type 0) : Type 0 where
  pub id : Option K
  pub dates : List (Option ℕ)

pub record ChildRow (J K V : Type 0) : Type 0 where
  pub key : Option J
  pub parent : Option K
  pub values : V

pub record WindowSettings : Type 0 where
  pub valid : Bool
  pub has_pk : Bool

-- `window_batch_fails` goes by the number of the batch; `write_fails` is the DELETE or the INSERT.
pub record WindowFaults : Type 0 where
  pub setup_fails : Bool
  pub window_batch_fails : ℕ → Bool
  pub write_fails : Bool

-- How the run ends. `replaced` has the rows read, written and deleted, and the target's rows; all
-- other ends but the full loads leave the target as it was.
pub data WindowEnd (Row : Type 0) : Type 0 where
  refused full_without_target full_without_parent nothing_in_window not_replaced : WindowEnd Row
  replaced : ℕ → ℕ → ℕ → List Row → WindowEnd Row

abbrev pub since : ℕ → Option ℕ → Bool
since cutoff none = false
since cutoff (some day) = leb cutoff day

-- `c1 >= cutoff OR c2 >= cutoff`
abbrev pub any_since : ℕ → List (Option ℕ) → Bool
any_since cutoff [] = false
any_since cutoff (day ∷ days) = since cutoff day || any_since cutoff days

-- `SELECT id FROM parent WHERE …`, without NULL, which `IN` never finds.
unfoldable pub window_ids : {K : Type 0} → ℕ → List (ParentRow K) → List K
window_ids cutoff [] = []
window_ids cutoff (p ∷ parents) =
    let rest = window_ids cutoff parents in
    elim p.id [ none ↦ rest | some k ↦ if any_since cutoff p.dates then k ∷ rest else rest ]

module _ {K : Type 0} ⦃e : Eq K⦄ where
  abbrev pub is_in : Option K → List K → Bool
  is_in none ids = false
  is_in (some k) ids = contains k ids

abbrev pub parent_keys : {J K V : Type 0} → List (ChildRow J K V) → List K
parent_keys [] = []
parent_keys (r ∷ rows) = elim r.parent [ none ↦ parent_keys rows | some k ↦ k ∷ parent_keys rows ]

abbrev pub keys : {J K V : Type 0} → List (ChildRow J K V) → List J
keys [] = []
keys (r ∷ rows) = elim r.key [ none ↦ keys rows | some k ↦ k ∷ keys rows ]

abbrev pub has_repeat : {J : Type 0} ⦃e : Eq J⦄ → List J → Bool
has_repeat [] = false
has_repeat (k ∷ ks) = contains k ks || has_repeat ks

module _ {J K V : Type 0} ⦃ej : Eq J⦄ ⦃ek : Eq K⦄ where
  -- `ctx.where`, the configured condition.
  abbrev pub admitted : Option (ChildRow J K V → Bool) → ChildRow J K V → Bool
  admitted none row = true
  admitted (some where_clause) row = where_clause row

  -- The condition against the source.
  unfoldable pub source_where :
      Option (ChildRow J K V → Bool) → ℕ → List (ParentRow K) → ChildRow J K V → Bool
  source_where where_clause cutoff parents row =
      is_in row.parent (window_ids cutoff parents) && admitted where_clause row

  abbrev pub in_window : ℕ → List (ParentRow K) → List (ChildRow J K V) → ChildRow J K V → Bool
  in_window cutoff parents staged row =
      is_in row.parent (window_ids cutoff parents) || is_in row.parent (parent_keys staged)

  unfoldable pub delete_window :
      ℕ
      → List (ParentRow K)
      → List (ChildRow J K V)
      → List (ChildRow J K V)
      → List (ChildRow J K V) × ℕ
  delete_window cutoff parents staged rows = (
    keep (λ row. not (in_window cutoff parents staged row)) rows,
    length (keep (in_window cutoff parents staged) rows),
  )

  -- `none` where the unique index refuses a key.
  unfoldable pub insert_from_staging :
      Bool → List (ChildRow J K V) → List (ChildRow J K V) → Option (List (ChildRow J K V))
  insert_from_staging has_pk staged rows =
      if has_pk && has_repeat (keys (rows ++ staged)) then none else some (rows ++ staged)

  -- The loop, with the staged rows; `none` where a batch fails.
  unfoldable pub stage_window :
      WindowFaults
      → ℕ
      → List (Batch (ChildRow J K V))
      → List (ChildRow J K V)
      → Option (List (ChildRow J K V))
  stage_window faults n [] staged = some staged
  stage_window faults n (batch ∷ batches) staged =
      if faults.window_batch_fails n
      then none
      else stage_window faults (suc n) batches (staged ++ batch.rows)

  abbrev pub swap_window :
      WindowSettings
      → WindowFaults
      → ℕ
      → List (ParentRow K)
      → List (ChildRow J K V)
      → List (ChildRow J K V)
      → WindowEnd (ChildRow J K V)
  swap_window settings faults cutoff parents rows staged =
      if faults.write_fails
      then not_replaced
      else elim (insert_from_staging settings.has_pk staged
          (delete_window cutoff parents staged rows).0) [
            | none ↦ not_replaced
            | some rows' ↦
                replaced (length staged) (length staged)
                  (delete_window cutoff parents staged rows).1 rows'
          ]

  abbrev pub window_after :
      WindowSettings
      → WindowFaults
      → ℕ
      → List (ParentRow K)
      → List (ChildRow J K V)
      → Outcome
      → Option (List (ChildRow J K V))
      → WindowEnd (ChildRow J K V)
  window_after settings faults cutoff parents rows outcome none = not_replaced
  window_after settings faults cutoff parents rows (failed err) (some staged) = not_replaced
  window_after settings faults cutoff parents rows finished (some staged) =
      swap_window settings faults cutoff parents rows staged

  unfoldable pub replace_window :
      WindowSettings
      → WindowFaults
      → ℕ
      → List (ParentRow K)
      → List (Batch (ChildRow J K V)) × Outcome
      → List (ChildRow J K V)
      → WindowEnd (ChildRow J K V)
  replace_window settings faults cutoff parents read rows =
      if faults.setup_fails
      then not_replaced
      else window_after settings faults cutoff parents rows read.1 (stage_window faults 0 read.0 [])

  -- `estimate` is the number of rows that the source reports in the window, `none` for an exception;
  -- `parents` is the target's copy of the parent table.
  unfoldable pub run_parent :
      WindowSettings
      → WindowFaults
      → ℕ
      → Option ℕ
      → List (Batch (ChildRow J K V)) × Outcome
      → Option (List (ParentRow K))
      → Option (List (ChildRow J K V))
      → WindowEnd (ChildRow J K V)
  run_parent settings faults cutoff estimate read parents target =
      if not settings.valid then refused else elim target [
        | none ↦ full_without_target
        | some rows ↦ elim parents [
          | none ↦ full_without_parent
          | some copy ↦ elim estimate [
            | none ↦ not_replaced
            | some n ↦
                if nat_eq n 0
                then nothing_in_window
                else replace_window settings faults cutoff copy read rows
          ]
        ]
      ]
