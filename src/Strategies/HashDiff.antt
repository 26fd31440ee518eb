-- ===== src/Strategies/HashDiff.antt =====
-- `HashDiffStrategy.run` of src/dbextractors/core/strategies/hash_diff.py up to the choice between the
-- difference and a full load. The scan of the source is an input: the batches of keys and hashes that
-- it brings, and whether an exception ended it.
pub mod Choice
pub mod Download
use dbextractors.Base.{
  ℕ, ◌+◌, ◌*◌, Bool, true, false, ◌&&◌, not, Option, none, some, List, [], ◌∷◌, Eq,
}
use dbextractors.Base.{nat_eq, ltb, leb, is_none, length, if◌then◌else◌}
use dbextractors.Target.Sql.{count}
use dbextractors.Target.Snapshot.{Entry, Difference, add, diff}

-- Why a full load takes the place of the difference.
pub data Fallback : Type 0 where
  ignore_hash no_table no_key_column no_hash_column empty_table all_null : Fallback
  nothing_to_hash scan_failed hashes_drifted too_many : Fallback

pub record TargetHashState : Type 0 where
  pub rows : ℕ
  pub null_hashes : ℕ

-- The settings and the target's catalogue, as far as the choice reads them.
pub record Situation : Type 0 where
  pub ignores_hash : Bool
  pub table_exists : Bool
  pub has_key_column : Bool
  pub has_hash_column : Bool
  pub has_hashed_columns : Bool
  pub has_unique_index : Bool

-- The two values of `_precheck`.
pub data Checked : Type 0 where
  refused : Fallback → Checked
  passed : TargetHashState → Checked

-- `missing_index` stands for the exception of `assert_unique_pk_index`.
pub data Chosen : Type 0 where
  fallback_full : Fallback → Chosen
  missing_index : Chosen
  apply : Difference → Chosen

-- `RESEED_MISMATCH_RATIO`, in hundredths.
abbrev pub reseed_mismatch_ratio : ℕ
reseed_mismatch_ratio = 95

-- `_reseed_reason`. The quotient is exact; the source's is a float's.
unfoldable pub reseed_reason : Difference → TargetHashState → Option Fallback
reseed_reason d state =
    if nat_eq state.rows 0
    then none
    else if leb (reseed_mismatch_ratio * state.rows) (100 * d.changed) && nat_eq d.matched 0
    then some hashes_drifted
    else if leb state.rows (d.added + d.changed) && ltb 0 state.null_hashes
    then some too_many
    else none

module _ {K H : Type 0} where
  unfoldable pub target_hash_state : List (Entry K H) → TargetHashState
  target_hash_state target = record {
    rows = length target;
    null_hashes = count (λ t. is_none t.hash) target;
  }

  unfoldable pub precheck : Situation → List (Entry K H) → Checked
  unfolding target_hash_state
  precheck s target =
      let state = target_hash_state target in
      if s.ignores_hash
      then refused ignore_hash
      else if not s.table_exists
      then refused no_table
      else if not s.has_key_column
      then refused no_key_column
      else if not s.has_hash_column
      then refused no_hash_column
      else if nat_eq state.rows 0
      then refused empty_table
      else if nat_eq state.null_hashes state.rows
      then refused all_null
      else passed state

  -- `_scan`: the snapshot, or `none` where an exception ended the scan.
  unfoldable pub scan :
      List (List (Entry K H)) → Bool → List (Entry K H) → Option (List (Entry K H))
  unfolding add
  scan [] fails snapshot = if fails then none else some snapshot
  scan (batch ∷ batches) fails snapshot = scan batches fails (add batch snapshot)

module _ {K H : Type 0} ⦃k : Eq K⦄ ⦃h : Eq H⦄ where
  unfoldable pub choose : Situation → List (List (Entry K H)) → Bool → List (Entry K H) → Chosen
  choose s batches fails target = elim (precheck s target) [
    | refused reason ↦ fallback_full reason
    | passed state ↦
        if not s.has_hashed_columns
        then fallback_full nothing_to_hash
        else if not s.has_unique_index
        then missing_index
        else elim (scan batches fails []) [
          | none ↦ fallback_full scan_failed
          | some snapshot ↦ elim (reseed_reason (diff snapshot target) state) [
            | some reason ↦ fallback_full reason
            | none ↦ apply (diff snapshot target)
          ]
        ]
  ]
