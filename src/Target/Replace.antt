-- ===== src/Target/Replace.antt =====
-- `replace_by_key` of src/dbextractors/core/target_pg.py: DELETE by key and INSERT, which takes the
-- place of the upsert over a partitioned target. No key of the two tables is NULL.
pub mod Refinement
use Prim.Native.Nat.{min, max}
use dbextractors.Base.{ℕ, Bool, true, false, ◌&&◌, not, Option, none, some, List, [], ◌∷◌, ◌++◌}
use dbextractors.Base.{keep, leb, length, if◌then◌else◌}
use dbextractors.Target.Table.{Table, has_key}

module _ {ℓ} {V : Type ℓ} where
  -- `SELECT MIN(key), MAX(key)`: both NULL for an empty table.
  unfoldable pub key_range : Table V → Option (ℕ × ℕ)
  key_range [] = none
  key_range ((k, v) ∷ staging) = elim (key_range staging) [
    | none ↦ some (k, k)
    | some range ↦ some (min k range.0, max k range.1)
  ]

  -- The condition of the DELETE.
  abbrev pub to_delete : Table V → ℕ → ℕ → ℕ × V → Bool
  to_delete staging low high (k, v) = has_key k staging && (leb low k && leb k high)

  -- The target between the two statements.
  unfoldable pub delete_staged : Table V → Table V → Table V
  unfolding key_range
  delete_staged staging target = elim (key_range staging) [
    | none ↦ target
    | some range ↦ keep (λ row. not (to_delete staging range.0 range.1 row)) target
  ]

  -- The target after it and the number of inserted rows, or `none` for the TargetError under
  -- autocommit.
  unfoldable pub replace_by_key : Bool → Table V → Table V → Option (Table V × ℕ)
  replace_by_key autocommit staging target =
      if autocommit then none else some (delete_staged staging target ++ staging, length staging)
