-- ===== src/Target/Table.antt =====
-- A table of PostgreSQL with a unique key, as far as the package's statements read and write it:
-- `SELECT MAX(pk)`, and `INSERT … SELECT … ON CONFLICT (pk) DO UPDATE` out of a staging table, which
-- is the statement of `_upsert_from_staging` in src/dbextractors/core/strategies/incremental.py.
pub mod Laws
use Prim.Native.Nat.{max}
use dbextractors.Base.{ℕ, Bool, true, false, ◌||◌, Option, none, some, List, [], ◌∷◌, nat_eq}
use dbextractors.Base.{if◌then◌else◌}

-- The rows by their key.
abbrev pub Table {ℓ} : Type ℓ → Type ℓ
Table V = List (ℕ × V)

module _ {ℓ} {V : Type ℓ} where
  unfoldable pub find : ℕ → Table V → Option V
  find k [] = none
  find k ((j, v) ∷ t) = if nat_eq j k then some v else find k t

  -- One row inserted, or updated where the key is there.
  unfoldable pub put : ℕ → V → Table V → Table V
  put k v [] = (k, v) ∷ []
  put k v ((j, w) ∷ t) = if nat_eq j k then (k, v) ∷ t else (j, w) ∷ put k v t

  unfoldable pub put_all : Table V → Table V → Table V
  unfolding put
  put_all t [] = t
  put_all t ((k, v) ∷ rows) = put_all (put k v t) rows

  abbrev pub has_key : ℕ → Table V → Bool
  has_key k [] = false
  has_key k ((j, v) ∷ t) = nat_eq j k || has_key k t

  unfoldable pub has_duplicate : Table V → Bool
  has_duplicate [] = false
  has_duplicate ((k, v) ∷ rows) = has_key k rows || has_duplicate rows

  -- The statement fails where two staged rows have one key ("cannot affect row a second time").
  unfoldable pub upsert_from_staging : Table V → Table V → Option (Table V)
  unfolding has_duplicate put_all
  upsert_from_staging staging t = if has_duplicate staging then none else some (put_all t staging)

  -- `SELECT MAX(pk)`: NULL for an empty table.
  unfoldable pub max_pk : Table V → Option ℕ
  max_pk [] = none
  max_pk ((k, v) ∷ t) = elim (max_pk t) [ none ↦ some k | some m ↦ some (max k m) ]
