-- ===== src/Strategies/HashDiff/Download.antt =====
-- `_apply`, `_download` and `_read_keys` of src/dbextractors/core/strategies/hash_diff.py: the changed
-- rows are read by their keys, batch by batch, staged, and upserted into a target that is not
-- partitioned, and the deleted rows are marked. A row stands as `_prepare` returns it, by its key,
-- with the hash that the source computes.
pub mod Fetched
pub mod Upserted
pub mod Cursor
pub mod Convergence
pub mod Marks
use dbextractors.Base.{
  ℕ, Bool, true, false, ◌||◌, Option, none, some, List, [], ◌∷◌, ◌++◌, Eq, keep, map, Text,
}
use dbextractors.Base.{◌+◌, nat_Eq, nat_eq, flatten, if◌then◌else◌}
use dbextractors.Target.Sql.{sql_eq, is_distinct}
use dbextractors.Target.Table.{Table, find, upsert_from_staging}
use dbextractors.Target.Deletion.{Row, mark_deleted_in_source}
use dbextractors.Target.Snapshot.{Entry, diff, changed_keys}

pub record Hashed (H D : Type 0) : Type 0 where
  pub hash : Option H
  pub values : D

-- The key and the hash of each row, as the scan and the diff read them.
abbrev pub entries : {H D : Type 0} → Table (Hashed H D) → List (Entry ℕ H)
entries [] = []
entries ((k, r) ∷ rows) = record { key = some k; hash = r.hash } ∷ entries rows

-- `pk IN (keys)`
abbrev pub in_keys : ℕ → List (Option ℕ) → Bool
in_keys k [] = false
in_keys k (key ∷ keys) = sql_eq key (some k) || in_keys k keys

module _ {V : Type 0} where
  abbrev pub read_keys : List (Option ℕ) → Table V → Table V
  read_keys keys source = keep (λ r. in_keys r.0 keys) source

  -- The staging table after the loop over the batches of keys.
  unfoldable pub fetch : List (List (Option ℕ)) → Table V → Table V
  fetch [] source = []
  fetch (keys ∷ batches) source = read_keys keys source ++ fetch batches source

module _ {H D : Type 0} ⦃h : Eq H⦄ where
  -- `source` is both what was scanned and what is read; `none` is the exception of the upsert.
  unfoldable pub download :
      ℕ → Table (Hashed H D) → Table (Hashed H D) → Option (Table (Hashed H D))
  download batch_size source target =
      upsert_from_staging (fetch (changed_keys batch_size (entries source) (entries target)) source)
        target

  -- `_apply` up to the marks of deleted rows.
  unfoldable pub apply_changes :
      ℕ → Table (Hashed H D) → Table (Hashed H D) → Option (Table (Hashed H D))
  apply_changes batch_size source target =
      let d = diff (entries source) (entries target) in
      let to_fetch = d.added + d.changed in
      if nat_eq to_fetch 0 then some target else download batch_size source target

-- The columns of a row next to its key and its hash, the managed ones first.
pub record Managed (S V : Type 0) : Type 0 where
  pub source : Option Text
  pub deleted : Option Bool
  pub timestamp : S
  pub value : V

module _ {H S V : Type 0} where
  -- A table as `mark_deleted_in_source` reads it, and back; the hash is one of the other columns.
  abbrev pub to_row : ℕ × Hashed H (Managed S V) → Row ℕ S (Option H × V)
  to_row (k, r) = record {
    key = some k;
    source = r.values.source;
    deleted = r.values.deleted;
    timestamp = r.values.timestamp;
    value = (r.hash, r.values.value);
  }

  abbrev pub of_row : Row ℕ S (Option H × V) → Hashed H (Managed S V)
  of_row r = record {
    hash = r.value.0;
    values = record {
      source = r.source;
      deleted = r.deleted;
      timestamp = r.timestamp;
      value = r.value.1;
    };
  }

  abbrev pub of_rows : List (Row ℕ S (Option H × V)) → Table (Hashed H (Managed S V))
  of_rows [] = []
  of_rows (r ∷ rows) = elim r.key [ none ↦ of_rows rows | some k ↦ (k, of_row r) ∷ of_rows rows ]

  -- The marks of deleted rows: the snapshot has the keys of the source, and no label is given.
  abbrev pub mark_gone :
      S
      → Table (Hashed H (Managed S V))
      → Option (Table (Hashed H (Managed S V)))
      → Option (Table (Hashed H (Managed S V)))
  mark_gone now source none = none
  mark_gone now source (some t) =
      some (of_rows (mark_deleted_in_source (map (λ r. some r.0) source) none now (map to_row t)).0)

  -- `_apply`
  unfoldable pub apply_difference :
      ⦃h : Eq H⦄
      → ℕ
      → S
      → Table (Hashed H (Managed S V))
      → Table (Hashed H (Managed S V))
      → Option (Table (Hashed H (Managed S V)))
  apply_difference batch_size now source target =
      mark_gone now source (apply_changes batch_size source target)
