-- ===== src/Target/Shadow.antt =====
-- `swap_shadow_table` of src/dbextractors/core/target_pg.py, with `create_parent` and `_assert_column`
-- of core/partitioning.py: the rows of a shadow table become the target's. A row stands for its
-- values in the target's columns. What PostgreSQL refuses is an input.
pub mod Laws
use dbextractors.Base.{
  ℕ, Bool, true, false, not, Option, none, some, List, [], ◌∷◌, Text, text_Eq, contains, keep,
  length, is_empty, if◌then◌else◌,
}
use dbextractors.Naming.Unicode.{Unicode}
use dbextractors.Dates.{Date}
use dbextractors.Partitioning.{PartitionSpec}
use dbextractors.Partitioning.Names.{Value}
use dbextractors.Partitioning.Catalog.{
  Relation, Catalogue, Outcome, ok, value_error, name_taken, create_failed, and_then,
  ensure_partitions_from_table,
}
use dbextractors.Partitioning.Spec.{TargetTable, missing, ordinary, partitioned_by}

-- A table with its columns and rows, and the column by which it is partitioned, if it is.
pub record Stored (Row : Type 0) : Type 0 where
  pub columns : List Text
  pub rows : List Row
  pub partition_key : Option Text

-- The target, if it exists, and the tables of the schema that may be its partitions.
pub record Database (Row : Type 0) : Type 0 where
  pub target : Option (Stored Row)
  pub catalogue : Catalogue

pub data SwapError : Type 0 where
  autocommit_on no_partition_column partition_failed insert_failed : SwapError
  missing_columns : List Text → SwapError

pub data Swapped (Row : Type 0) : Type 0 where
  swapped : Database Row → ℕ → Swapped Row
  swap_failed : SwapError → Swapped Row

-- What the catalogue says of the target.
abbrev pub table_of : {Row : Type 0} → Option (Stored Row) → TargetTable
table_of none = missing
table_of (some t) = elim t.partition_key [ none ↦ ordinary | some column ↦ partitioned_by column ]

-- What the swap takes from outside: the name of the target, the values of a column's periods as
-- SELECT DISTINCT brings them, and what the partitions need.
pub record Outside (Row : Type 0) : Type 0 where
  pub name : Text
  pub distinct_values : PartitionSpec → List Row → List Value
  pub refuses : Catalogue → Relation → Bool
  pub unicode : Unicode
  pub digest : Text → Text
  pub fromisoformat : Text → Option Date

module _ {Row : Type 0} (o : Outside Row) where
  -- Partitions for the values in the shadow, where the target is partitioned.
  unfoldable pub partitions_for :
      Option PartitionSpec → Stored Row → List Row → Catalogue → Outcome Catalogue
  partitions_for none t rows cat = ok cat
  partitions_for (some spec) t rows cat = elim t.partition_key [
    | none ↦ ok cat
    | some column ↦
        and_then
          (ensure_partitions_from_table o.name o.refuses o.unicode o.digest o.fromisoformat
            spec.mode spec.default_partition cat (o.distinct_values spec rows))
          (λ made. ok made.0)
  ]

  -- The comparison of the columns, TRUNCATE and INSERT.
  abbrev pub replace_rows : Bool → Stored Row → Stored Row → Catalogue → Swapped Row
  replace_rows insert_fails shadow t cat =
      let gone = keep (λ c. not (contains c shadow.columns)) t.columns in
      if not (is_empty gone)
      then swap_failed (missing_columns gone)
      else if insert_fails
      then swap_failed insert_failed
      else swapped (record { target = some (record t { rows = shadow.rows }); catalogue = cat })
          (length shadow.rows)

  abbrev pub replace_after : Bool → Stored Row → Stored Row → Outcome Catalogue → Swapped Row
  replace_after insert_fails shadow t (ok cat) = replace_rows insert_fails shadow t cat
  replace_after insert_fails shadow t value_error = swap_failed partition_failed
  replace_after insert_fails shadow t (name_taken n) = swap_failed partition_failed
  replace_after insert_fails shadow t (create_failed n) = swap_failed partition_failed

  unfoldable pub swap_into :
      Bool → Option PartitionSpec → Stored Row → Stored Row → Catalogue → Swapped Row
  swap_into insert_fails spec shadow t cat =
      replace_after insert_fails shadow t (partitions_for spec t shadow.rows cat)

  -- The parent that `create_parent` makes out of the shadow's shape.
  abbrev pub parent_of : Stored Row → PartitionSpec → Stored Row
  parent_of shadow spec = record {
    columns = shadow.columns;
    rows = [];
    partition_key = some spec.column;
  }

  unfoldable pub swap_open :
      Bool → Option PartitionSpec → Stored Row → Option (Stored Row) → Catalogue → Swapped Row
  swap_open insert_fails spec shadow (some t) cat = swap_into insert_fails spec shadow t cat
  swap_open insert_fails none shadow none cat =
      swapped (record { target = some shadow; catalogue = cat }) (length shadow.rows)
  swap_open insert_fails (some spec) shadow none cat =
      if contains spec.column shadow.columns
      then swap_into insert_fails (some spec) shadow (parent_of shadow spec) cat
      else swap_failed no_partition_column

  unfoldable pub swap_shadow_table :
      Bool → Bool → Option PartitionSpec → Stored Row → Database Row → Swapped Row
  swap_shadow_table autocommit insert_fails spec shadow db =
      if autocommit
      then swap_failed autocommit_on
      else swap_open insert_fails spec shadow db.target db.catalogue
