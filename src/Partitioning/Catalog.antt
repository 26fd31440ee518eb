-- ===== src/Partitioning/Catalog.antt =====
-- The partitions of a target: `_partition_exists`, `ensure_partition_for`, `ensure_default_partition`
-- and `ensure_partitions_from_table` of src/dbextractors/core/partitioning.py. The catalogue is the
-- state. Whether PostgreSQL refuses a CREATE TABLE is an input; one that it accepts adds the table.
pub mod Lookup
pub mod Steps
pub mod Ensured
pub mod Runs
pub mod Stored
pub mod Periodic
use dbextractors.Base.{
  Bool, true, false, Option, none, some, List, [], ◌∷◌, ◌++◌, Text, text_Eq, ◌==◌, if◌then◌else◌,
}
use dbextractors.Naming.Unicode.{Unicode}
use dbextractors.Dates.{Date}
use dbextractors.Partitioning.{Mode, list_mode, range_mode, period_bounds}
use dbextractors.Partitioning.Names.{Value, day_of, partition_ref, default_ref}

pub data Bounds : Type 0 where
  one_value : Value → Bounds
  period : Date → Date → Bounds
  catch_all : Bounds

-- A table of the schema. An ordinary table has no parent; what it is then bounded by says nothing.
pub record Relation : Type 0 where
  pub name : Text
  pub parent : Option Text
  pub bounds : Bounds

abbrev pub Catalogue : Type 0
Catalogue = List Relation

unfoldable pub relation : Text → Catalogue → Option Relation
relation name [] = none
relation name (r ∷ cat) = if r.name == name then some r else relation name cat

-- A result, or the exceptions: the ValueError or OverflowError of a value without a period (one case
-- here), the TargetError of a name that is taken, and what a CREATE raises that fails.
pub data Outcome (A : Type 0) : Type 0 where
  ok : A → Outcome A
  value_error : Outcome A
  name_taken : Text → Outcome A
  create_failed : Text → Outcome A

abbrev pub and_then : {A B : Type 0} → Outcome A → (A → Outcome B) → Outcome B
and_then (ok a) f = f a
and_then value_error f = value_error
and_then (name_taken n) f = name_taken n
and_then (create_failed n) f = create_failed n

abbrev pub is_child_of : Text → Option Text → Bool
is_child_of target none = false
is_child_of target (some p) = p == target

-- What a partition for the value is bounded by; `none` where the value has no period.
unfoldable pub bounds_for : (Text → Option Date) → Mode → Value → Option Bounds
bounds_for fromisoformat list_mode value = some (one_value value)
bounds_for fromisoformat (range_mode mode) value = elim (day_of fromisoformat value) [
  | none ↦ none
  | some day ↦ elim (period_bounds mode day) [
    | none ↦ none
    | some bounds ↦ some (period bounds.0 bounds.1)
  ]
]

module _ (target : Text) where
  unfoldable pub partition_exists : Catalogue → Text → Outcome Bool
  partition_exists cat part = elim (relation part cat) [
    | none ↦ ok false
    | some r ↦ if is_child_of target r.parent then ok true else name_taken part
  ]

  module _ (refuses : Catalogue → Relation → Bool) where
    -- `CREATE TABLE part PARTITION OF target`
    unfoldable pub create : Catalogue → Text → Bounds → Outcome (Catalogue × Text)
    create cat part bounds =
        let r : Relation = record { name = part; parent = some target; bounds = bounds } in
        if refuses cat r then create_failed part else ok (r ∷ cat, part)

    module _ (u : Unicode) (digest : Text → Text) (fromisoformat : Text → Option Date) where
      abbrev pub create_for : Mode → Catalogue → Value → Text → Bool → Outcome (Catalogue × Text)
      create_for mode cat value part true = ok (cat, part)
      create_for mode cat value part false = elim (bounds_for fromisoformat mode value) [
        | none ↦ value_error
        | some bounds ↦ create cat part bounds
      ]

      unfoldable pub ensure_partition_for : Mode → Catalogue → Value → Outcome (Catalogue × Text)
      ensure_partition_for mode cat value =
          elim (partition_ref u digest fromisoformat target mode value) [
            | none ↦ value_error
            | some part ↦
                and_then (partition_exists cat part)
                  (λ exists. create_for mode cat value part exists)
          ]

      abbrev pub create_default : Catalogue → Bool → Outcome Catalogue
      create_default cat true = ok cat
      create_default cat false =
          and_then (create cat (default_ref digest target) catch_all) (λ made. ok made.0)

      unfoldable pub ensure_default_partition : Bool → Catalogue → Outcome Catalogue
      ensure_default_partition default_partition cat =
          if default_partition
          then and_then (partition_exists cat (default_ref digest target))
              (λ exists. create_default cat exists)
          else ok cat

      -- The list comprehension over the values.
      unfoldable pub ensure_each : Mode → Catalogue → List Value → Outcome (Catalogue × List Text)
      ensure_each mode cat [] = ok (cat, [])
      ensure_each mode cat (value ∷ values) =
          and_then (ensure_partition_for mode cat value) (λ made.
            and_then (ensure_each mode made.0 values) (λ rest. ok (rest.0, made.1 ∷ rest.1)))

      -- `values` is what the SELECT DISTINCT brings.
      unfoldable pub ensure_partitions_from_table :
          Mode → Bool → Catalogue → List Value → Outcome (Catalogue × List Text)
      ensure_partitions_from_table mode default_partition cat values =
          and_then (ensure_default_partition default_partition cat)
            (λ cat'. ensure_each mode cat' values)
