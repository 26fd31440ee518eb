-- ===== src/Target/Slices.antt =====
-- The rows of one source in the target, and its fingerprint: `is_partitioned`, `ensure_partition`,
-- `replace_source_slice`, `target_holds_source`, `read_fingerprint` and `write_fingerprint` of
-- src/dbextractors/core/target_pg.py. A partitioned target is one by the list of `_source`; a row is
-- in the partition whose bounds admit its source. What PostgreSQL refuses beyond that is an input.
pub mod Cuts
use dbextractors.Base.{
  ℕ, Bool, true, false, ◌&&◌, ◌||◌, not, Option, none, some, List, [], ◌∷◌, ◌++◌, Text, text_Eq,
  ◌==◌, keep, all, length, if◌then◌else◌,
}
use dbextractors.Naming.Unicode.{Unicode}
use dbextractors.Dates.{Date}
use dbextractors.Partitioning.{list_mode}
use dbextractors.Partitioning.Names.{Value, text_value, str}
use dbextractors.Partitioning.Catalog.{
  Bounds, one_value, period, catch_all, Relation, Catalogue, relation, Outcome, ok, value_error,
  name_taken, create_failed, is_child_of, ensure_partition_for,
}

-- A row with its `_source`, NULL where the load has no label.
pub record Labelled (Row : Type 0) : Type 0 where
  pub source : Option Text
  pub values : Row

pub record Slices (Row : Type 0) : Type 0 where
  pub partitioned : Bool
  pub rows : List (Labelled Row)
  pub indexed : Bool

pub record Store (Row : Type 0) : Type 0 where
  pub target : Option (Slices Row)
  pub catalogue : Catalogue
  pub fingerprints : List (Text × Text)

abbrev pub names_source : Text → Option Text → Bool
names_source label none = false
names_source label (some s) = s == label

-- Does a partition of some value admit the source?
abbrev pub admits : Bounds → Option Text → Bool
admits (one_value value) source = names_source (str value) source
admits (period first last) source = false
admits catch_all source = false

abbrev pub accepted : Text → Catalogue → Option Text → Bool
accepted target [] source = false
accepted target (r ∷ cat) source =
    (is_child_of target r.parent && admits r.bounds source) || accepted target cat source

-- Is the row in the partition? The one for all else has what no other admits.
abbrev pub lies_in : Text → Catalogue → Bounds → Option Text → Bool
lies_in target cat (one_value value) source = admits (one_value value) source
lies_in target cat (period first last) source = false
lies_in target cat catch_all source = not (accepted target cat source)

abbrev pub is_default : Bounds → Bool
is_default (one_value value) = false
is_default (period first last) = false
is_default catch_all = true

abbrev pub has_default : Text → Catalogue → Bool
has_default target [] = false
has_default target (r ∷ cat) =
    (is_child_of target r.parent && is_default r.bounds) || has_default target cat

-- INSERT finds a partition for the row.
abbrev pub has_place : Text → Catalogue → Option Text → Bool
has_place target cat source = accepted target cat source || has_default target cat

abbrev pub from_outcome : {A : Type 0} → Outcome A → Option A
from_outcome (ok a) = some a
from_outcome value_error = none
from_outcome (name_taken n) = none
from_outcome (create_failed n) = none

module _ {Row : Type 0} where
  abbrev pub is_partitioned : Store Row → Bool
  is_partitioned db = elim db.target [ none ↦ false | some t ↦ t.partitioned ]

  abbrev pub holds : Text → List (Labelled Row) → Bool
  holds label [] = false
  holds label (r ∷ rows) = names_source label r.source || holds label rows

  unfoldable pub target_holds_source : Text → Store Row → Bool
  target_holds_source label db = elim db.target [ none ↦ false | some t ↦ holds label t.rows ]

  -- `TRUNCATE TABLE part`
  unfoldable pub truncate : Text → Catalogue → Text → List (Labelled Row) → List (Labelled Row)
  truncate target cat part rows = elim (relation part cat) [
    | none ↦ rows
    | some r ↦ keep (λ row. not (lies_in target cat r.bounds row.source)) rows
  ]

  -- `DELETE`, of one source or of all rows.
  abbrev pub delete : Option Text → List (Labelled Row) → List (Labelled Row)
  delete none rows = []
  delete (some label) rows = keep (λ row. not (names_source label row.source)) rows

unfoldable pub stored_fingerprint : Text → List (Text × Text) → Option Text
stored_fingerprint label [] = none
stored_fingerprint label ((name, mark) ∷ stored) =
    if name == label then some mark else stored_fingerprint label stored

-- `INSERT … ON CONFLICT … DO UPDATE`
unfoldable pub put_fingerprint : Text → Text → List (Text × Text) → List (Text × Text)
put_fingerprint label mark [] = (label, mark) ∷ []
put_fingerprint label mark ((name, old) ∷ stored) =
    if name == label
    then (label, mark) ∷ stored
    else (name, old) ∷ put_fingerprint label mark stored

module _ {Row : Type 0} where
  abbrev pub read_fingerprint : Text → Store Row → Option Text
  read_fingerprint label db = stored_fingerprint label db.fingerprints

  abbrev pub write_fingerprint : Text → Text → Store Row → Store Row
  write_fingerprint label mark db = record db {
    fingerprints = put_fingerprint label mark db.fingerprints;
  }

module _ (target : Text) (refuses : Catalogue → Relation → Bool) (u : Unicode)
    (digest : Text → Text) (fromisoformat : Text → Option Date) where
  unfoldable pub ensure_partition : Catalogue → Text → Outcome (Catalogue × Text)
  ensure_partition cat label =
      ensure_partition_for target refuses u digest fromisoformat list_mode cat (text_value label)

  module _ {Row : Type 0} where
    -- The partition of the source is truncated, or its rows are deleted; `none` for an exception.
    unfoldable pub cut_slice :
        Option Text → Catalogue → Slices Row → Option (Catalogue × List (Labelled Row))
    cut_slice none cat t = some (cat, delete none t.rows)
    cut_slice (some label) cat t =
        if t.partitioned
        then elim (from_outcome (ensure_partition cat label)) [
          | none ↦ none
          | some made ↦ some (made.0, truncate target made.0 made.1 t.rows)
        ]
        else some (cat, delete (some label) t.rows)

    -- The cut and the INSERT of the staged rows, with the number of the rows written.
    unfoldable pub replace_source_slice :
        Bool → Option Text → List (Labelled Row) → Store Row → Option (Store Row × ℕ)
    replace_source_slice fails label staged db = elim db.target [
      | none ↦ none
      | some t ↦ elim (cut_slice label db.catalogue t) [
        | none ↦ none
        | some cut ↦
            if fails
              || (t.partitioned && not (all (λ row. has_place target cut.0 row.source) staged))
            then none
            else some (
              record db { target = some (record t { rows = cut.1 ++ staged }); catalogue = cut.0 },
              length staged,
            )
      ]
    ]
