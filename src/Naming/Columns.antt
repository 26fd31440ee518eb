-- ===== src/Naming/Columns.antt =====
-- `target_column_names` and `reconcile_with_existing` of src/dbextractors/core/naming.py: the
-- columns of the target, their order, and the collisions.
pub mod Distinct
pub mod Answer
pub mod Reconcile
use dbextractors.Base.{ℕ, Bool, true, false, not, Option, none, some, List, [], ◌∷◌, ◌++◌}
use dbextractors.Base.{Text, text_Eq, ◌==◌, contains, if◌then◌else◌, is_empty, is_some, keep}
use dbextractors.Naming.Unicode.{Unicode}
use dbextractors.Naming.Mapping.{create_column_mapping}
use dbextractors.Naming.Reserved.{clean_column_name}

-- A Python dictionary from text to text, by its entries.
abbrev pub Dictionary : Type 0
Dictionary = List (Text × Text)

abbrev pub get : Text → Dictionary → Option Text
get k [] = none
get k ((j, v) ∷ d) = if j == k then some v else get k d

-- The local variables of the two loops.
pub record Columns : Type 0 where
  pub ordered : List Text
  pub origin : Dictionary

abbrev pub no_columns : Columns
no_columns = record { ordered = []; origin = [] }

-- The names, or the exceptions: `ColumnNameCollision` with both sources and the name they share,
-- and `KeyError` of `mapping[src]`.
pub data Named (A : Type 0) : Type 0 where
  named : A → Named A
  column_name_collision : Text → Text → Text → Named A
  key_error : Text → Named A

-- `origin[target] = src; ordered.append(target)`
unfoldable pub add : Text → Text → Columns → Columns
add target src cols = record {
  ordered = cols.ordered ++ target ∷ [];
  origin = (target, src) ∷ cols.origin;
}

module _ (u : Unicode) where
  unfoldable pub add_sources : Dictionary → List Text → Columns → Named Columns
  add_sources mapping [] cols = named cols
  add_sources mapping (src ∷ rest) cols = elim (get src mapping) [
    | none ↦ key_error src
    | some name ↦
        let target = clean_column_name u false name in
        elim (get target cols.origin) [
          | some previous ↦ column_name_collision previous src target
          | none ↦ add_sources mapping rest (add target src cols)
        ]
  ]

  -- A generated column that the source has keeps the source's place.
  unfoldable pub add_generated : List Text → Columns → Columns
  add_generated [] cols = cols
  add_generated (name ∷ rest) cols =
      let target = clean_column_name u false name in
      add_generated rest (if is_some (get target cols.origin) then cols else add target name cols)

  -- `if hash_column`: neither `None` nor the empty text names a column.
  unfoldable pub hash_names : Option Text → Named (List Text)
  hash_names none = named []
  hash_names (some h) =
      if is_empty h then named [] else elim (get h (create_column_mapping u (h ∷ []))) [
        | none ↦ key_error h
        | some name ↦ named (name ∷ [])
      ]

  abbrev generate : List Text → Columns → Named (List Text) → Named (List Text)
  generate metadata cols (named hash) = named (add_generated (hash ++ metadata) cols).ordered
  generate metadata cols (column_name_collision p s t) = column_name_collision p s t
  generate metadata cols (key_error s) = key_error s

  abbrev continue : Named Columns → (Columns → Named (List Text)) → Named (List Text)
  continue (named cols) next = next cols
  continue (column_name_collision p s t) next = column_name_collision p s t
  continue (key_error s) next = key_error s

  unfoldable pub target_column_names : List Text → Option Text → List Text → Named (List Text)
  target_column_names src_columns hash_column metadata =
      continue (add_sources (create_column_mapping u src_columns) src_columns no_columns)
        (λ cols. generate metadata cols (hash_names hash_column))

unfoldable pub reconcile_with_existing : List Text → List Text → List Text
reconcile_with_existing desired existing =
    let out = keep (λ c. contains c desired) existing in
    if is_empty existing then desired else out ++ keep (λ c. not (contains c out)) desired
