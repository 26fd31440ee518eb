-- ===== src/Strategies/Fingerprint.antt =====
-- `_fingerprint` and `_fingerprint_key` of src/dbextractors/core/strategies/full_by_source.py. The
-- answer of the source's database is a parameter: `none` where the query fails or brings no row.
pub mod Parts
use dbextractors.Base.{
  ℕ, Bool, true, false, Option, none, some, List, [], ◌∷◌, ◌++◌, Text, text_Eq, codes, ◌==◌,
  contains, if◌then◌else◌,
}
use dbextractors.Base.Decimal.{decimal}

-- The fingerprint's part of the configuration; no part_text stands for an empty or a missing one.
pub record FingerprintConfig : Type 0 where
  pub mode : Text
  pub primary_column : Text
  pub timestamp_column : Text
  pub aggregate_columns : List Text

pub record Query : Type 0 where
  pub pk : Option Text
  pub timestamp : Option Text
  pub aggregates : List Text

-- The row of the answer. The maxima stand by their texts, the aggregate by its six decimals.
pub record FingerprintParts : Type 0 where
  pub count : ℕ
  pub max_id : Option Text
  pub max_ts : Option Text
  pub agg : Option Text

abbrev pub bar : ℕ
bar = b'|'

abbrev pub part_text : Option Text → Text
part_text none = []
part_text (some value) = value

-- `"|".join(...)`
unfoldable pub fingerprint_key : FingerprintParts → Text
fingerprint_key parts =
    decimal parts.count
    ++ bar ∷ (part_text parts.max_id ++ bar ∷ (part_text parts.max_ts ++ bar ∷ part_text parts.agg))

abbrev switched_off : List Text
switched_off = codes "off" ∷ codes "none" ∷ [] ∷ []

abbrev or_default : Text → Text → Text
or_default [] other = other
or_default (c ∷ s) other = c ∷ s

module _ (lower : Text → Text) where
  -- `by_lower_name.get(...)`: of columns with one name in lower case, the last.
  unfoldable pub actual_column : Text → List Text → Option Text
  actual_column name [] = none
  actual_column name (column ∷ columns) = elim (actual_column name columns) [
    | some found ↦ some found
    | none ↦ if lower column == name then some column else none
  ]

  unfoldable pub find_column : List Text → Text → Option Text
  find_column source_names [] = none
  find_column source_names (c ∷ name) = actual_column (lower (c ∷ name)) source_names

  unfoldable pub find_columns : List Text → List Text → List Text
  find_columns source_names [] = []
  find_columns source_names (name ∷ names) = elim (find_column source_names name) [
    | none ↦ find_columns source_names names
    | some column ↦ column ∷ find_columns source_names names
  ]

  -- The mode in lower case, "off" where it is missing.
  abbrev pub mode_of : FingerprintConfig → Text
  mode_of cfg = lower (or_default cfg.mode (codes "off"))

  unfoldable pub fingerprint_query : FingerprintConfig → Text → List Text → Query
  fingerprint_query cfg primary_setting source_names = record {
    pk = find_column source_names (or_default cfg.primary_column primary_setting);
    timestamp =
        if mode_of cfg == codes "datsave"
        then find_column source_names cfg.timestamp_column
        else none;
    aggregates =
        if mode_of cfg == codes "aggregate"
        then find_columns source_names cfg.aggregate_columns
        else [];
  }

  unfoldable pub fingerprint :
      FingerprintConfig
      → Text
      → List Text
      → (Query → Option FingerprintParts)
      → Option (Text × FingerprintParts)
  fingerprint cfg primary_setting source_names answer =
      if contains (mode_of cfg) switched_off
      then none
      else elim (answer (fingerprint_query cfg primary_setting source_names)) [
        | none ↦ none
        | some parts ↦ some (fingerprint_key parts, parts)
      ]
