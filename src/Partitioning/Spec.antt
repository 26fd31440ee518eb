-- ===== src/Partitioning/Spec.antt =====
-- `parse_spec`, `from_settings`, `effective_spec` and `unique_index_columns` of
-- src/dbextractors/core/partitioning.py, with `is_truthy` of src/dbextractors/core/config.py.
pub mod Parsing
use dbextractors.Base.{
  Bool, true, false, ◌&&◌, ◌||◌, not, Option, none, some, List, [], ◌∷◌, Text, text_Eq, codes,
  contains, ◌==◌, if◌then◌else◌, is_empty,
}
use dbextractors.Naming.Unicode.{Unicode}
use dbextractors.Partitioning.{
  RangeMode, range_day, range_month, range_year, Mode, list_mode, range_mode, PartitionSpec,
}

-- A value of the configuration that is no mapping: `None`, a bool, a text, or anything else by its
-- text and its truth.
pub data Scalar : Type 0 where
  null : Scalar
  flag : Bool → Scalar
  text : Text → Scalar
  other : Text → Bool → Scalar

pub data Setting : Type 0 where
  scalar : Scalar → Setting
  mapping : List (Text × Scalar) → Setting

-- `d.get(key)`; a key that is missing gives `default`.
abbrev pub get : Scalar → Text → List (Text × Scalar) → Scalar
get default key [] = default
get default key ((k, v) ∷ entries) = if k == key then v else get default key entries

-- `str` and `bool` of a value.
abbrev pub str : Scalar → Text
str null = codes "None"
str (flag true) = codes "True"
str (flag false) = codes "False"
str (text s) = s
str (other s truth) = s

abbrev pub truth : Scalar → Bool
truth null = false
truth (flag b) = b
truth (text s) = not (is_empty s)
truth (other s b) = b

-- `str(value or default)`
abbrev pub str_or : Scalar → Text → Text
str_or value default = if truth value then str value else default

module _ (u : Unicode) where
  -- `str.lstrip()`, `str.rstrip()` and `str.strip()`.
  unfoldable pub strip_start : Text → Text
  strip_start [] = []
  strip_start (c ∷ s) = if u.is_space c then strip_start s else c ∷ s

  unfoldable pub strip_end : Text → Text
  strip_end [] = []
  strip_end (c ∷ s) =
      let rest = strip_end s in if u.is_space c && is_empty rest then [] else c ∷ rest

  abbrev pub strip : Text → Text
  strip s = strip_end (strip_start s)

abbrev truthy_strings : List Text
truthy_strings =
    codes "true" ∷ codes "t" ∷ codes "1" ∷ codes "yes" ∷ codes "y" ∷ codes "ano" ∷ codes "a" ∷ []

unfoldable pub is_truthy : Unicode → Scalar → Bool
is_truthy u (flag b) = b
is_truthy u null = false
is_truthy u (text s) = contains (u.lower (strip u s)) truthy_strings
is_truthy u (other s b) = contains (u.lower (strip u s)) truthy_strings

abbrev pub source_column : Text
source_column = codes "_source"

unfoldable pub mode_text : Mode → Text
mode_text list_mode = codes "list"
mode_text (range_mode range_day) = codes "range_day"
mode_text (range_mode range_month) = codes "range_month"
mode_text (range_mode range_year) = codes "range_year"

-- The mode of a text that is among the valid ones.
unfoldable pub valid_mode : Text → Option Mode
unfolding mode_text
valid_mode s =
    if s == mode_text list_mode
    then some list_mode
    else if s == mode_text (range_mode range_day)
    then some (range_mode range_day)
    else if s == mode_text (range_mode range_month)
    then some (range_mode range_month)
    else if s == mode_text (range_mode range_year)
    then some (range_mode range_year)
    else none

-- The ValueErrors of `parse_spec`.
pub data SpecError : Type 0 where
  empty_column column_missing not_a_mapping unknown_mode : SpecError

pub data Parsed : Type 0 where
  parsed : Option PartitionSpec → Parsed
  refused : SpecError → Parsed

abbrev pub spec : Text → Mode → Bool → PartitionSpec
spec column mode default = record { column = column; mode = mode; default_partition = default }

-- Where `partition_by` says nothing.
abbrev pub unset : Bool → Parsed
unset legacy_by_source =
    if legacy_by_source then parsed (some (spec source_column list_mode true)) else parsed none

unfoldable pub as_dict : PartitionSpec → List (Text × Scalar)
as_dict s =
    (codes "column", text s.column)
    ∷ (codes "mode", text (mode_text s.mode))
    ∷ (codes "default_partition", flag s.default_partition)
    ∷ []

module _ (u : Unicode) where
  abbrev pub with_mode : Text → Option Mode → Bool → Parsed
  with_mode column none default = refused unknown_mode
  with_mode column (some mode) default = parsed (some (spec column mode default))

  unfoldable pub parse_mapping : List (Text × Scalar) → Parsed
  parse_mapping entries =
      let column = strip u (str_or (get null (codes "column") entries) []) in
      let mode =
        u.lower (strip u (str_or (get null (codes "mode") entries) (mode_text list_mode))) in
      let default = is_truthy u (get (flag true) (codes "default_partition") entries) in
      if is_empty column then refused column_missing else with_mode column (valid_mode mode) default

  unfoldable pub parse_spec : Setting → Bool → Parsed
  parse_spec (scalar null) legacy_by_source = unset legacy_by_source
  parse_spec (scalar (flag false)) legacy_by_source = unset legacy_by_source
  parse_spec (scalar (flag true)) legacy_by_source = refused not_a_mapping
  parse_spec (scalar (other s b)) legacy_by_source = refused not_a_mapping
  parse_spec (scalar (text s)) legacy_by_source =
      if is_empty s
      then unset legacy_by_source
      else if is_empty (strip u s)
      then refused empty_column
      else parsed (some (spec (strip u s) list_mode true))
  parse_spec (mapping entries) legacy_by_source = parse_mapping entries

  -- Of the two settings; one that is missing is `None`.
  abbrev pub from_settings : Setting → Scalar → Parsed
  from_settings partition_by partition_by_source =
      parse_spec partition_by (truth partition_by_source)

-- `_partition_by` of core/config.py: the settings of the parsed spec, or the ConfigError.
pub data Configured : Type 0 where
  configured : Option (List (Text × Scalar)) → Configured
  config_error : SpecError → Configured

-- `load_cfg.get(key, table_cfg.get(key))`
abbrev pub get_either {ℓ} : {A : Type ℓ} → A → Option A → Option A → A
get_either missing (some v) table = v
get_either missing none (some v) = v
get_either missing none none = missing

abbrev pub as_settings : Parsed → Configured
as_settings (parsed none) = configured none
as_settings (parsed (some s)) = configured (some (as_dict s))
as_settings (refused e) = config_error e

unfoldable pub partition_by :
    Unicode → Option Setting → Option Setting → Option Scalar → Option Scalar → Configured
partition_by u load table load_by_source table_by_source = as_settings (
    parse_spec u (get_either (scalar null) load table)
      (is_truthy u (get_either null load_by_source table_by_source)))

-- A field of the parsed settings.
abbrev pub field : Option (List (Text × Scalar)) → Setting
field none = scalar null
field (some entries) = mapping entries

-- What the catalogue says of the target: whether it exists, and the key it is partitioned by.
pub data TargetTable : Type 0 where
  missing ordinary : TargetTable
  partitioned_by : Text → TargetTable

-- The spec that applies, or the TargetError of a target that is partitioned by another column.
pub data Effective : Type 0 where
  applies : Option PartitionSpec → Effective
  other_column : Text → Effective

unfoldable pub effective_spec : TargetTable → Option PartitionSpec → Effective
effective_spec table none = applies none
effective_spec missing (some s) = applies (some s)
effective_spec ordinary (some s) = applies none
effective_spec (partitioned_by actual) (some s) =
    if actual == s.column then applies (some s) else other_column actual

unfoldable pub unique_index_columns : Option PartitionSpec → Text → List Text
unique_index_columns none pk = pk ∷ []
unique_index_columns (some s) pk = if s.column == pk then pk ∷ [] else pk ∷ s.column ∷ []
