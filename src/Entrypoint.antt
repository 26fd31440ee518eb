-- ===== src/Entrypoint.antt =====
-- `_run` of src/dbextractors/entrypoint.py, with `resolve_dialect`, `_strategy_name`,
-- `_settings_dict` and `resolve_databases`, and `resolve_strategy` of core/strategies/base.py. What
-- the run of one database does is a parameter; the tunnel and the status frame are left out.
pub mod Statuses
pub mod Forced
pub mod Sources
use dbextractors.Base.{
  ℕ, Bool, true, false, ◌&&◌, not, Option, none, some, List, [], ◌∷◌, Text, text_Eq, codes, ◌==◌,
  contains, keep, length, is_empty, or_else, if◌then◌else◌, ltb,
}
use dbextractors.Naming.Unicode.{Unicode}
use dbextractors.Partitioning.Spec.{Scalar, null, flag, text, other, truth, strip, is_truthy}

pub data Dialect : Type 0 where
  mysql mssql postgres firebird : Dialect

pub data Strategy : Type 0 where
  full incremental hash_diff id_watermark abra_watermark full_by_source parent_incremental :
      Strategy

-- What of the settings the choice goes by.
pub record ChoiceSettings : Type 0 where
  pub force_reload : Scalar
  pub resume_full_load : Scalar
  pub incremental_parent_table : Scalar

abbrev dialect_names : Text → Option Dialect
dialect_names key =
    if key == codes "mysql"
    then some mysql
    else if key == codes "mssql"
    then some mssql
    else if key == codes "postgres"
    then some postgres
    else if key == codes "firebird"
    then some firebird
    else none

abbrev pub strategies : List (Text × Strategy)
strategies =
    (codes "full", full)
    ∷ (codes "incremental", incremental)
    ∷ (codes "hash", hash_diff)
    ∷ (codes "hash_diff", hash_diff)
    ∷ (codes "id_watermark", id_watermark)
    ∷ (codes "abra_watermark", abra_watermark)
    ∷ (codes "full_by_source", full_by_source)
    ∷ (codes "parent_incremental", parent_incremental)
    ∷ []

unfoldable pub named_strategy : Text → List (Text × Strategy) → Option Strategy
named_strategy key [] = none
named_strategy key ((name, strategy) ∷ known) =
    if name == key then some strategy else named_strategy key known

module _ (u : Unicode) where
  abbrev pub clean : Text → Text
  clean name = u.lower (strip u name)

  -- `none` for the EntrypointError.
  unfoldable pub resolve_dialect : Text → Option Dialect
  resolve_dialect name =
      dialect_names (if clean name == codes "postgresql" then codes "postgres" else clean name)

  -- `forced` is the runtime variable `forced_full_load`.
  unfoldable pub strategy_name : Text → Scalar → Text
  strategy_name load_method forced =
      if not (is_truthy u forced)
      then clean load_method
      else if clean load_method == codes "full_by_source"
      then clean load_method
      else codes "full"

  unfoldable pub settings_dict : ChoiceSettings → Scalar → ChoiceSettings
  settings_dict settings forced =
      if is_truthy u forced then record settings { force_reload = flag true } else settings

  abbrev resume_strings : List Text
  resume_strings = codes "true" ∷ codes "1" ∷ codes "yes" ∷ codes "ano" ∷ []

  abbrev asks_resume : Scalar → Bool
  asks_resume null = false
  asks_resume (flag b) = b
  asks_resume (text s) = contains (clean s) resume_strings
  asks_resume (other s b) = b

  unfoldable pub resume_is_watermark : Text → ChoiceSettings → Bool
  resume_is_watermark load_method settings =
      load_method == codes "full"
      && (not (truth settings.force_reload) && asks_resume settings.resume_full_load)

  unfoldable pub parent_incremental_applies : Text → ChoiceSettings → Bool
  parent_incremental_applies load_method settings =
      load_method == codes "incremental" && truth settings.incremental_parent_table

  -- `none` for the StrategyError.
  unfoldable pub resolve_strategy : Text → ChoiceSettings → Option Strategy
  resolve_strategy load_method settings =
      let key = clean load_method in
      if resume_is_watermark key settings
      then some id_watermark
      else if parent_incremental_applies key settings
      then some parent_incremental
      else named_strategy key strategies

  -- What `_run` chooses.
  unfoldable pub choose_strategy : Text → ChoiceSettings → Scalar → Option Strategy
  choose_strategy load_method settings forced =
      resolve_strategy (strategy_name load_method forced) (settings_dict settings forced)

pub data Databases : Type 0 where
  no_database nothing_selected : Databases
  selected : List Text → Databases

-- `databases` is the list of the configuration, `database` that of SOURCE_DB, without text if missing.
unfoldable pub resolve_databases : Option (List Text) → Text → Databases
resolve_databases none [] = no_database
resolve_databases none (c ∷ database) = selected ((c ∷ database) ∷ [])
resolve_databases (some []) database = nothing_selected
resolve_databases (some (d ∷ databases)) database = selected (d ∷ databases)

-- A row of the status frame, as far as the summary reads it.
pub record SourceStatus : Type 0 where
  pub source : Option Text
  pub success : Bool

-- How `_run` ends, with the state that the runs of the databases leave.
pub data RunReport (S : Type 0) : Type 0 where
  unknown_dialect unknown_method without_database nothing_to_do : RunReport S
  reported : List SourceStatus → S → RunReport S
  extraction_failed : List SourceStatus → S → RunReport S

abbrev pub label_of : Bool → Text → Option Text
label_of multi database = if multi then some database else none

abbrev pub has_failed : SourceStatus → Bool
has_failed status = not status.success

module _ {S : Type 0} (run_one : Option Text → Text → Bool → Bool → S → Bool × S) where
  -- The loop. `run_one` takes the label, the database, and whether it is the first and the last one,
  -- and tells whether it ended without an exception.
  unfoldable pub run_databases : Bool → Bool → List Text → S → List SourceStatus × S
  run_databases multi first [] st = ([], st)
  run_databases multi first (database ∷ databases) st =
      let (success, st') =
        run_one (label_of multi database) database first (is_empty databases) st in
      let (statuses, st'') = run_databases multi false databases st' in
      (record { source = label_of multi database; success = success } ∷ statuses, st'')

  abbrev pub summary : List SourceStatus × S → RunReport S
  summary (statuses, st) =
      if is_empty (keep has_failed statuses)
      then reported statuses st
      else extraction_failed (keep has_failed statuses) st

  -- `multi_source` is the setting, `none` where it says nothing.
  unfoldable pub run_selected : Option Bool → List Text → S → RunReport S
  run_selected multi_source databases st =
      summary (run_databases (or_else multi_source (ltb 1 (length databases))) true databases st)

abbrev pub after_databases : {S : Type 0} → Databases → (List Text → RunReport S) → RunReport S
after_databases no_database go = without_database
after_databases nothing_selected go = nothing_to_do
after_databases (selected databases) go = go databases

-- `run_one` gets the strategy that was chosen.
unfoldable pub run_all :
    {S : Type 0}
    → Unicode
    → Text
    → Text
    → ChoiceSettings
    → Scalar
    → Option (List Text)
    → Text
    → Option Bool
    → (Dialect → Strategy → Option Text → Text → Bool → Bool → S → Bool × S)
    → S
    → RunReport S
run_all u dialect load_method settings forced databases database multi_source run_one st =
    elim (resolve_dialect u dialect) [
      | none ↦ unknown_dialect
      | some d ↦ elim (choose_strategy u load_method settings forced) [
        | none ↦ unknown_method
        | some strategy ↦
            after_databases (resolve_databases databases database)
              (λ chosen. run_selected (run_one d strategy) multi_source chosen st)
      ]
    ]
