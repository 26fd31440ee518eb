-- ===== src/Strategies/Watermark/Run.antt =====
-- `IdWatermarkStrategy.run`, with the checks of the key in `validate` and with `_watermark`, of
-- src/dbextractors/core/strategies/id_watermark.py: whether rows above the watermark are loaded, or a
-- full load takes its place.
pub mod Again
use dbextractors.Base.{
  ℕ, Bool, true, false, ◌||◌, not, Option, none, some, List, nat_eq, if◌then◌else◌,
}
use dbextractors.Target.Table.{Table, max_pk}
use dbextractors.Strategies.Watermark.{Event, Ending, Status, load_new_rows}

pub data FullReason : Type 0 where
  no_target empty_target_table : FullReason

pub record KeySettings : Type 0 where
  pub has_pk : Bool
  pub pk_known : Bool
  pub has_unique_index : Bool
  pub pk_in_source : Bool
  pub checkpoint_setting : Option ℕ

-- `refused` stands for the StrategyError of `validate`, `missing_index` for the exception of
-- `assert_unique_pk_index`, and `no_estimate` for that of the size estimate.
pub data RunEnd (V : Type 0) : Type 0 where
  refused missing_index no_estimate nothing_new : RunEnd V
  fell_back : FullReason → RunEnd V
  loaded : Status V → RunEnd V

module _ {V : Type 0} (k : KeySettings) where
  -- From the watermark on; the estimate, the batches and their ending are those of the query above it.
  unfoldable pub run_above :
      (ℕ → Option ℕ) → (ℕ → List (Event V)) → (ℕ → Ending) → Table V → ℕ → RunEnd V
  run_above estimate events ending t watermark =
      if not k.has_unique_index then missing_index else elim (estimate watermark) [
        | none ↦ no_estimate
        | some rows ↦
            if nat_eq rows 0
            then nothing_new
            else loaded (
                load_new_rows k.pk_in_source k.checkpoint_setting (events watermark)
                  (ending watermark) t)
      ]

  unfoldable pub run_watermark :
      (ℕ → Option ℕ) → (ℕ → List (Event V)) → (ℕ → Ending) → Option (Table V) → RunEnd V
  run_watermark estimate events ending target =
      if not k.has_pk || not k.pk_known then refused else elim target [
        | none ↦ fell_back no_target
        | some t ↦ elim (max_pk t) [
          | none ↦ fell_back empty_target_table
          | some watermark ↦ run_above estimate events ending t watermark
        ]
      ]
