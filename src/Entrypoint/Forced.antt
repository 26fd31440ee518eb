-- ===== src/Entrypoint/Forced.antt =====
-- What a forced run chooses.
use dbextractors.Base.{
  ◌≡◌, refl, true, inl, inr, some, Text, text_Eq, codes, ◌==◌, text_beq_iff, Bool-cases,
}
use dbextractors.Base.{if◌then◌else◌}
use dbextractors.Naming.Unicode.{Unicode}
use dbextractors.Partitioning.Spec.{Scalar, flag, is_truthy}
use dbextractors.Entrypoint.{
  ChoiceSettings, full, full_by_source, clean, named_strategy, strategy_name, settings_dict,
  resume_is_watermark, parent_incremental_applies, resolve_strategy, choose_strategy,
}

-- The names of the strategies are their own clean form.
pub record KeepsNames (u : Unicode) : Type 0 where
  pub full_kept : clean u (codes "full") ≡ codes "full"
  pub full_by_source_kept : clean u (codes "full_by_source") ≡ codes "full_by_source"

module _ (u : Unicode) (keeps : KeepsNames u) (settings : ChoiceSettings) where
  abbrev forced_settings : ChoiceSettings
  forced_settings = record settings { force_reload = flag true }

  full_chosen : resolve_strategy u (codes "full") forced_settings ≡ some full
  unfolding resolve_strategy resume_is_watermark parent_incremental_applies named_strategy
  full_chosen = rw keeps.full_kept refl

  by_source_chosen :
      resolve_strategy u (codes "full_by_source") forced_settings ≡ some full_by_source
  unfolding resolve_strategy resume_is_watermark parent_incremental_applies named_strategy
  by_source_chosen = rw keeps.full_by_source_kept refl

  -- A forced run is a full load or a full load by source, whatever the method and the settings say:
  -- never one that goes by what the target remembers, and never an error. It is by source exactly if
  -- the method says so. Full loads by source are told to ignore the fingerprint.
  pub choose_strategy_forced :
      (load_method : Text) (forced : Scalar)
      → is_truthy u forced ≡ true
      → (choose_strategy u load_method settings forced ≡ (
          if clean u load_method == codes "full_by_source" then some full_by_source else some full))
        × ((settings_dict u settings forced).force_reload ≡ flag true)
  unfolding choose_strategy strategy_name settings_dict
  choose_strategy_forced load_method forced on =
      elim (Bool-cases (clean u load_method == codes "full_by_source")) [
        | inl same ↦
            let is = (text_beq_iff (clean u load_method) (codes "full_by_source")).0 same in
            (rw (on, same, is) by_source_chosen, rw on refl)
        | inr other ↦ (rw (on, other) full_chosen, rw on refl)
      ]
