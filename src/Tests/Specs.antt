-- ===== src/Tests/Specs.antt =====
-- A `partition_by` of the configuration, parsed twice.
use dbextractors.Base.{◌≡◌, refl, true, none, some, List, [], ◌∷◌, codes, Text}
use dbextractors.Naming.Unicode.{ascii}
use dbextractors.Partitioning.{Mode, list_mode, range_mode, range_day, range_month, range_year}
use dbextractors.Partitioning.Spec.{
  Scalar, text, flag, Setting, mapping, strip, strip_start, strip_end, is_truthy, mode_text,
  valid_mode, as_dict, parse_mapping, parse_spec, configured, partition_by,
}
use dbextractors.Partitioning.Spec.Parsing.{KeepsNames}

keeps_modes : (mode : Mode) → ascii.lower (strip ascii (mode_text mode)) ≡ mode_text mode
unfolding strip_start strip_end mode_text
keeps_modes list_mode = refl
keeps_modes (range_mode range_day) = refl
keeps_modes (range_mode range_month) = refl
keeps_modes (range_mode range_year) = refl

ascii-KeepsNames : KeepsNames ascii
unfolding strip_start strip_end
ascii-KeepsNames = record { keeps_mode = keeps_modes; keeps_source = refl }

abbrev by_month : Setting
by_month =
    mapping
      ((codes "column", text (codes " day ")) ∷ (codes "mode", text (codes "Range_Month")) ∷ [])

abbrev by_month_settings : List (Text × Scalar)
by_month_settings =
    (codes "column", text (codes "day"))
    ∷ (codes "mode", text (codes "range_month"))
    ∷ (codes "default_partition", flag true)
    ∷ []

configured_test :
    partition_by ascii (some by_month) none none none ≡ configured (some by_month_settings)
unfolding partition_by parse_spec parse_mapping as_dict is_truthy valid_mode mode_text strip_start
    strip_end
configured_test = refl
