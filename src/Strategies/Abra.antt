-- ===== src/Strategies/Abra.antt =====
-- The window of src/dbextractors/core/strategies/abra_watermark.py: `run` up to the read, with
-- `abra_id_suffixes`, `_watermarks` and `_abra_where`, and the expressions for the counter and the
-- suffix of an ABRA ID, which all dialects and the target render alike. A condition stands for the
-- rows that it admits; a key is a text by its bytes.
pub mod Order
pub mod Window
pub mod Suffixes
pub mod Again
use dbextractors.Base.{
  ℕ, Bool, true, false, ◌&&◌, ◌||◌, not, Option, none, some, List, [], ◌∷◌, ◌++◌, map, Text,
  text_Eq, ◌==◌, contains, keep, take, drop, is_empty, if◌then◌else◌, nat_eq, ltb, all,
}
use dbextractors.Naming.Unicode.{Unicode}

abbrev pub abra_counter_length : ℕ
abra_counter_length = 7

unfoldable pub reverse : Text → Text
reverse [] = []
reverse (c ∷ s) = reverse s ++ c ∷ []

-- The order of a text without a collation, byte by byte.
unfoldable pub bytes_lt : Text → Text → Bool
bytes_lt s [] = false
bytes_lt [] (b ∷ t) = true
bytes_lt (a ∷ s) (b ∷ t) = ltb a b || (nat_eq a b && bytes_lt s t)

unfoldable pub abra_counter : Text → Text
abra_counter key = reverse (take abra_counter_length key)

unfoldable pub abra_suffix : Text → Text
abra_suffix key = drop abra_counter_length key

-- One entry of the setting: a string, or anything else.
pub data SuffixValue : Type 0 where
  suffix_text : Text → SuffixValue
  not_a_text : SuffixValue

-- The setting: missing or otherwise false, a string, a list, or what `list` refuses.
pub data SuffixSetting : Type 0 where
  no_suffixes not_a_list : SuffixSetting
  one_suffix : Text → SuffixSetting
  suffix_list : List SuffixValue → SuffixSetting

module _ (u : Unicode) where
  -- `not value.strip()`
  abbrev pub is_blank : Text → Bool
  is_blank s = all u.is_space s

  -- The loop, with `out`; `none` for the StrategyError.
  unfoldable pub collect_suffixes : List SuffixValue → List Text → Option (List Text)
  collect_suffixes [] out = some out
  collect_suffixes (not_a_text ∷ values) out = none
  collect_suffixes (suffix_text value ∷ values) out =
      if is_blank value
      then none
      else if contains value out
      then collect_suffixes values out
      else collect_suffixes values (out ++ value ∷ [])

  abbrev collect_all : List SuffixValue → Option (List Text)
  collect_all [] = none
  collect_all (value ∷ values) = collect_suffixes (value ∷ values) []

  unfoldable pub abra_id_suffixes : SuffixSetting → Option (List Text)
  abra_id_suffixes no_suffixes = none
  abra_id_suffixes not_a_list = none
  abra_id_suffixes (one_suffix value) = collect_all (suffix_text value ∷ [])
  abra_id_suffixes (suffix_list values) = collect_all values

abbrev later_of : Text → Option Text → Text
later_of counter none = counter
later_of counter (some best) = if bytes_lt best counter then counter else best

-- `MAX` of the counters with the suffix, over the keys of the target.
unfoldable pub max_counter : Text → List Text → Option Text
max_counter suffix [] = none
max_counter suffix (key ∷ keys) =
    let rest = max_counter suffix keys in
    if abra_suffix key == suffix then some (later_of (abra_counter key) rest) else rest

unfoldable pub watermarks : List Text → List Text → List (Text × Option Text)
watermarks [] keys = []
watermarks (suffix ∷ suffixes) keys = (suffix, max_counter suffix keys) ∷ watermarks suffixes keys

abbrev pub above : Option Text → Text → Bool
above none counter = true
above (some mark) counter = bytes_lt mark counter

-- The condition, as far as it is built from the watermarks.
unfoldable pub abra_where : List (Text × Option Text) → Text → Bool
abra_where [] key = false
abra_where ((suffix, mark) ∷ marks) key =
    (abra_suffix key == suffix && above mark (abra_counter key)) || abra_where marks key

pub record AbraSettings : Type 0 where
  pub has_pk : Bool
  pub pk_is_surrogate : Bool
  pub pk_known : Bool
  pub suffix_setting : SuffixSetting
  pub has_unique_index : Bool

-- `refused` stands for the StrategyError of `validate`, `missing_index` for the exception of
-- `assert_unique_pk_index`; `reads` is the read of the keys that the condition admits.
pub data AbraEnd : Type 0 where
  refused missing_index full_for_no_target full_for_empty_target : AbraEnd
  reads : List Text → AbraEnd

module _ (u : Unicode) (settings : AbraSettings) where
  unfoldable pub validate_abra : Option (List Text)
  validate_abra =
      if not settings.has_pk || (settings.pk_is_surrogate || not settings.pk_known)
      then none
      else abra_id_suffixes u settings.suffix_setting

  -- `admitted` is the configured condition, `source` the keys of the source, `target` those of the
  -- target.
  unfoldable pub run_abra : (Text → Bool) → List Text → Option (List Text) → AbraEnd
  run_abra admitted source target = elim validate_abra [
    | none ↦ refused
    | some suffixes ↦ elim target [
      | none ↦ full_for_no_target
      | some keys ↦
          if is_empty keys
          then full_for_empty_target
          else if not settings.has_unique_index
          then missing_index
          else reads
              (keep (λ key. abra_where (watermarks suffixes keys) key && admitted key) source)
    ]
  ]
