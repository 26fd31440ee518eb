-- ===== src/Tests/Abra.antt =====
-- ABRA IDs of a table, as in the dialects' example: `Z000000101` is older than `0100000101`.
use dbextractors.Base.{
  ◌≡◌, refl, true, false, Bool, some, List, [], ◌∷◌, Text, codes, text_Eq, arith, ltb, take,
}
use dbextractors.Naming.Unicode.{ascii}
use dbextractors.Strategies.Abra.{
  abra_counter, abra_counter_length, abra_suffix, reverse, bytes_lt, suffix_text, suffix_list,
  SuffixSetting, collect_suffixes, abra_id_suffixes, watermarks, max_counter, abra_where,
  AbraSettings, reads, validate_abra, run_abra,
}
use dbextractors.Strategies.Abra.Order.{number, abra_counter_order}
use dbextractors.Strategies.Abra.Window.{is_new, abra_where-is_new}
use dbextractors.Strategies.Abra.Again.{run_abra_again}

abbrev older : Text
older = codes "Z000000101"

abbrev newer : Text
newer = codes "0100000101"

abra_counter_order_example :
    bytes_lt (abra_counter older) (abra_counter newer)
    ≡ ltb (number (take abra_counter_length older)) (number (take abra_counter_length newer))
abra_counter_order_example =
    abra_counter_order older newer refl refl
      (refl, (refl, (refl, (refl, (refl, (refl, (refl, tt)))))))
      (refl, (refl, (refl, (refl, (refl, (refl, (refl, tt)))))))

older_first : bytes_lt (abra_counter older) (abra_counter newer) ≡ true
unfolding abra_counter reverse bytes_lt
older_first = refl

abbrev suffixes : List Text
suffixes = codes "101" ∷ codes "102" ∷ []

abra_where-is_new_example :
    abra_where (watermarks suffixes (older ∷ [])) newer ≡ is_new suffixes (older ∷ []) newer
abra_where-is_new_example = abra_where-is_new suffixes (older ∷ []) newer

abbrev setting : SuffixSetting
setting =
    suffix_list
      (suffix_text (codes "101") ∷ suffix_text (codes "102") ∷ suffix_text (codes "101") ∷ [])

abbrev settings : AbraSettings
settings = record {
  has_pk = true;
  pk_is_surrogate = false;
  pk_known = true;
  suffix_setting = setting;
  has_unique_index = true;
}

abbrev source : List Text
source = older ∷ newer ∷ codes "0000000102" ∷ codes "0000000103" ∷ []

abbrev all_rows : Text → Bool
all_rows key = true

valid : validate_abra ascii settings ≡ some suffixes
unfolding validate_abra abra_id_suffixes collect_suffixes
valid = refl

first_run :
    run_abra ascii settings all_rows source (some (older ∷ []))
    ≡ reads (newer ∷ codes "0000000102" ∷ [])
unfolding run_abra validate_abra abra_id_suffixes collect_suffixes abra_where watermarks max_counter
    abra_counter abra_suffix reverse bytes_lt
first_run = refl

run_abra_again_example :
    run_abra ascii settings all_rows source (some (older ∷ newer ∷ codes "0000000102" ∷ []))
    ≡ reads []
run_abra_again_example =
    run_abra_again ascii settings suffixes all_rows source (older ∷ [])
      (newer ∷ codes "0000000102" ∷ []) (older ∷ newer ∷ codes "0000000102" ∷ []) valid first_run
      (λ k h. ground arith) (λ k h. ground arith)
