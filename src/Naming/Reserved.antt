-- ===== src/Naming/Reserved.antt =====
-- `apply_reserved_word_prefix` and `clean_column_name` of src/dbextractors/core/naming.py.
use dbextractors.Base.{◌≡◌, refl, Bool, true, false, not, List, [], ◌∷◌, map, arith, inl, inr}
use dbextractors.Base.{Text, codes, contains, text_Eq, if◌then◌else◌, Bool-cases, all, ◌++◌, nat_eq}
use dbextractors.Naming.Words.{sql_reserved_words}
use dbextractors.Naming.Unicode.{Unicode, IsStandard, underscore}
use dbextractors.Naming.Mapping.{mage_clean_name}

unfoldable pub reserved_codes : List Text
unfolding sql_reserved_words
reserved_codes = map codes sql_reserved_words

abbrev starts_with_underscore : Text → Bool
starts_with_underscore [] = false
starts_with_underscore (c ∷ s) = nat_eq c underscore

-- None of the 825 words begins with an underscore.
no_word_begins : all (λ w. not (starts_with_underscore w)) reserved_codes ≡ true
unfolding reserved_codes
no_word_begins = refl

not_contained :
    (s : Text) (words : List Text)
    → all (λ w. not (starts_with_underscore w)) words ≡ true
    → contains (underscore ∷ s) words ≡ false
not_contained s [] h = refl
not_contained s ([] ∷ words) h = not_contained s words h
not_contained s ((c ∷ w) ∷ words) h = ground (arith, not_contained s words)

module _ (u : Unicode) where
  -- `name.upper()`
  abbrev pub upper : Text → Text
  upper [] = []
  upper (c ∷ s) = u.upper_char c ++ upper s

  unfoldable pub is_reserved : Text → Bool
  is_reserved name = contains (upper name) reserved_codes

  unfoldable pub apply_reserved_word_prefix : Text → Text
  apply_reserved_word_prefix name = if is_reserved name then underscore ∷ name else name

  unfoldable pub clean_column_name : Bool → Text → Text
  unfolding apply_reserved_word_prefix
  clean_column_name case_sensitive name =
      apply_reserved_word_prefix (mage_clean_name u case_sensitive name)

  module _ (standard : IsStandard u) where
    prefixed_free : (s : Text) → is_reserved (underscore ∷ s) ≡ false
    unfolding is_reserved
    prefixed_free s =
        rw standard.upper_underscore (not_contained (upper s) reserved_codes no_word_begins)

    -- A target column's name is never a reserved word, and a second pass of the prefix leaves it alone.
    pub clean_column_name_free :
        (case_sensitive : Bool) (name : Text)
        → (is_reserved (clean_column_name case_sensitive name) ≡ false)
          × (apply_reserved_word_prefix (clean_column_name case_sensitive name)
              ≡ clean_column_name case_sensitive name)
    unfolding clean_column_name
    clean_column_name_free case_sensitive name =
        let cleaned = mage_clean_name u case_sensitive name in
        elim (Bool-cases (is_reserved cleaned)) [
          | inl word ↦ rw (word, prefixed_free cleaned) (refl, refl)
          | inr plain ↦ rw (plain, plain) (refl, refl)
        ]
