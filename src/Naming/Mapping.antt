-- ===== src/Naming/Mapping.antt =====
-- `create_column_mapping` and `mage_clean_name` of src/dbextractors/core/naming.py.
pub mod Shape
use dbextractors.Base.{ℕ, zero, Bool, true, false, ◌&&◌, ◌||◌, not, List, [], ◌∷◌, ◌++◌, map}
use dbextractors.Base.{Text, codes, nat_eq, contains, nat_Eq, if◌then◌else◌, is_empty, keep}
use dbextractors.Naming.Unicode.{Unicode, underscore}

-- `re.sub(r"_+", "_", s)`; the flag is set inside a run.
unfoldable pub collapse : Bool → Text → Text
collapse in_run [] = []
collapse in_run (c ∷ s) =
    let rest = collapse (nat_eq c underscore) s in
    if nat_eq c underscore && in_run then rest else c ∷ rest

-- `s.lstrip("_")` and `s.rstrip("_")`.
unfoldable pub strip_left : Text → Text
strip_left [] = []
strip_left (c ∷ s) = if nat_eq c underscore then strip_left s else c ∷ s

unfoldable pub strip_right : Text → Text
strip_right [] = []
strip_right (c ∷ s) =
    let rest = strip_right s in if nat_eq c underscore && is_empty rest then [] else c ∷ rest

-- `_CLEAN_NAME_DROPPED`: the byte order mark, `"`, `$`, line feed, carriage return, tab.
abbrev pub clean_name_dropped : List ℕ
clean_name_dropped = 0xfeff ∷ 34 ∷ 36 ∷ 10 ∷ 13 ∷ 9 ∷ []

abbrev letter_prefix : Text
letter_prefix = codes "letter_"

module _ (u : Unicode) where
  -- `re.sub(r"\s+", "_", s)`; the flag is set inside a run.
  unfoldable pub spaces_to_underscore : Bool → Text → Text
  spaces_to_underscore in_run [] = []
  spaces_to_underscore in_run (c ∷ s) =
      let rest = spaces_to_underscore (u.is_space c) s in
      if u.is_space c then (if in_run then rest else underscore ∷ rest) else c ∷ rest

  -- What `[^\w\d_]` does not match.
  abbrev pub is_kept : ℕ → Bool
  is_kept c = u.is_word c || (u.is_digit c || nat_eq c underscore)

  -- The body of the loop of `create_column_mapping`.
  unfoldable pub normalise : Text → Text
  normalise col =
      strip_right
        (strip_left (collapse false (keep is_kept (spaces_to_underscore false (u.lower col)))))

  -- The dictionary by its entries. A name that comes twice has the same value both times.
  unfoldable pub create_column_mapping : List Text → List (Text × Text)
  unfolding normalise
  create_column_mapping src_columns = map (λ col. (col, normalise col)) src_columns

  abbrev starts_with_digit : Text → Bool
  starts_with_digit [] = false
  starts_with_digit (c ∷ s) = u.is_digit c

  unfoldable pub mage_clean_name : Bool → Text → Text
  mage_clean_name case_sensitive name =
      let dropped = keep (λ c. not (contains c clean_name_dropped)) name in
      let words = map (λ c. if u.is_word c then c else underscore) dropped in
      let lettered = if starts_with_digit words then letter_prefix ++ words else words in
      if case_sensitive then lettered else u.lower lettered
