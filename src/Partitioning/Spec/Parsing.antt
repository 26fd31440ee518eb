-- ===== src/Partitioning/Spec/Parsing.antt =====
-- The settings of a parsed spec parse to it.
use dbextractors.Base.{
  ◌≡◌, refl, ap, subst, ◌∙◌, Bool, true, false, Option, none, some, List, [], ◌∷◌, arith, Text,
  text_Eq, is_empty, codes, inl, inr, Bool-cases, Option-cases,
}
use dbextractors.Naming.Unicode.{Unicode}
use dbextractors.Partitioning.{
  Mode, list_mode, range_mode, range_day, range_month, range_year, PartitionSpec,
}
use dbextractors.Partitioning.Spec.{
  Scalar, null, flag, text, other, Setting, scalar, mapping, strip_start, strip_end, strip,
  is_truthy, mode_text, valid_mode, Parsed, parsed, as_dict, parse_mapping, parse_spec,
  source_column, unset, refused, configured, get_either, as_settings, partition_by, field,
  from_settings, get, str_or, with_mode,
}

module _ (u : Unicode) where
  -- A text that neither begins nor ends with white space.
  abbrev begins : Text → Bool
  begins [] = false
  begins (c ∷ s) = u.is_space c

  strip_start-begins : (s : Text) → begins (strip_start u s) ≡ false
  unfolding strip_start
  strip_start-begins [] = refl
  strip_start-begins (c ∷ s) = ground (arith, strip_start-begins s)

  strip_start_none : (s : Text) → begins s ≡ false → strip_start u s ≡ s
  unfolding strip_start
  strip_start_none [] h = refl
  strip_start_none (c ∷ s) h = ground arith

  strip_end-begins : (s : Text) → begins s ≡ false → begins (strip_end u s) ≡ false
  unfolding strip_end
  strip_end-begins [] h = refl
  strip_end-begins (c ∷ s) h = ground arith

  strip_end_again : (s : Text) → strip_end u (strip_end u s) ≡ strip_end u s
  unfolding strip_end
  strip_end_again [] = refl
  strip_end_again (c ∷ s) = ground (arith, strip_end_again s)

  strip_again : (s : Text) → strip u (strip u s) ≡ strip u s
  strip_again s =
      ap (strip_end u) (strip_start_none (strip u s) (strip_end-begins _ (strip_start-begins s)))
      ∙ strip_end_again (strip_start u s)

valid_mode-mode_text : (mode : Mode) → valid_mode (mode_text mode) ≡ some mode
unfolding valid_mode mode_text
valid_mode-mode_text list_mode = refl
valid_mode-mode_text (range_mode range_day) = refl
valid_mode-mode_text (range_mode range_month) = refl
valid_mode-mode_text (range_mode range_year) = refl

mode_full : (mode : Mode) → is_empty (mode_text mode) ≡ false
unfolding mode_text
mode_full list_mode = refl
mode_full (range_mode range_day) = refl
mode_full (range_mode range_month) = refl
mode_full (range_mode range_year) = refl

-- Python's database leaves the names that the program itself gives as they are.
pub record KeepsNames (u : Unicode) : Type 0 where
  pub keeps_mode : (mode : Mode) → u.lower (strip u (mode_text mode)) ≡ mode_text mode
  pub keeps_source : strip u source_column ≡ source_column

-- A column that is stripped and not empty.
record IsColumn (u : Unicode) (column : Text) : Type 0 where
  stripped : strip u column ≡ column
  full : is_empty column ≡ false

module _ (u : Unicode) (k : KeepsNames u) where
  parse-as_dict :
      (s : PartitionSpec) (legacy : Bool)
      → IsColumn u s.column
      → parse_spec u (mapping (as_dict s)) legacy ≡ parsed (some s)
  unfolding parse_spec parse_mapping as_dict is_truthy
  parse-as_dict s legacy c =
      let stripped = c.stripped in
      let full = c.full in
      let named = mode_full s.mode in
      let lowered = k.keeps_mode s.mode in let valid = valid_mode-mode_text s.mode in ground arith

  strip-IsColumn :
      (t : Text) (column : Text)
      → is_empty (strip u t) ≡ false
      → strip u t ≡ column
      → IsColumn u column
  strip-IsColumn t column full e =
      subst (λ c. IsColumn u c) e record { stripped = strip_again u t; full = full }

  unset-IsColumn :
      (legacy : Bool) (s : PartitionSpec) → unset legacy ≡ parsed (some s) → IsColumn u s.column
  unset-IsColumn false s e = absurd (ground arith)
  unset-IsColumn true s e =
      let column : source_column ≡ s.column = ground arith in
      subst (λ c. IsColumn u c) column record { stripped = k.keeps_source; full = refl }

  with_mode-column :
      (column : Text) (mode : Option Mode) (default : Bool) (s : PartitionSpec)
      → with_mode u column mode default ≡ parsed (some s)
      → column ≡ s.column
  with_mode-column column none default s e = absurd (ground arith)
  with_mode-column column (some mode) default s e = ground arith

  -- What parses to a spec has a column.
  parse_spec-IsColumn :
      (value : Setting) (legacy : Bool) (s : PartitionSpec)
      → parse_spec u value legacy ≡ parsed (some s)
      → IsColumn u s.column
  unfolding parse_spec parse_mapping
  parse_spec-IsColumn (scalar null) legacy s e = unset-IsColumn legacy s e
  parse_spec-IsColumn (scalar (flag true)) legacy s e = absurd (ground arith)
  parse_spec-IsColumn (scalar (flag false)) legacy s e = unset-IsColumn legacy s e
  parse_spec-IsColumn (scalar (other t b)) legacy s e = absurd (ground arith)
  parse_spec-IsColumn (scalar (text t)) legacy s e = elim (Bool-cases (is_empty t)) [
    | inl blank ↦ unset-IsColumn legacy s (ground arith)
    | inr given ↦ elim (Bool-cases (is_empty (strip u t))) [
      | inl none_left ↦ absurd (ground arith)
      | inr full ↦ strip-IsColumn t s.column full (ground arith)
    ]
  ]
  parse_spec-IsColumn (mapping entries) legacy s e =
      let given = str_or (get null (codes "column") entries) [] in
      elim (Bool-cases (is_empty (strip u given))) [
        | inl none_left ↦ absurd (ground arith)
        | inr full ↦
            let mode = valid_mode (
              u.lower (strip u (str_or (get null (codes "mode") entries) (mode_text list_mode)))) in
            let default = is_truthy u (get (flag true) (codes "default_partition") entries) in
            let chosen : with_mode u (strip u given) mode default ≡ parsed (some s) =
              ground arith in
            strip-IsColumn given s.column full
              (with_mode-column (strip u given) mode default s chosen)
      ]

  -- A parse that brings no spec was not told to go by the source.
  legacy_unset :
      (value : Setting) (legacy : Bool)
      → parse_spec u value legacy ≡ parsed none
      → from_settings u (scalar null) (flag legacy) ≡ parsed none
  unfolding parse_spec parse_mapping
  legacy_unset value false e = refl
  legacy_unset (scalar null) true e = e
  legacy_unset (scalar (flag true)) true e = absurd (ground arith)
  legacy_unset (scalar (flag false)) true e = e
  legacy_unset (scalar (other t b)) true e = absurd (ground arith)
  legacy_unset (scalar (text t)) true e = ground arith
  legacy_unset (mapping entries) true e =
      let mode =
        valid_mode
          (u.lower (strip u (str_or (get null (codes "mode") entries) (mode_text list_mode)))) in
      elim (Option-cases mode) [
        | inl unknown ↦ absurd (ground arith)
        | inr (m, known) ↦ absurd (ground arith)
      ]

  again :
      (value : Setting) (legacy : Bool) (p : Parsed) (d : Option (List (Text × Scalar)))
      → parse_spec u value legacy ≡ p
      → as_settings p ≡ configured d
      → (s : Option PartitionSpec) × ((p ≡ parsed s)
          × (from_settings u (field d) (flag legacy) ≡ parsed s))
  again value legacy (refused r) d e h = absurd (ground arith)
  again value legacy (parsed none) d e h =
      let nothing : none ≡ d = ground arith in
      (
        none,
        (
          refl,
          subst (λ c. from_settings u (field c) (flag legacy) ≡ parsed none) nothing
              (legacy_unset value legacy e),
        ),
      )
  again value legacy (parsed (some s)) d e h =
      let settings : some (as_dict s) ≡ d = ground arith in
      (
        some s,
        (
          refl,
          subst (λ c. from_settings u (field c) (flag legacy) ≡ parsed (some s)) settings
              (parse-as_dict s legacy (parse_spec-IsColumn value legacy s e)),
        ),
      )

  -- Whatever the configuration holds: if it is accepted, then what the strategies parse from the
  -- settings that it became is what the configuration's own parse gave.
  pub from_settings-partition_by :
      (load table : Option Setting) (load_by_source table_by_source : Option Scalar)
      (d : Option (List (Text × Scalar)))
      → partition_by u load table load_by_source table_by_source ≡ configured d
      → let by_source = is_truthy u (get_either null load_by_source table_by_source) in
        (s : Option PartitionSpec) × ((parse_spec u (get_either (scalar null) load table) by_source
            ≡ parsed s)
          × (from_settings u (field d) (flag by_source) ≡ parsed s))
  unfolding partition_by
  from_settings-partition_by load table load_by_source table_by_source d e =
      again (get_either (scalar null) load table)
        (is_truthy u (get_either null load_by_source table_by_source)) _ d refl e
