-- ===== src/Quoting/Literals.antt =====
-- Quoted texts read back by the rules of SQL: a doubled quote stands for a quote. MySQL has the
-- backslash as well, after which a character stands for what `meaning` says of it.
use dbextractors.Base.{
  ℕ, ◌≡◌, refl, Bool, true, false, Option, none, some, [], ◌∷◌, ◌++◌, arith, append_assoc, Text,
  if◌then◌else◌, nat_eq, nat_eq_iff, Bool-cases, inl, inr,
}
use dbextractors.Quoting.{
  apostrophe, backslash, double_quote, replace, doubled, enclosed, other_value, sql_literal,
  mysql_literal, quote_ident,
}

-- Inside the quotes, after a quote there, or after an escape.
pub data Place : Type 0 where
  inside after_quote after_escape : Place

abbrev then_read : ℕ → Option (Text × Text) → Option (Text × Text)
then_read c none = none
then_read c (some (s, rest)) = some (c ∷ s, rest)

module _ (quote : ℕ) (escapes : ℕ → Bool) (meaning : ℕ → ℕ) where
  -- The text, and what follows the closing quote.
  unfoldable pub read_rest : Place → Text → Option (Text × Text)
  read_rest inside [] = none
  read_rest inside (c ∷ s) =
      if nat_eq c quote
      then read_rest after_quote s
      else if escapes c
      then read_rest after_escape s
      else then_read c (read_rest inside s)
  read_rest after_quote [] = some ([], [])
  read_rest after_quote (c ∷ s) =
      if nat_eq c quote then then_read quote (read_rest inside s) else some ([], c ∷ s)
  read_rest after_escape [] = none
  read_rest after_escape (c ∷ s) = then_read (meaning c) (read_rest inside s)

  unfoldable pub read_quoted : Text → Option (Text × Text)
  read_quoted [] = none
  read_quoted (c ∷ s) = if nat_eq c quote then read_rest inside s else none

-- What follows a quoted text does not begin with the quote.
abbrev pub starts_with : ℕ → Text → Bool
starts_with c [] = false
starts_with c (d ∷ s) = nat_eq d c

abbrev pub no_escape : ℕ → Bool
no_escape c = false

abbrev pub itself : ℕ → ℕ
itself c = c

closing :
    (quote : ℕ) (escapes : ℕ → Bool) (meaning : ℕ → ℕ) (rest : Text)
    → starts_with quote rest ≡ false
    → read_rest quote escapes meaning after_quote rest ≡ some ([], rest)
unfolding read_rest
closing quote escapes meaning [] h = refl
closing quote escapes meaning (c ∷ rest) h = ground arith

doubled_read :
    (quote : ℕ) (s rest : Text)
    → starts_with quote rest ≡ false
    → read_rest quote no_escape itself inside (replace quote (doubled quote) s ++ quote ∷ rest)
      ≡ some (s, rest)
unfolding read_rest replace
doubled_read quote [] rest h = ground (arith, closing quote no_escape itself rest h)
doubled_read quote (c ∷ s) rest h = elim (Bool-cases (nat_eq c quote)) [
  | inl same ↦ let is = (nat_eq_iff c quote).0 same in ground (arith, doubled_read quote s rest h)
  | inr other ↦ ground (arith, doubled_read quote s rest h)
]

abbrev pub is_backslash : ℕ → Bool
is_backslash c = nat_eq c backslash

abbrev mysql_text : Text → Text
mysql_text s = replace apostrophe (doubled apostrophe) (replace backslash (doubled backslash) s)

mysql_read :
    (meaning : ℕ → ℕ) (s rest : Text)
    → meaning backslash ≡ backslash
    → starts_with apostrophe rest ≡ false
    → read_rest apostrophe is_backslash meaning inside (mysql_text s ++ apostrophe ∷ rest)
      ≡ some (s, rest)
unfolding read_rest replace
mysql_read meaning [] rest m h = ground (arith, closing apostrophe is_backslash meaning rest h)
mysql_read meaning (c ∷ s) rest m h = elim (Bool-cases (nat_eq c backslash)) [
  | inl same ↦
      let is = (nat_eq_iff c backslash).0 same in ground (arith, mysql_read meaning s rest m h)
  | inr plain ↦ elim (Bool-cases (nat_eq c apostrophe)) [
    | inl same ↦
        let is = (nat_eq_iff c apostrophe).0 same in ground (arith, mysql_read meaning s rest m h)
    | inr other ↦ ground (arith, mysql_read meaning s rest m h)
  ]
]

enclosed_read :
    (quote : ℕ) (escapes : ℕ → Bool) (meaning : ℕ → ℕ) (body s rest : Text)
    → read_rest quote escapes meaning inside (body ++ quote ∷ rest) ≡ some (s, rest)
    → read_quoted quote escapes meaning (enclosed quote body ++ rest) ≡ some (s, rest)
unfolding read_quoted
enclosed_read quote escapes meaning body s rest h =
    let whole : (body ++ quote ∷ []) ++ rest ≡ body ++ quote ∷ rest =
      append_assoc body (quote ∷ []) rest in
    let first : nat_eq quote quote ≡ true = ground arith in rw (first, whole) h

-- A text that a dialect has made a literal, followed by anything but an apostrophe, is read back by
-- that dialect's rules as the text with what follows: by the standard's for the base class, and for
-- MySQL by its own, in which a backslash after a backslash stands for a backslash. The same holds of
-- a name that is quoted for PostgreSQL, followed by anything but a double quote.
pub literals_read :
    (meaning : ℕ → ℕ) (s rest other : Text)
    → meaning backslash ≡ backslash
    → starts_with apostrophe rest ≡ false
    → starts_with double_quote other ≡ false
    → ((literal : Text) × ((sql_literal (other_value s) ≡ some literal)
          × (read_quoted apostrophe no_escape itself (literal ++ rest) ≡ some (s, rest))))
      × ((read_quoted apostrophe is_backslash meaning (mysql_literal (other_value s) ++ rest)
            ≡ some (s, rest))
          × (read_quoted double_quote no_escape itself (quote_ident s ++ other) ≡ some (s, other)))
unfolding sql_literal mysql_literal quote_ident
literals_read meaning s rest other m h k = (
  (
    enclosed apostrophe (replace apostrophe (doubled apostrophe) s),
    (
      refl,
      enclosed_read apostrophe no_escape itself (replace apostrophe (doubled apostrophe) s) s rest
          (doubled_read apostrophe s rest h),
    ),
  ),
  (
    enclosed_read apostrophe is_backslash meaning (mysql_text s) s rest
        (mysql_read meaning s rest m h),
    enclosed_read double_quote no_escape itself (replace double_quote (doubled double_quote) s) s
        other (doubled_read double_quote s other k),
  ),
)
