-- ===== src/Quoting/Dsn.antt =====
-- A connection string read back by libpq's rules: pairs of a keyword and a value in quotes, in which
-- a backslash makes the next character stand for itself.
use dbextractors.Base.{
  ℕ, ◌≡◌, refl, sym, ap, ◌∙◌, Bool, true, false, ◌&&◌, not, Option, none, some, List, [], ◌∷◌, ◌++◌,
  arith, append_assoc, append-nil, Text, if◌then◌else◌, nat_eq, nat_eq_iff, Bool-cases, inl, inr,
}
use dbextractors.Quoting.{
  apostrophe, backslash, replace, doubled, quote_value, pair, join_pairs, dsn_pairs, build_dsn,
}

abbrev space : ℕ
space = 32

abbrev equals : ℕ
equals = 61

-- Before a keyword, in a keyword, before a value, in a value, and after a backslash there, with what
-- has been read of the keyword and of the value.
pub data DsnState : Type 0 where
  before_keyword : DsnState
  in_keyword : Text → DsnState
  before_value : Text → DsnState
  in_value after_backslash : Text → Text → DsnState

abbrev with_pair : Text → Text → Option (List (Text × Text)) → Option (List (Text × Text))
with_pair keyword value none = none
with_pair keyword value (some pairs) = some ((keyword, value) ∷ pairs)

unfoldable pub read_dsn : DsnState → Text → Option (List (Text × Text))
read_dsn before_keyword [] = some []
read_dsn before_keyword (c ∷ s) =
    if nat_eq c space then read_dsn before_keyword s else read_dsn (in_keyword (c ∷ [])) s
read_dsn (in_keyword keyword) [] = none
read_dsn (in_keyword keyword) (c ∷ s) =
    if nat_eq c equals
    then read_dsn (before_value keyword) s
    else read_dsn (in_keyword (keyword ++ c ∷ [])) s
read_dsn (before_value keyword) [] = none
read_dsn (before_value keyword) (c ∷ s) =
    if nat_eq c apostrophe then read_dsn (in_value keyword []) s else none
read_dsn (in_value keyword value) [] = none
read_dsn (in_value keyword value) (c ∷ s) =
    if nat_eq c apostrophe
    then with_pair keyword value (read_dsn before_keyword s)
    else if nat_eq c backslash
    then read_dsn (after_backslash keyword value) s
    else read_dsn (in_value keyword (value ++ c ∷ [])) s
read_dsn (after_backslash keyword value) [] = none
read_dsn (after_backslash keyword value) (c ∷ s) = read_dsn (in_value keyword (value ++ c ∷ [])) s

abbrev escaped : Text → Text
escaped text =
    replace apostrophe (backslash ∷ apostrophe ∷ []) (replace backslash (doubled backslash) text)

value_read :
    (keyword done text rest : Text)
    → read_dsn (in_value keyword done) (escaped text ++ apostrophe ∷ rest)
      ≡ with_pair keyword (done ++ text) (read_dsn before_keyword rest)
unfolding read_dsn replace
value_read keyword done [] rest =
    ap (λ v. with_pair keyword v (read_dsn before_keyword rest)) (sym (append-nil done))
value_read keyword done (c ∷ text) rest =
    let more = append_assoc done (c ∷ []) text in
    let ih = value_read keyword (done ++ c ∷ []) text rest in
    elim (Bool-cases (nat_eq c backslash)) [
      | inl same ↦ let is = (nat_eq_iff c backslash).0 same in ground arith
      | inr plain ↦ elim (Bool-cases (nat_eq c apostrophe)) [
        | inl same ↦ let is = (nat_eq_iff c apostrophe).0 same in ground arith
        | inr other ↦ ground arith
      ]
    ]

-- No character of the keyword is a space or an equals sign, and there is one.
abbrev is_plain : ℕ → Bool
is_plain c = not (nat_eq c space) && not (nat_eq c equals)

abbrev all_plain : Text → Bool
all_plain [] = true
all_plain (c ∷ s) = is_plain c && all_plain s

abbrev is_keyword : Text → Bool
is_keyword [] = false
is_keyword (c ∷ s) = all_plain (c ∷ s)

keyword_read :
    (done keyword rest : Text)
    → all_plain keyword ≡ true
    → read_dsn (in_keyword done) (keyword ++ equals ∷ rest)
      ≡ read_dsn (before_value (done ++ keyword)) rest
unfolding read_dsn
keyword_read done [] rest h = ap (λ k. read_dsn (before_value k) rest) (sym (append-nil done))
keyword_read done (c ∷ keyword) rest h =
    let more = append_assoc done (c ∷ []) keyword in
    let ih = keyword_read (done ++ c ∷ []) keyword rest (ground arith) in
    let step : read_dsn (in_keyword done) (c ∷ (keyword ++ equals ∷ rest))
        ≡ read_dsn (in_keyword (done ++ c ∷ [])) (keyword ++ equals ∷ rest) =
      ground arith in
    step ∙ ih ∙ ap (λ k. read_dsn (before_value k) rest) more

quoted_read :
    (keyword value rest : Text)
    → read_dsn (before_value keyword) (quote_value value ++ rest)
      ≡ with_pair keyword value (read_dsn before_keyword rest)
unfolding quote_value read_dsn
quoted_read keyword value rest =
    let whole : (escaped value ++ apostrophe ∷ []) ++ rest ≡ escaped value ++ apostrophe ∷ rest =
      append_assoc (escaped value) (apostrophe ∷ []) rest in
    rw whole (value_read keyword [] value rest)

pair_read :
    (keyword value rest : Text)
    → is_keyword keyword ≡ true
    → read_dsn before_keyword (pair keyword value ++ rest)
      ≡ with_pair keyword value (read_dsn before_keyword rest)
unfolding read_dsn
pair_read [] value rest h = absurd (ground arith)
pair_read (c ∷ keyword) value rest h =
    let plain : nat_eq c space ≡ false = ground arith in
    let whole : (keyword ++ equals ∷ quote_value value) ++ rest
        ≡ keyword ++ equals ∷ (quote_value value ++ rest) =
      append_assoc keyword (equals ∷ quote_value value) rest in
    let first : read_dsn before_keyword (pair (c ∷ keyword) value ++ rest)
        ≡ read_dsn (in_keyword (c ∷ [])) ((keyword ++ equals ∷ quote_value value) ++ rest) =
      ground arith in
    first
    ∙ ap (read_dsn (in_keyword (c ∷ []))) whole
    ∙ keyword_read (c ∷ []) keyword (quote_value value ++ rest) (ground arith)
    ∙ quoted_read (c ∷ keyword) value rest

abbrev keywords_plain : List (Text × Text) → Bool
keywords_plain [] = true
keywords_plain ((keyword, value) ∷ pairs) = is_keyword keyword && keywords_plain pairs

join_pairs_read :
    (pairs : List (Text × Text))
    → keywords_plain pairs ≡ true
    → read_dsn before_keyword (join_pairs pairs) ≡ some pairs
unfolding join_pairs
join_pairs_read [] h = unfold read_dsn in refl
join_pairs_read ((keyword, value) ∷ []) h =
    let read = pair_read keyword value [] (ground arith) in
    let end : read_dsn before_keyword [] ≡ some [] = unfold read_dsn in refl in
    ap (read_dsn before_keyword) (sym (append-nil (pair keyword value)))
    ∙ read
    ∙ ap (with_pair keyword value) end
join_pairs_read ((keyword, value) ∷ next ∷ pairs) h =
    let read = pair_read keyword value (space ∷ join_pairs (next ∷ pairs)) (ground arith) in
    let skip : read_dsn before_keyword (space ∷ join_pairs (next ∷ pairs))
        ≡ read_dsn before_keyword (join_pairs (next ∷ pairs)) =
      unfold read_dsn in refl in
    read ∙ ap (with_pair keyword value) (skip ∙ join_pairs_read (next ∷ pairs) (ground arith))

-- libpq reads from the string the five keywords with exactly the values that it was built from,
-- whatever characters they have.
pub build_dsn_read :
    (host port database user password : Text)
    → read_dsn before_keyword (build_dsn host port database user password)
      ≡ some (dsn_pairs host port database user password)
unfolding build_dsn
build_dsn_read host port database user password =
    join_pairs_read (dsn_pairs host port database user password) refl
