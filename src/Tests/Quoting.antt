-- ===== src/Tests/Quoting.antt =====
-- A password with a space, an apostrophe and a backslash.
use dbextractors.Base.{◌≡◌, refl, some, [], ◌∷◌, ◌++◌, Text, codes}
use dbextractors.Quoting.{
  apostrophe, backslash, double_quote, other_value, sql_literal, mysql_literal, quote_ident,
  dsn_pairs, build_dsn, replace,
}
use dbextractors.Quoting.Literals.{no_escape, is_backslash, itself, read_quoted, literals_read}
use dbextractors.Quoting.Dsn.{before_keyword, read_dsn, build_dsn_read}

abbrev secret : Text
secret = codes "it's a " ++ backslash ∷ []

abbrev clause : Text
clause = codes " AND x"

literals_read_example :
    ((literal : Text) × ((sql_literal (other_value secret) ≡ some literal)
        × (read_quoted apostrophe no_escape itself (literal ++ clause) ≡ some (secret, clause))))
    × ((read_quoted apostrophe is_backslash itself (mysql_literal (other_value secret) ++ clause)
          ≡ some (secret, clause))
        × (read_quoted double_quote no_escape itself (quote_ident secret ++ clause)
            ≡ some (secret, clause)))
literals_read_example = literals_read itself secret clause clause refl refl refl

literal_test : sql_literal (other_value (codes "it's")) ≡ some (codes "'it''s'")
unfolding sql_literal replace
literal_test = refl

build_dsn_read_example :
    read_dsn before_keyword
      (build_dsn (codes "db") (codes "5432") (codes "dwh") (codes "etl") secret)
    ≡ some (dsn_pairs (codes "db") (codes "5432") (codes "dwh") (codes "etl") secret)
build_dsn_read_example =
    build_dsn_read (codes "db") (codes "5432") (codes "dwh") (codes "etl") secret
