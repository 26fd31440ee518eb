-- ===== src/Quoting.antt =====
-- Texts put in quotes: `sql_literal` of src/dbextractors/dialects/base.py and dialects/mysql.py,
-- `quote_ident` of core/target_pg.py, and `build_dsn` and `_quote` of core/target_conn.py.
pub mod Literals
pub mod Dsn
use dbextractors.Base.{
  ℕ, ◌+◌, ◌/◌, ◌%◌, Option, none, some, List, [], ◌∷◌, ◌++◌, Text, codes, if◌then◌else◌, nat_eq,
  ltb,
}

abbrev pub apostrophe : ℕ
apostrophe = 39

abbrev pub backslash : ℕ
backslash = 92

abbrev pub double_quote : ℕ
double_quote = 34

-- `str.replace` of one character.
unfoldable pub replace : ℕ → Text → Text → Text
replace c by [] = []
replace c by (d ∷ s) = let rest = replace c by s in if nat_eq d c then by ++ rest else d ∷ rest

-- Numbers stand by their `str`, binary values by their bytes, all other values by their `str`.
pub data SqlValue : Type 0 where
  number_value other_value : Text → SqlValue
  binary_value : List ℕ → SqlValue

abbrev pub doubled : ℕ → Text
doubled c = c ∷ c ∷ []

abbrev pub enclosed : ℕ → Text → Text
enclosed c s = c ∷ (s ++ c ∷ [])

-- The base class; `none` stands for the TypeError.
unfoldable pub sql_literal : SqlValue → Option Text
sql_literal (number_value s) = some s
sql_literal (other_value s) = some (enclosed apostrophe (replace apostrophe (doubled apostrophe) s))
sql_literal (binary_value bytes) = none

abbrev hex_digit : ℕ → ℕ
hex_digit n = if ltb n 10 then b'0' + n else b'a' + n % 10

unfoldable pub hex : List ℕ → Text
hex [] = []
hex (byte ∷ bytes) = hex_digit (byte / 16) ∷ hex_digit (byte % 16) ∷ hex bytes

unfoldable pub mysql_literal : SqlValue → Text
mysql_literal (number_value s) = s
mysql_literal (other_value s) =
    enclosed apostrophe
      (replace apostrophe (doubled apostrophe) (replace backslash (doubled backslash) s))
mysql_literal (binary_value bytes) = b'X' ∷ enclosed apostrophe (hex bytes)

unfoldable pub quote_ident : Text → Text
quote_ident name = enclosed double_quote (replace double_quote (doubled double_quote) name)

-- One libpq value; no text stands for `None` too.
unfoldable pub quote_value : Text → Text
quote_value text =
    enclosed apostrophe (
      replace apostrophe (backslash ∷ apostrophe ∷ []) (replace backslash (doubled backslash) text))

abbrev pub pair : Text → Text → Text
pair keyword value = keyword ++ b'=' ∷ quote_value value

-- `" ".join(...)`
unfoldable pub join_pairs : List (Text × Text) → Text
join_pairs [] = []
join_pairs ((keyword, value) ∷ []) = pair keyword value
join_pairs ((keyword, value) ∷ next ∷ pairs) = pair keyword value ++ 32 ∷ join_pairs (next ∷ pairs)

abbrev pub dsn_pairs : Text → Text → Text → Text → Text → List (Text × Text)
dsn_pairs host port database user password =
    (codes "host", host)
    ∷ (codes "port", port)
    ∷ (codes "dbname", database)
    ∷ (codes "user", user)
    ∷ (codes "password", password)
    ∷ []

unfoldable pub build_dsn : Text → Text → Text → Text → Text → Text
build_dsn host port database user password = join_pairs (dsn_pairs host port database user password)
