-- ===== src/Partitioning/Names.antt =====
-- The names of partitions: `_slug`, `_fit`, `partition_suffix`, `partition_ref` and `default_ref` of
-- src/dbextractors/core/partitioning.py. The schema, which a partition shares with its table, is left
-- out.
pub mod Suffix
use dbextractors.Base.{
  ℕ, ◌+◌, ◌/◌, ◌%◌, ◌-◌, Bool, true, false, ◌&&◌, ◌||◌, Option, none, some, List, [], ◌∷◌, ◌++◌,
  Text, codes,
}
use dbextractors.Base.{ltb, leb, nat_eq, if◌then◌else◌, is_empty, length, take}
use dbextractors.Naming.Unicode.{Unicode, underscore}
use dbextractors.Naming.Mapping.{strip_left, strip_right}
use dbextractors.Dates.{Date}
use dbextractors.Partitioning.{
  RangeMode, range_day, range_month, range_year, Mode, list_mode, range_mode, period_start,
}

-- A value of the partitioning column: a date, or anything else by its text.
pub data Value : Type 0 where
  day_value : Date → Value
  text_value : Text → Value

abbrev pub digit : ℕ → ℕ
digit n = b'0' + n % 10

-- `f"{n:02d}"` and `f"{n:04d}"`, of numbers below 100 and below 10000.
abbrev pub pad2 : ℕ → Text
pad2 n = digit (n / 10) ∷ digit n ∷ []

abbrev pub pad4 : ℕ → Text
pad4 n = digit (n / 1000) ∷ digit (n / 100) ∷ digit (n / 10) ∷ digit n ∷ []

-- `str` of a date.
abbrev iso : Date → Text
iso t = pad4 t.year ++ b'-' ∷ pad2 t.month ++ b'-' ∷ pad2 t.day

abbrev pub str : Value → Text
str (day_value t) = iso t
str (text_value s) = s

-- What `[^0-9a-z]` does not match.
abbrev in_slug : ℕ → Bool
in_slug c = (leb b'0' c && leb c b'9') || (leb b'a' c && leb c b'z')

-- `re.sub(r"[^0-9a-z]+", "_", s)`; the flag is set inside a run.
unfoldable pub slug_runs : Bool → Text → Text
slug_runs in_run [] = []
slug_runs in_run (c ∷ s) =
    if in_slug c
    then c ∷ slug_runs false s
    else if in_run
    then slug_runs true s
    else underscore ∷ slug_runs true s

abbrev or_x : Text → Text
or_x [] = codes "x"
or_x (c ∷ s) = c ∷ s

unfoldable pub slug : Unicode → Text → Text
slug u value = or_x (strip_right (strip_left (slug_runs false (u.lower value))))

abbrev pub max_identifier_length : ℕ
max_identifier_length = 63

-- `digest` stands for the first 8 hexadecimal digits of SHA-1.
unfoldable pub fit : (Text → Text) → Text → Text → Text → Text
fit digest table suffix seed =
    let name = table ++ codes "__" ++ suffix in
    if ltb max_identifier_length (length name)
    then take (max_identifier_length - 9) name ++ underscore ∷ digest seed
    else name

-- The suffix of a period, by its start.
unfoldable pub period_suffix : RangeMode → Date → Text
period_suffix range_day start =
    pad4 start.year ++ underscore ∷ pad2 start.month ++ underscore ∷ pad2 start.day
period_suffix range_month start = pad4 start.year ++ underscore ∷ pad2 start.month
period_suffix range_year start = pad4 start.year

-- The date of a value; `fromisoformat` stands for that of `datetime.date`, `none` for its ValueError.
abbrev pub day_of : (Text → Option Date) → Value → Option Date
day_of fromisoformat (day_value t) = some t
day_of fromisoformat (text_value s) = fromisoformat (take 10 s)

module _ (u : Unicode) (digest : Text → Text) (fromisoformat : Text → Option Date) where
  unfoldable pub partition_suffix : Mode → Value → Option Text
  partition_suffix list_mode value = some (slug u (str value))
  partition_suffix (range_mode mode) value = elim (day_of fromisoformat value) [
    | none ↦ none
    | some day ↦ some (period_suffix mode (period_start mode day))
  ]

  unfoldable pub partition_ref : Text → Mode → Value → Option Text
  partition_ref table mode value = elim (partition_suffix mode value) [
    | none ↦ none
    | some suffix ↦ some (fit digest table suffix (str value))
  ]

abbrev pub default_suffix : Text
default_suffix = codes "default"

unfoldable pub default_ref : (Text → Text) → Text → Text
default_ref digest table = fit digest table default_suffix default_suffix
