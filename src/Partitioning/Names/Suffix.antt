-- ===== src/Partitioning/Names/Suffix.antt =====
-- A period's suffix can be read back, so it names one period.
use dbextractors.Base.{
  ℕ, ◌+◌, ◌-◌, ◌*◌, ◌/◌, ◌≤◌, ◌≡◌, ◌↔◌, refl, sym, ap, ◌∙◌, Option, none, some, [], ◌∷◌, arith,
  Text,
}
use mathlib.Core.Option.{some-injective}
use dbextractors.Dates.{Date, date, IsDate, max_year}
use dbextractors.Dates.Calendar.{days_in_month_bounds, date_ext}
use dbextractors.Partitioning.{RangeMode, range_day, range_month, range_year, period_start}
use dbextractors.Partitioning.Names.{period_suffix, digit}

abbrev number2 : ℕ → ℕ → ℕ
number2 a b = (a - b'0') * 10 + (b - b'0')

abbrev number4 : ℕ → ℕ → ℕ → ℕ → ℕ
number4 a b c d = (a - b'0') * 1000 + (b - b'0') * 100 + (c - b'0') * 10 + (d - b'0')

-- The start of the period that a suffix names.
abbrev pub read_suffix : RangeMode → Text → Option Date
read_suffix range_day (a ∷ b ∷ c ∷ d ∷ _ ∷ e ∷ f ∷ _ ∷ g ∷ h ∷ []) =
    some (date (number4 a b c d) (number2 e f) (number2 g h))
read_suffix range_month (a ∷ b ∷ c ∷ d ∷ _ ∷ e ∷ f ∷ []) =
    some (date (number4 a b c d) (number2 e f) 1)
read_suffix range_year (a ∷ b ∷ c ∷ d ∷ []) = some (date (number4 a b c d) 1 1)
read_suffix _ _ = none

number4-pad4 :
    (n : ℕ)
    → n ≤ max_year
    → number4 (digit (n / 1000)) (digit (n / 100)) (digit (n / 10)) (digit n) ≡ n
number4-pad4 n h = omega arith

number2-pad2 : (n : ℕ) → n ≤ 31 → number2 (digit (n / 10)) (digit n) ≡ n
number2-pad2 n h = omega arith

-- The suffix of a date's period reads back as the period's start.
pub read_suffix-period_suffix :
    (mode : RangeMode) (t : Date)
    → IsDate t
    → read_suffix mode (period_suffix mode (period_start mode t)) ≡ some (period_start mode t)
unfolding period_suffix period_start
read_suffix-period_suffix range_day t v = ap some (
    date_ext _ t (number4-pad4 t.year (v.year_in).1)
      (number2-pad2 t.month (omega (arith, v.month_in)))
      (number2-pad2 t.day (omega (arith, (days_in_month_bounds t.year t.month).1, v.day_in))))
read_suffix-period_suffix range_month t v = ap some (
    date_ext _ (record t { day = 1 }) (number4-pad4 t.year (v.year_in).1)
      (number2-pad2 t.month (omega (arith, v.month_in))) refl)
read_suffix-period_suffix range_year t v =
    ap some (date_ext _ (date t.year 1 1) (number4-pad4 t.year (v.year_in).1) refl refl)

-- Two dates have one suffix exactly if they have one period.
pub period_suffix-period_start :
    (mode : RangeMode) (s t : Date)
    → IsDate s
    → IsDate t
    → (period_suffix mode (period_start mode s) ≡ period_suffix mode (period_start mode t))
      ↔ (period_start mode s ≡ period_start mode t)
period_suffix-period_start mode s t vs vt = (
  λ h. some-injective _ _ (
      sym (read_suffix-period_suffix mode s vs)
      ∙ ap (read_suffix mode) h
      ∙ read_suffix-period_suffix mode t vt),
  λ h. ap (period_suffix mode) h,
)
