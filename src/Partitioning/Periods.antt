-- ===== src/Partitioning/Periods.antt =====
-- The periods divide the calendar: each date lies in the one period that starts at its start.
use dbextractors.Base.{
  ℕ, ◌≤◌, ◌≡◌, refl, sym, ap, ◌∙◌, true, false, ◌&&◌, not, none, some, arith, ◌↔◌,
}
use dbextractors.Dates.{Date, date, max_year, days_in_month, IsDate, before, next_month, next_day}
use dbextractors.Dates.Calendar.{days_in_month_bounds, add_days_across, date_ext}
use dbextractors.Partitioning.{
  RangeMode, range_day, range_month, range_year, period_start, period_end, period_bounds,
}

-- The end of a period that has one.
period_end_month : (y m : ℕ) → period_end range_month (date y m 1) ≡ next_month (date y m 28)
unfolding period_end
period_end_month y m =
    let (low, high) = days_in_month_bounds y m in
    add_days_across 4 y m 28 low (omega arith) (omega arith)

-- Both bounds are dates, and the period holds the date.
pub record IsPeriod (mode : RangeMode) (t start end : Date) : Type 0 where
  pub start_date : IsDate start
  pub end_date : IsDate end
  pub starts : before t start ≡ false
  pub ends : before t end ≡ true

-- `period_bounds` by its two parts.
bounds_parts :
    (mode : RangeMode) (t start end : Date)
    → period_bounds mode t ≡ some (start, end)
    → (start ≡ period_start mode t) × (period_end mode (period_start mode t) ≡ some end)
unfolding period_bounds
bounds_parts mode t start end e = ground arith

period_of :
    (mode : RangeMode) (y m d : ℕ) (end : Date)
    → IsDate (date y m d)
    → period_end mode (period_start mode (date y m d)) ≡ some end
    → IsPeriod mode (date y m d) (period_start mode (date y m d)) end
unfolding period_start period_end next_day next_month
period_of range_day y m d end v e =
    let (low, high) = days_in_month_bounds y m in
    let (low', high') = days_in_month_bounds end.year end.month in ground arith
period_of range_month y m d end v e =
    let e' : next_month (date y m 28) ≡ some end = sym (period_end_month y m) ∙ e in
    let (low, high) = days_in_month_bounds y m in
    let (low', high') = days_in_month_bounds end.year end.month in ground arith
period_of range_year y m d end v e =
    let (low, high) = days_in_month_bounds y 1 in
    let (low', high') = days_in_month_bounds end.year end.month in ground arith

-- The bounds are dates, and the value lies between them: the lower bound is in, the upper is out.
pub period_bounds-IsPeriod :
    (mode : RangeMode) (t start end : Date)
    → IsDate t
    → period_bounds mode t ≡ some (start, end)
    → IsPeriod mode t start end
period_bounds-IsPeriod mode t start end v e =
    let (first, last) = bounds_parts mode t start end e in
    rw first (period_of mode t.year t.month t.day end v last)

-- Two dates of which one lies in the other's period have the same start.
same_period :
    (mode : RangeMode) (s t end : Date)
    → IsDate s
    → IsDate t
    → period_end mode (period_start mode s) ≡ some end
    → before t (period_start mode s) ≡ false
    → before t end ≡ true
    → period_start mode t ≡ period_start mode s
unfolding period_start period_end next_day next_month
same_period range_day s t end vs vt e low high =
    let year : t.year ≡ s.year = ground arith in
    let month : t.month ≡ s.month = ground arith in
    let most : t.day ≤ days_in_month s.year s.month = rw (← year, ← month) (vt.day_in).1 in
    date_ext t s year month (ground arith)
same_period range_month s t end vs vt e low high =
    let e' : next_month (date s.year s.month 28) ≡ some end =
      sym (period_end_month s.year s.month) ∙ e in
    date_ext (record t { day = 1 }) (record s { day = 1 }) (ground arith) (ground arith) refl
same_period range_year s t end vs vt e low high =
    date_ext (date t.year 1 1) (date s.year 1 1) (ground arith) refl refl

-- A date lies between the bounds of another's period exactly if both have one period start: the
-- periods do not overlap, and what starts alike is stored together.
pub period_bounds-period_start :
    (mode : RangeMode) (s t start end : Date)
    → IsDate s
    → IsDate t
    → period_bounds mode s ≡ some (start, end)
    → ((not (before t start) && before t end) ≡ true) ↔ (period_start mode t ≡ start)
period_bounds-period_start mode s t start end vs vt e =
    let (first, last) = bounds_parts mode s start end e in
    (
      λ h.
          same_period mode s t end vs vt last (rw (← first) (ground arith)) (ground arith)
          ∙ sym first,
      λ h.
          let last' : period_end mode (period_start mode t) ≡ some end = rw (h, first) last in
          let p = period_of mode t.year t.month t.day end vt last' in
          let low : before t start ≡ false = rw (← h) p.starts in
          let high : before t end ≡ true = p.ends in ground arith,
    )

abbrev pub last_date : Date
last_date = date max_year 12 31

-- Only the period of the last date has no end.
no_end :
    (mode : RangeMode) (y m d : ℕ)
    → IsDate (date y m d)
    → (period_end mode (period_start mode (date y m d)) ≡ none)
      ↔ (period_start mode (date y m d) ≡ period_start mode last_date)
unfolding period_start period_end next_day next_month days_in_month
no_end range_day y m d v = (
  λ h. date_ext (date y m d) last_date (ground arith) (ground arith) (ground arith),
  λ h.
      let year : y ≡ max_year = ap (λ t. t.year) h in
      let month : m ≡ 12 = ap (λ t. t.month) h in
      let day : d ≡ 31 = ap (λ t. t.day) h in ground arith,
)
no_end range_month y m d v = (
  λ h.
      let h' : next_month (date y m 28) ≡ none = sym (period_end_month y m) ∙ h in
      date_ext (date y m 1) (date max_year 12 1) (ground arith) (ground arith) refl,
  λ h.
      let year : y ≡ max_year = ap (λ t. t.year) h in
      let month : m ≡ 12 = ap (λ t. t.month) h in period_end_month y m ∙ ground arith,
)
no_end range_year y m d v = (
  λ h. date_ext (date y 1 1) (date max_year 1 1) (ground arith) refl refl,
  λ h. let year : y ≡ max_year = ap (λ t. t.year) h in ground arith,
)

-- A period has no bounds exactly if it is the one of the last date, 9999-12-31.
pub period_bounds-last_date :
    (mode : RangeMode) (t : Date)
    → IsDate t
    → (period_bounds mode t ≡ none) ↔ (period_start mode t ≡ period_start mode last_date)
unfolding period_bounds
period_bounds-last_date mode t v =
    let (to, from) = no_end mode t.year t.month t.day v in
    (λ h. to (ground arith), λ h. let h' = from h in ground arith)
