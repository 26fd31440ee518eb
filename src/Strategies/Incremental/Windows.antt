-- ===== src/Strategies/Incremental/Windows.antt =====
-- Where the cutoff lies.
use dbextractors.Base.{
  ℕ, ◌+◌, ◌*◌, ◌≤◌, ◌<◌, ◌≡◌, refl, subst, Option, none, some, arith, leb, inl, inr, Bool-cases,
  Option-cases,
}
use dbextractors.Base.Integers.{ℤ, pos, negsuc}
use dbextractors.Dates.{Date, IsDate, add_days}
use dbextractors.Dates.Back.{add_days-sub_days}
use dbextractors.Partitioning.Spec.{Scalar}
use dbextractors.Strategies.Incremental.{
  WindowSettings, Now, WindowMode, lookback, days_back_mode, deep, window_mode, days_of,
  days_ahead_of, hours_back, days_before, lookback_hours, days_back_of, deep_cutoff, cutoff_of,
  compute_incremental_cutoff,
}

-- A cutoff of the mode. The hours reach back into the cutoff's day; the days lead to it exactly;
-- negative ones lead ahead, `negsuc n` by n + 1; and a deep cutoff is a first of January, 6 to 17 whole months ago.
pub data IsCutoff (int : Scalar → Option ℤ) (s : WindowSettings) (now : Now) (cutoff : Date)
    : WindowMode → Option ℤ → Type 0 where
  by_hours :
      (hours days : ℕ)
      → 0 < hours
      → add_days days cutoff ≡ some now.today
      → 3600 * hours ≤ now.seconds + 86400 * days
      → now.seconds + 86400 * days < 3600 * hours + 86400
      → IsCutoff int s now cutoff lookback (some (pos hours))
  by_hours_ahead :
      (hours days : ℕ)
      → add_days days now.today ≡ some cutoff
      → 86400 * days ≤ now.seconds + 3600 * (hours + 1)
      → now.seconds + 3600 * (hours + 1) < 86400 * days + 86400
      → IsCutoff int s now cutoff lookback (some (negsuc hours))
  by_days :
      (hours : Option ℤ) (days : ℕ)
      → days_back_of int s ≡ some (pos days)
      → add_days days cutoff ≡ some now.today
      → IsCutoff int s now cutoff days_back_mode hours
  by_days_ahead :
      (hours : Option ℤ) (days : ℕ)
      → days_back_of int s ≡ some (negsuc days)
      → add_days (days + 1) now.today ≡ some cutoff
      → IsCutoff int s now cutoff days_back_mode hours
  by_year :
      (hours : Option ℤ)
      → (cutoff.month ≡ 1) × (cutoff.day ≡ 1)
      → cutoff.year * 12 + 6 < now.today.year * 12 + now.today.month
      → now.today.year * 12 + now.today.month ≤ cutoff.year * 12 + 18
      → IsCutoff int s now cutoff deep hours

days_of_bounds :
    (seconds hours : ℕ)
    → seconds < 86400
    → (3600 * hours ≤ seconds + 86400 * days_of seconds hours)
      × (seconds + 86400 * days_of seconds hours < 3600 * hours + 86400)
unfolding days_of
days_of_bounds seconds hours h = elim (Bool-cases (leb (3600 * hours) seconds)) [
  | inl today ↦ rw today (ground arith, ground arith)
  | inr before ↦
      let more : seconds < 3600 * hours = ground arith in rw before (omega arith, omega arith)
]

days_ahead_bounds :
    (seconds hours : ℕ)
    → (86400 * days_ahead_of seconds hours ≤ seconds + 3600 * hours)
      × (seconds + 3600 * hours < 86400 * days_ahead_of seconds hours + 86400)
unfolding days_ahead_of
days_ahead_bounds seconds hours = (omega arith, omega arith)

module _ (int : Scalar → Option ℤ) where
  cutoff_cases :
      (s : WindowSettings) (now : Now) (hours : Option ℤ) (mode : WindowMode) (cutoff : Date)
      → IsDate now.today
      → now.seconds < 86400
      → window_mode s hours ≡ mode
      → cutoff_of int s now hours mode ≡ some cutoff
      → IsCutoff int s now cutoff mode hours
  unfolding window_mode deep_cutoff hours_back days_before
  cutoff_cases s now none lookback cutoff v h m e = absurd (ground arith)
  cutoff_cases s now (some (pos hours)) lookback cutoff v h m e =
      let (from, to) = days_of_bounds now.seconds hours h in
      by_hours hours (days_of now.seconds hours) (ground arith)
        (add_days-sub_days (days_of now.seconds hours) now.today cutoff v e).1 from to
  cutoff_cases s now (some (negsuc hours)) lookback cutoff v h m e =
      let (from, to) = days_ahead_bounds now.seconds (hours + 1) in
      by_hours_ahead hours (days_ahead_of now.seconds (hours + 1)) (ground arith) from to
  cutoff_cases s now hours days_back_mode cutoff v h m e =
      elim (Option-cases (days_back_of int s)) [
        | inl refused ↦ absurd (ground arith)
        | inr (pos days, given) ↦
            by_days hours days given (add_days-sub_days days now.today cutoff v (ground arith)).1
        | inr (negsuc days, given) ↦ by_days_ahead hours days given (ground arith)
      ]
  cutoff_cases s now hours deep cutoff v h m e =
      by_year hours (ground arith, ground arith) (ground (arith, v.month_in))
        (ground (arith, v.month_in))

  -- On any day, a cutoff that is computed is that of its mode: a positive number of hours reaches back
  -- to a time of the cutoff's day, a negative one ahead to such a time, a number of days leads back to
  -- it exactly, a negative one ahead, and the deep cutoff is a first of January, 6 to 17 whole months before the month of today.
  pub compute_incremental_cutoff-IsCutoff :
      (runtime : Scalar) (s : WindowSettings) (now : Now) (cutoff : Date) (hours : Option ℤ)
      → IsDate now.today
      → now.seconds < 86400
      → compute_incremental_cutoff int runtime s now ≡ (some cutoff, hours)
      → IsCutoff int s now cutoff (window_mode s hours) hours
  unfolding compute_incremental_cutoff
  compute_incremental_cutoff-IsCutoff runtime s now cutoff hours v h e =
      let used : lookback_hours int runtime s ≡ hours = ground arith in
      let cut : cutoff_of int s now (lookback_hours int runtime s)
            (window_mode s (lookback_hours int runtime s))
          ≡ some cutoff =
        ground arith in
      cutoff_cases s now hours (window_mode s hours) cutoff v h refl
        (subst (λ n. cutoff_of int s now n (window_mode s n) ≡ some cutoff) used cut)
